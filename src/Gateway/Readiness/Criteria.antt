-- ===== src/Gateway/Readiness/Criteria.antt =====
-- When a publication is ready for release.
use mayday_dispatch.Prelude.{
  ◌≡◌, ◌≢◌, ◌↔◌, ne_text, refl, Bool, true, false, not, ◌&&◌, ◌||◌, List, [], ◌∷◌, ◌++◌, any, ◌==◌,
  arith, eq_iff, All,
}
use mayday_dispatch.Prelude.Text.{trim}
use mayday_dispatch.Domain.Citation.{
  Visibility, public, is_visibility_public, EvidenceReference, is_disclosed,
}
use mayday_dispatch.Domain.Publication.{Publication}
use mayday_dispatch.Gateway.Readiness.{
  Finding, is_error, is_restricted, scope_findings, validate_publication_readiness,
}

any-append : (p : Finding → Bool) (xs ys : List Finding) → any p (xs ++ ys) ≡ (any p xs || any p ys)
any-append p [] ys = refl
any-append p (x ∷ xs) ys = ground (arith, any-append p xs ys)

scope-no_error : (p : Publication) → any is_error (scope_findings p) ≡ false
unfolding scope_findings
scope-no_error p = ground arith

ready-tests :
    (p : Publication)
    → (validate_publication_readiness p).ready ≡ (
        not (trim p.excerpt == "")
        && not
            (is_visibility_public p.visibility && any (λ e. is_restricted e.visibility) p.evidence))
unfolding validate_publication_readiness
ready-tests p = ground (arith, scope-no_error p)

-- What a release asks of a publication: a summary that is not blank, and, if the publication is
-- public, only evidence that may be disclosed.
abbrev pub MayRelease : Publication → Type 0
MayRelease p =
    (trim p.excerpt ≢ "")
    × (p.visibility ≡ public → All (λ e. is_disclosed e.visibility ≡ true) p.evidence)

disclosed_evidence :
    (es : List EvidenceReference)
    → (any (λ e. is_restricted e.visibility) es ≡ false)
      ↔ All (λ e. is_disclosed e.visibility ≡ true) es
disclosed_evidence [] = (λ h. tt, λ h. refl)
disclosed_evidence (e ∷ es) =
    let (to, from) = disclosed_evidence es in
    (λ h. (ground arith, to (ground arith)), λ h. ground (arith, from h.1))

visibility_public : (v : Visibility) → (is_visibility_public v ≡ true) ↔ (v ≡ public)
visibility_public v = (λ h. ground arith, λ h. ground arith)

blocks_none :
    (v : Visibility) (es : List EvidenceReference)
    → (v ≡ public → All (λ e. is_disclosed e.visibility ≡ true) es)
    → not (is_visibility_public v && any (λ e. is_restricted e.visibility) es) ≡ true
blocks_none public es h = rw ((disclosed_evidence es).1 (h refl))
blocks_none _ es h = refl

-- A publication is ready exactly if it may be released: warnings never block, and restricted
-- evidence blocks a public publication only.
pub ready_iff : (p : Publication) → ((validate_publication_readiness p).ready ≡ true) ↔ MayRelease p
ready_iff p =
    let (to, from) = disclosed_evidence p.evidence in
    let (to_public, from_public) = visibility_public p.visibility in
    (
      (λ h. (
        (λ e. ground (arith, ready-tests p, eq_iff (trim p.excerpt) "")),
        (λ e. to (ground (arith, ready-tests p))),
      )),
      (λ h.
          let present : (trim p.excerpt == "") ≡ false = ne_text (trim p.excerpt) "" h.0 in
          rw (ready-tests p, present) (blocks_none p.visibility p.evidence h.1)),
    )

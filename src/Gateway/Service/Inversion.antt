-- ===== src/Gateway/Service/Inversion.antt =====
-- What follows from the success of the checks that the operations of the gateway share, and where
-- the publication of a plan is found once the plan is carried out.
use mayday_dispatch.Prelude.{
  ℕ, String, ◌≡◌, refl, sym, ap, ◌∙◌, inl, inr, true, Option, none, some, List, [], ◌∷◌, arith,
  ◌==◌, Bool-cases, eq_text, eq_refl,
}
use mayday_dispatch.Domain.Patterns.{Formats}
use mayday_dispatch.Domain.Publication.{Publication, is_valid_publication, parsed_publication}
use mayday_dispatch.Gateway.Errors.{ok}
use mayday_dispatch.Repository.{Repository, SaveOptions, find_by_id, get_publication}
use mayday_dispatch.Repository.Save.{save}
use mayday_dispatch.Repository.Save.Effect.{find-save, save-Effect}
use mayday_dispatch.Gateway.Service.{
  Gateway, found, require_publication, validate_publication, assert_expected_version,
}

found-eq : (o : Option Publication) {p : Publication} → found o ≡ ok p → o ≡ some p
found-eq none e = cc
found-eq (some q) e = cc

pub require_publication-eq-ok :
    (id : String) (r : Repository) {p : Publication}
    → require_publication id r ≡ ok p
    → find_by_id id r ≡ some p
unfolding require_publication
require_publication-eq-ok id r h = found-eq (find_by_id id r) h

pub validate_publication-eq-ok :
    (f : Formats) (p : Publication) {q : Publication}
    → validate_publication f p ≡ ok q
    → (is_valid_publication f p ≡ true) × (q ≡ parsed_publication p)
unfolding validate_publication
validate_publication-eq-ok f p h = elim (Bool-cases (is_valid_publication f p)) [
  | inl e ↦ (e, ground arith)
  | inr e ↦ absurd (ground arith)
]

pub assert_expected_version-eq-ok :
    (n : ℕ) (p : Publication) → assert_expected_version n p ≡ ok tt → n ≡ p.revision.version
unfolding assert_expected_version
assert_expected_version-eq-ok n p h = ground arith

get_publication-id :
    (id : String) (ps : List Publication) {p : Publication}
    → get_publication id ps ≡ some p
    → p.id ≡ id
unfolding get_publication
get_publication-id id [] h = cc
get_publication-id id (q ∷ ps) {p} h = elim (Bool-cases (q.id == id)) [
  | inl e ↦
      let same : q ≡ p = cc (rw (e, get_publication) at h) in
      ap (λ (x : Publication). x.id) (sym same) ∙ eq_text q.id id e
  | inr e ↦ get_publication-id id ps (rw (e, get_publication) at h)
]

pub find_by_id-id :
    (id : String) (r : Repository) {p : Publication} → find_by_id id r ≡ some p → p.id ≡ id
unfolding find_by_id
find_by_id-id id r h = get_publication-id id r.publications h

-- A plan writes the parsed form of a publication under the id that it has; the save parses it once
-- more.

pub save-Stored :
    (g : Gateway) (draft after : Publication) (o : SaveOptions) (r r' : Repository)
    {q : Publication}
    → validate_publication g.formats draft ≡ ok after
    → save g.formats g.digest after o r ≡ (ok q, r')
    → (find_by_id draft.id r' ≡ some q) × (q ≡ parsed_publication (parsed_publication draft))
unfolding parsed_publication
save-Stored g draft after o r r' {q} v h =
    let (valid, same) = validate_publication-eq-ok g.formats draft v in
    let (stored, effect) = save-Effect g.formats g.digest after o r r' h in
    let id : after.id ≡ draft.id = ap (λ p. p.id) same in
    (
      find-save g.formats g.digest after o r r' h draft.id ∙ rw (id, eq_refl) refl,
      stored ∙ ap parsed_publication same,
    )

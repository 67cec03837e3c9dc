-- ===== src/Domain/Public/Disclosure.antt =====
-- What `toPublicPublication` of src/domain/publication.ts shows of a publication's evidence.
use mayday_dispatch.Prelude.{
  ◌≡◌, refl, subst, inl, inr, true, Option, List, [], ◌∷◌, All, Memᴰ, Bool-cases, map, arith,
}
use mayday_dispatch.Domain.Patterns.{Formats}
use mayday_dispatch.Domain.Json.{lookup}
use mayday_dispatch.Domain.Citation.{
  EvidenceReference, public, is_disclosed, is_visibility_public, Visibility,
}
use mayday_dispatch.Domain.Blocks.Disclosure.{Discloses, sanitize-Discloses}
use mayday_dispatch.Domain.Publication.{Publication}
use mayday_dispatch.Domain.Public.{
  PublicPublication, PublicEvidence, PublicNotice, to_public_evidence, reference_id, disclosed,
  project, notice_of, to_public_publication,
}
use mayday_dispatch.Gateway.Errors.{ok, require-eq-ok, >>=-eq-ok, ok-injective}

-- A shown piece of evidence is the public part of a reference that may be disclosed.
pub record Shown (es : List EvidenceReference) (x : PublicEvidence) : Type 0 where
  pub reference : EvidenceReference
  pub attached : Memᴰ reference es
  pub may_be_shown : is_disclosed reference.visibility ≡ true
  pub part : x ≡ to_public_evidence reference

shown_later :
    (e : EvidenceReference) (es : List EvidenceReference) (xs : List PublicEvidence)
    → All (Shown es) xs
    → All (Shown (e ∷ es)) xs
shown_later e es [] h = tt
shown_later e es (x ∷ xs) (p, h) = (
  record {
    reference = p.reference;
    attached = Memᴰ.tail p.attached;
    may_be_shown = p.may_be_shown;
    part = p.part;
  },
  shown_later e es xs h,
)

disclosed-Shown :
    (es : List EvidenceReference) → All (Shown es) (map to_public_evidence (disclosed es))
unfolding disclosed
disclosed-Shown [] = tt
disclosed-Shown (e ∷ es) = elim (Bool-cases (is_disclosed e.visibility)) [
  | inl h ↦ rw h (
    record { reference = e; attached = Memᴰ.head refl; may_be_shown = h; part = refl },
    shown_later e es (map to_public_evidence (disclosed es)) (disclosed-Shown es),
  )
  | inr h ↦ rw h (shown_later e es (map to_public_evidence (disclosed es)) (disclosed-Shown es))
]

visibility_is_public : (v : Visibility) → is_visibility_public v ≡ true → v ≡ public
visibility_is_public v h = ground arith

-- What a publication and its public projection have to do with each other.
pub record Projected (p : Publication) (q : PublicPublication) : Type 0 where
  pub visible : p.visibility ≡ public
  pub same : (q.id ≡ p.id) × (q.slug ≡ p.slug) × (q.lifecycle_state ≡ p.lifecycle_state)
  pub same_version : q.revision.version ≡ p.revision.version
  pub evidence : All (Shown p.evidence) q.evidence
  pub blocks : All (Discloses (map reference_id (disclosed p.evidence))) q.blocks

project-Projected :
    (p : Publication) (notice : Option PublicNotice)
    → p.visibility ≡ public
    → Projected p (project p notice)
unfolding project
project-Projected p notice visible = record {
  visible = visible;
  same = (refl, refl, refl);
  same_version = refl;
  evidence = disclosed-Shown p.evidence;
  blocks = sanitize-Discloses (map reference_id (disclosed p.evidence)) p.blocks;
}

-- Only a public publication has a projection. The projection keeps its id, slug, state and version,
-- shows only the public part of attached evidence that may be disclosed, and none of its blocks
-- names other evidence itself.
pub to_public_publication-Projected :
    (f : Formats) (p : Publication) (q : PublicPublication)
    → to_public_publication f p ≡ ok q
    → Projected p q
unfolding to_public_publication
to_public_publication-Projected f p q h =
    let (visible, h1) = require-eq-ok (is_visibility_public p.visibility) _ _ h in
    let (notice, e, h2) = >>=-eq-ok (notice_of f (lookup "publicNotice" p.extensions)) _ h1 in
    subst (Projected p) (ok-injective h2)
      (project-Projected p notice (visibility_is_public p.visibility visible))

-- ===== src/Gateway/Service/Growth.antt =====
-- No operation of src/application/publication-gateway/service.ts loses a publication or takes a
-- version back.
pub mod Operations
use mayday_dispatch.Prelude.{
  ℕ, ◌+◌, ◌≤◌, String, ◌≡◌, refl, sym, ap, ◌∙◌, subst, inl, inr, true, false, Bool, Option, none,
  some, ◌==◌, Bool-cases, arith, eq_text, if◌then◌else◌,
}
use mayday_dispatch.Domain.Patterns.{Formats}
use mayday_dispatch.Domain.Publication.{Publication, parsed_publication, parsed_revision}
use mayday_dispatch.Gateway.Errors.{Result, ok}
use mayday_dispatch.Gateway.Authorization.{Actor}
use mayday_dispatch.Gateway.Dto.{
  CreateDraftRequest, UpdateRequest, AttachRequest, TransitionRequest, Response,
}
use mayday_dispatch.Repository.{Repository, SaveOptions, find_by_id}
use mayday_dispatch.Repository.Save.{save, is_current, stored_version}
use mayday_dispatch.Repository.Save.Effect.{save-Effect, save-current, find-save}
use mayday_dispatch.Gateway.Service.{
  Gateway, RequestContext, Supply, Plan, write, perform, validate_publication, clone_for_revision,
}
use mayday_dispatch.Gateway.Service.Inversion.{validate_publication-eq-ok, find_by_id-id}
use mayday_dispatch.Gateway.Service.Outcome.{Ended, kept, saved, perform-Ended}

-- Each publication of the first repository is in the second one, in the same or a later version.
unfoldable pub Grows : Repository → Repository → Type 0
Grows r r' =
    (id : String) (p : Publication)
    → find_by_id id r ≡ some p
    → (q : Publication) × (find_by_id id r' ≡ some q) × (p.revision.version ≤ q.revision.version)

-- What a plan writes is new, or a later version of what is stored under its id.
pub data Advances (r : Repository) (p : Publication) (o : SaveOptions) : Type 0 where
  starts : o.expected_version ≡ 0 → Advances r p o
  renews : p.revision.version ≡ o.expected_version + 1 → Advances r p o
  follows :
      (before : Publication)
      → find_by_id p.id r ≡ some before
      → p.revision.version ≡ before.revision.version + 1
      → Advances r p o

pub Grows-refl : (r r' : Repository) → r' ≡ r → Grows r r'
unfolding Grows
Grows-refl r r' same id p h = (p, subst (λ s. find_by_id id s ≡ some p) (sym same) h, omega arith)

pub Grows-trans : (r s t : Repository) → Grows r s → Grows s t → Grows r t
unfolding Grows
Grows-trans r s t first then_later id p h =
    let (q, found, low) = first id p h in
    let (q', found', high) = then_later id q found in (q', found', omega arith)

some-equal {ℓ} : {A : Type ℓ} {a b : A} → some a ≡ some b → a ≡ b
some-equal h = cc

not_new : (n v : ℕ) → n ≡ 0 → is_current n (some v) ≡ false
not_new n v e = rw e refl

current_version : (n v : ℕ) → is_current n (some v) ≡ true → v ≡ n
current_version n v h = ground arith

version_stored :
    (id : String) (r : Repository) (b : Publication)
    → find_by_id id r ≡ some b
    → stored_version id r ≡ some b.revision.version
unfolding find_by_id stored_version
version_stored id r b h = rw h refl

module _ (g : Gateway) (r r' : Repository) (p : Publication) (o : SaveOptions) {q : Publication}
    (done : save g.formats g.digest p o r ≡ (ok q, r')) where
  still_current :
      (b : Publication)
      → find_by_id p.id r ≡ some b
      → is_current o.expected_version (some b.revision.version) ≡ true
  still_current b h =
      subst (λ v. is_current o.expected_version v ≡ true) (version_stored p.id r b h)
        (save-current g.formats g.digest p o r r' done)

  -- Under the id of the publication, nothing was stored before, or an earlier version.
  later :
      (b : Publication)
      → Advances r p o
      → find_by_id p.id r ≡ some b
      → b.revision.version ≤ q.revision.version
  unfolding parsed_publication parsed_revision
  later b (starts zero_expected) h =
      absurd
        (cc (sym (still_current b h) ∙ not_new o.expected_version b.revision.version zero_expected))
  later b (renews next) h =
      let old = current_version o.expected_version b.revision.version (still_current b h) in
      let version : q.revision.version ≡ p.revision.version =
        ap (λ (x : Publication). x.revision.version)
          (save-Effect g.formats g.digest p o r r' done).0 in
      omega arith
  later b (follows before stored next) h =
      let same : before ≡ b = some-equal (sym stored ∙ h) in
      let (e, _) = save-Effect g.formats g.digest p o r r' done in
      let version : q.revision.version ≡ p.revision.version =
        ap (λ (x : Publication). x.revision.version) e in
      let old : before.revision.version ≡ b.revision.version =
        ap (λ (x : Publication). x.revision.version) same in
      omega arith

  save-Grows : Advances r p o → Grows r r'
  unfolding Grows
  save-Grows advances id b h = elim (Bool-cases (p.id == id)) [
    | inr other ↦ (b, find-save g.formats g.digest p o r r' done id ∙ rw other h, omega arith)
    | inl same ↦ (
      q,
      find-save g.formats g.digest p o r r' done id ∙ rw same refl,
      later b advances (subst (λ i. find_by_id i r ≡ some b) (sym (eq_text p.id id same)) h),
    )
  ]

module _ (g : Gateway) (context : RequestContext) (r r' : Repository) (x : Result Response) where
  Ended-Grows :
      (m : Result Plan)
      → ((p : Publication) (o : SaveOptions) → m ≡ ok (write p o) → Advances r p o)
      → Ended g r r' m
      → Grows r r'
  Ended-Grows m advances (kept _ same) = Grows-refl r r' same
  Ended-Grows _ advances (saved p o q done) = save-Grows g r r' p o done (advances p o refl)

  pub perform-Grows :
      (m : Result Plan)
      → ((p : Publication) (o : SaveOptions) → m ≡ ok (write p o) → Advances r p o)
      → perform g context m r ≡ (x, r')
      → Grows r r'
  perform-Grows m advances h = Ended-Grows m advances (perform-Ended g context r r' m x h)

module _ (f : Formats) (draft after : Publication) (o : SaveOptions) (r : Repository)
    (before : Publication) where
  -- A draft that follows a stored publication advances it once it is parsed.
  pub parsed-Advances :
      (id : String)
      → validate_publication f draft ≡ ok after
      → find_by_id id r ≡ some before
      → draft.id ≡ before.id
      → draft.revision.version ≡ before.revision.version + 1
      → Advances r after o
  unfolding parsed_publication parsed_revision
  parsed-Advances id v stored same_id next =
      let (valid, e) = validate_publication-eq-ok f draft v in
      let here : id ≡ after.id =
        sym (ap (λ (x : Publication). x.id) e ∙ (same_id ∙ find_by_id-id id r stored)) in
      follows before (subst (λ i. find_by_id i r ≡ some before) here stored)
        (ap (λ (x : Publication). x.revision.version) e ∙ next)

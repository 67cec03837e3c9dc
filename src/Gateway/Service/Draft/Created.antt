-- ===== src/Gateway/Service/Draft/Created.antt =====
-- What `createDraft` of src/application/publication-gateway/service.ts does to the repository.
use mayday_dispatch.Prelude.{
  ℕ, ◌≡◌, refl, ap, subst, true, Option, none, some, ◌+◌, sym, ◌∙◌, false, arith,
}
use mayday_dispatch.Domain.Lifecycle.{
  draft, is_public_state, can_transition_lifecycle, LifecycleState,
}
use mayday_dispatch.Domain.Publication.{Publication, parsed_publication, parsed_revision}
use mayday_dispatch.Gateway.Errors.{Result, ok}
use mayday_dispatch.Gateway.Authorization.{Actor}
use mayday_dispatch.Gateway.Dto.{CreateDraftRequest, parsed_draft, Response}
use mayday_dispatch.Repository.{
  Repository, SaveOptions, IdempotencyRecord, find_by_id, find_by_origin_identity,
}
use mayday_dispatch.Repository.Save.{save, is_current, stored_version}
use mayday_dispatch.Repository.Save.Effect.{save-current}
use mayday_dispatch.Gateway.Service.{
  Gateway, RequestContext, Supply, Plan, replay, write, truthy, is_external, clone_for_revision,
  assert_slug_available,
}
use mayday_dispatch.Gateway.Service.Outcome.{Performed, perform-Performed}
use mayday_dispatch.Gateway.Service.Inversion.{save-Stored, validate_publication-eq-ok}
use mayday_dispatch.Gateway.Service.Update.Prepared.{external_draft}
use mayday_dispatch.Gateway.Service.Draft.{
  find_record, new_draft, synchronized, create_draft_publication,
}
use mayday_dispatch.Gateway.Service.Draft.Prepared.{Planned, Drafter, prepare_draft-Planned}

module _ (g : Gateway) (actor : Option Actor) (context : RequestContext) (s : Supply)
    (d : CreateDraftRequest) where
  -- The three ways in which `createDraft` succeeds.
  pub data Created (r r' : Repository) : Type 0 where
    repeated :
        (k : IdempotencyRecord)
        → find_record (truthy context.idempotency_key) actor r ≡ some k
        → k.request_hash ≡ g.request_hash d
        → r' ≡ r
        → Created r r'
    created :
        (after : Publication)
        → find_by_origin_identity d.origin r ≡ none
        → assert_slug_available d.slug none r ≡ ok tt
        → stored_version s.publication_id r ≡ none
        → find_by_id s.publication_id r' ≡ some after
        → after.lifecycle_state ≡ draft
        → after.revision.version ≡ 1
        → find_record (truthy context.idempotency_key) actor r ≡ none
        → Created r r'
    synchronized_from_origin :
        (before after : Publication)
        → find_by_origin_identity d.origin r ≡ some before
        → d.expected_version ≡ some before.revision.version
        → (is_external actor ≡ true → before.lifecycle_state ≡ draft)
        → find_by_id before.id r' ≡ some after
        → after.lifecycle_state ≡ draft
        → after.revision.version ≡ before.revision.version + 1
        → find_record (truthy context.idempotency_key) actor r ≡ none
        → Created r r'

  unstored : (v : Option ℕ) → is_current 0 v ≡ true → v ≡ none
  unstored none h = refl
  unstored (some n) h = cc

  fresh_id :
      (after : Publication) (o : SaveOptions) (r r' : Repository) {q : Publication}
      → after.id ≡ s.publication_id
      → o.expected_version ≡ 0
      → save g.formats g.digest after o r ≡ (ok q, r')
      → stored_version s.publication_id r ≡ none
  fresh_id after o r r' same unset h = unstored (stored_version s.publication_id r) (
      subst (λ id. is_current 0 (stored_version id r) ≡ true) same
        (subst (λ n. is_current n (stored_version after.id r) ≡ true) unset
          (save-current g.formats g.digest after o r r' h)))

  Planned-Created :
      (r r' : Repository) (resp : Response) (plan : Plan)
      → Planned g actor context s r d plan
      → Performed g context r resp r' (ok plan)
      → Created r r'
  unfolding parsed_publication parsed_revision new_draft synchronized clone_for_revision
  Planned-Created r r' resp _ (Planned.earlier k found same) (Performed.replayed p e h) =
      repeated k found same e
  Planned-Created r r' resp _ (Planned.fresh evidence after o _ new slug valid unset _ first _)
        (Performed.written p o' q h _) =
      let (found, twice) = save-Stored g (new_draft d evidence s) after o r r' valid h in
      let same_id : after.id ≡ s.publication_id =
        ap (λ (x : Publication). x.id)
          (validate_publication-eq-ok g.formats (new_draft d evidence s) valid).1 in
      created q new slug (fresh_id after o r r' same_id unset h) found
        (ap (λ (x : Publication). x.lifecycle_state) twice)
        (ap (λ (x : Publication). x.revision.version) twice) first
  Planned-Created r r' resp _
        (Planned.upstream p evidence after o _ known version unlocked _ valid _ _ first _)
        (Performed.written p' o' q h _) =
      let (found, twice) = save-Stored g (synchronized p d evidence s) after o r r' valid h in
      synchronized_from_origin p q known version (external_draft actor r p unlocked) found
        (ap (λ (x : Publication). x.lifecycle_state) twice)
        (ap (λ (x : Publication). x.revision.version) twice) first

module _ (g : Gateway) (context : RequestContext) (r r' : Repository) (resp : Response) where
  pub performed-plan :
      (m : Result Plan) → Performed g context r resp r' m → (plan : Plan) × (m ≡ ok plan)
  performed-plan _ (Performed.replayed p _ _) = (replay p, refl)
  performed-plan _ (Performed.written p o q _ _) = (write p o, refl)

pub create_draft_publication-Created :
    (g : Gateway) (actor : Option Actor) (context : RequestContext) (s : Supply) (r r' : Repository)
    (input : CreateDraftRequest) (resp : Response)
    → create_draft_publication g input actor context s r ≡ (ok resp, r')
    → Drafter actor (parsed_draft input) × Created g actor context s (parsed_draft input) r r'
unfolding create_draft_publication
create_draft_publication-Created g actor context s r r' input resp h =
    let done = perform-Performed g context r _ resp r' h in
    let (plan, e) = performed-plan g context r r' resp _ done in
    let (drafter, planned) = prepare_draft-Planned g actor context s r input plan e in
    (
      drafter,
      Planned-Created g actor context s (parsed_draft input) r r' resp plan planned
          (subst (Performed g context r resp r') e done),
    )

pub no_some {ℓ} : {A : Type ℓ} {a : A} → none ≡ some a → ⊥
no_some h = cc

some-injective {ℓ} : {A : Type ℓ} {a b : A} → some a ≡ some b → a ≡ b
some-injective h = cc

draft_after_release :
    (s t : LifecycleState)
    → is_public_state s ≡ true
    → t ≡ draft
    → can_transition_lifecycle s t ≡ false
unfolding can_transition_lifecycle
draft_after_release s t released e = ground arith

-- A call of `createDraft` that is no repetition, and whose origin a stored publication has already,
-- stores that publication as a draft whatever its state was: a released one too, although no
-- transition leads from a released state to `draft`.
pub create_draft_publication-withdraws :
    (g : Gateway) (actor : Option Actor) (context : RequestContext) (s : Supply) (r r' : Repository)
    (input : CreateDraftRequest) (resp : Response) (before : Publication)
    → create_draft_publication g input actor context s r ≡ (ok resp, r')
    → find_record (truthy context.idempotency_key) actor r ≡ none
    → find_by_origin_identity (parsed_draft input).origin r ≡ some before
    → (after : Publication) × (find_by_id before.id r' ≡ some after)
      × (after.lifecycle_state ≡ draft)
      × (is_public_state before.lifecycle_state ≡ true
          → can_transition_lifecycle before.lifecycle_state after.lifecycle_state ≡ false)
create_draft_publication-withdraws g actor context s r r' input resp before h first known =
    elim (create_draft_publication-Created g actor context s r r' input resp h).1 [
      | repeated k found _ _ ↦ absurd (no_some (sym first ∙ found))
      | created after new _ _ _ _ _ _ ↦ absurd (no_some (sym new ∙ known))
      | synchronized_from_origin old after known' _ _ found state _ _ ↦ (
        after,
        subst (λ (x : Publication). find_by_id x.id r' ≡ some after)
            (some-injective (sym known' ∙ known)) found,
        state,
        (λ released.
            draft_after_release before.lifecycle_state after.lifecycle_state released state),
      )
    ]

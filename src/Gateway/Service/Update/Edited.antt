-- ===== src/Gateway/Service/Update/Edited.antt =====
-- What an edit of src/application/publication-gateway/service.ts (`update`) may change.
use mayday_dispatch.Prelude.{
  String, ◌≡◌, refl, sym, ap, ◌∙◌, subst, ◌⊎◌, inl, inr, true, false, Option, some, arith, ◌+◌, ◌≢◌,
  none, or_else,
}
use mayday_dispatch.Domain.Lifecycle.{LifecycleState, draft, published, updated, is_public_state}
use mayday_dispatch.Domain.Citation.{Visibility, public}
use mayday_dispatch.Domain.Publication.{
  Publication, RevisionType, parsed_publication, parsed_origin, parsed_provenance, parsed_revision,
  Origin,
}
use mayday_dispatch.Gateway.Errors.{ok}
use mayday_dispatch.Gateway.Authorization.{Actor, assert_can, update}
use mayday_dispatch.Gateway.Dto.{UpdateRequest, parsed_update, Response}
use mayday_dispatch.Repository.{Repository, SaveOptions, find_by_id}
use mayday_dispatch.Repository.Save.{save}
use mayday_dispatch.Gateway.Service.{
  Gateway, RequestContext, Supply, write, is_external, is_application, clone_for_revision,
  assert_public_release_unlocked,
}
use mayday_dispatch.Gateway.Service.Outcome.{replan, perform-Performed, performed-write}
use mayday_dispatch.Gateway.Service.Inversion.{
  save-Stored, find_by_id-id, validate_publication-eq-ok,
}
use mayday_dispatch.Gateway.Service.Update.{
  edited, edited_state, revision_type_of, prepare_update, update_publication, withdraws,
  enters_release,
}
use mayday_dispatch.Prelude.Text.Trim.{trim-trim}
use mayday_dispatch.Gateway.Service.Update.Prepared.{
  Prepared, prepare_update-Prepared, check_edit-eq-ok, forbid-false,
}

-- A publication that is released stays public under an edit that does not withdraw it.
kept_public :
    (p : Publication) (v : Option Visibility)
    → withdraws p v ≡ false
    → is_public_state p.lifecycle_state ≡ true
    → p.visibility ≡ public
    → or_else v p.visibility ≡ public
unfolding withdraws
kept_public p none h released e = e
kept_public p (some v) h released e = ground arith

-- What an edit that succeeds has done.
pub record Edited (actor : Option Actor) (id : String) (u : UpdateRequest) (r r' : Repository)
    : Type 0 where
  pub before : Publication
  pub stored : find_by_id id r ≡ some before
  pub evidence_only : is_application actor "mayday3" ≡ false
  pub allowed : assert_can update actor (some before) ≡ ok tt
  pub version : u.expected_version ≡ before.revision.version
  pub external_draft : is_external actor ≡ true → before.lifecycle_state ≡ draft
  pub after : Publication
  pub found : find_by_id id r' ≡ some after
  pub next_version : after.revision.version ≡ before.revision.version + 1
  pub same_origin : after.provenance.origin ≡ parsed_origin before.provenance.origin
  pub state :
      (after.lifecycle_state ≡ before.lifecycle_state)
      ⊎ ((before.lifecycle_state ≡ published) × (after.lifecycle_state ≡ updated))
  pub kept_public :
      is_public_state before.lifecycle_state ≡ true
      → before.visibility ≡ public
      → after.visibility ≡ public
  pub unlocked :
      is_public_state after.lifecycle_state ≡ true
      → after.visibility ≡ public
      → (before.visibility ≢ public) ⊎ (before.lifecycle_state ≢ after.lifecycle_state)
      → r.lockdown.enabled ≡ false

state_cases :
    (kind : RevisionType) (state : LifecycleState)
    → (edited_state kind state ≡ state)
      ⊎ ((state ≡ published) × (edited_state kind state ≡ updated))
state_cases kind state = ground arith

unlocked-false :
    (r : Repository) → assert_public_release_unlocked r ≡ ok tt → r.lockdown.enabled ≡ false
unfolding assert_public_release_unlocked
unlocked-false r h = forbid-false r.lockdown.enabled _ h

parsed_origin-parsed_origin : (o : Origin) → parsed_origin (parsed_origin o) ≡ parsed_origin o
unfolding parsed_origin
parsed_origin-parsed_origin o =
    rw
      (
        trim-trim o.label,
        trim-trim o.originating_application,
        trim-trim o.originating_project,
        trim-trim o.stable_object_id,
      )
      refl

entering :
    (before after : Publication)
    → is_public_state after.lifecycle_state ≡ true
    → after.visibility ≡ public
    → (before.visibility ≢ public) ⊎ (before.lifecycle_state ≢ after.lifecycle_state)
    → enters_release before after ≡ true
unfolding enters_release
entering before after state visible (inl fresh) = ground arith
entering before after state visible (inr other) = ground arith

enters_release_same :
    (before x y : Publication)
    → x.lifecycle_state ≡ y.lifecycle_state
    → x.visibility ≡ y.visibility
    → enters_release before x ≡ enters_release before y
unfolding enters_release
enters_release_same before x y state visible = rw (state, visible) refl

module _ (g : Gateway) (actor : Option Actor) (context : RequestContext) (s : Supply)
    (r r' : Repository) where
  save-Edited :
      (id : String) (u : UpdateRequest) (after : Publication) (o : SaveOptions) {q : Publication}
      → Prepared g actor context s r id u after o
      → save g.formats g.digest after o r ≡ (ok q, r')
      → Edited actor id u r r'
  unfolding parsed_publication parsed_provenance parsed_revision edited clone_for_revision
  save-Edited id u after o {q} c h =
      let p = c.before in
      let kind = revision_type_of u.revision_type (is_external actor) in
      let (allowed, version, external, kept, _) = check_edit-eq-ok actor r p u kind c.checked in
      let (found, twice) = save-Stored g (edited p u kind s) after o r r' c.validated h in
      let (valid, once) = validate_publication-eq-ok g.formats (edited p u kind s) c.validated in
      let same_id : p.id ≡ id = find_by_id-id id r c.stored in
      let state : q.lifecycle_state ≡ edited_state kind p.lifecycle_state =
        ap (λ (x : Publication). x.lifecycle_state) twice in
      let visible : q.visibility ≡ or_else u.visibility p.visibility =
        ap (λ (x : Publication). x.visibility) twice in
      record {
        before = p;
        stored = c.stored;
        evidence_only = c.evidence_only;
        allowed = allowed;
        version = version;
        external_draft = external;
        after = q;
        found = subst (λ i. find_by_id i r' ≡ some q) same_id found;
        next_version = ap (λ (x : Publication). x.revision.version) twice;
        same_origin =
            ap (λ (x : Publication). x.provenance.origin) twice
            ∙ parsed_origin-parsed_origin p.provenance.origin;
        state =
            subst (λ t. (t ≡ p.lifecycle_state) ⊎ ((p.lifecycle_state ≡ published) × (t ≡ updated)))
              (sym state) (state_cases kind p.lifecycle_state);
        kept_public = (λ released e. visible ∙ kept_public p u.visibility kept released e);
        unlocked = (λ released e fresh. unlocked-false r (
            c.released (
              enters_release_same p after q
                (ap (λ (x : Publication). x.lifecycle_state) once ∙ sym state)
                (ap (λ (x : Publication). x.visibility) once ∙ sym visible)
              ∙ entering p q released e fresh)));
      }

  -- An edit that succeeds is of a stored publication that the actor may edit, at the version that
  -- the request names; the actor is not the application mayday3, and an external application edits
  -- drafts only. It stores the publication under the same id, with the next version and the same
  -- (trimmed) origin, and in the same state, or else `updated` after `published`. A released
  -- publication stays public, and where the edit makes a publication public in a public state, or
  -- moves a public one between two such states, public releases are not locked.
  pub update_publication-Edited :
      (id : String) (input : UpdateRequest) (resp : Response)
      → update_publication g id input actor context s r ≡ (ok resp, r')
      → Edited actor id (parsed_update input) r r'
  unfolding update_publication
  update_publication-Edited id input resp h =
      let (after, o, q, e, saved) =
        performed-write g context r r' resp (prepare_update g actor context s r id input)
          (λ plan e.
            let (a, o, w, _) = prepare_update-Prepared g actor context s r id input plan e in
            (a, o, w))
          (perform-Performed g context r _ resp r' h) in
      let (a, o', w, c) = prepare_update-Prepared g actor context s r id input (write after o) e in
      save-Edited id (parsed_update input) after o
        (replan (Prepared g actor context s r id (parsed_update input)) (ap ok (sym w)) c) saved

-- ===== src/Gateway/Service/Transition/Release.antt =====
-- Who can release a publication by `transition`, and when.
use mayday_dispatch.Prelude.{
  String, ◌≡◌, refl, true, Option, none, some, [], arith, ◌+◌, subst, Bool, false, ap, sym,
}
use mayday_dispatch.Domain.Publication.{Publication, parsed_publication, parsed_revision}
use mayday_dispatch.Gateway.Errors.{
  ok, >>=-eq-ok, >>-eq-ok, require-eq-ok, Failure, require, ok-injective,
}
use mayday_dispatch.Gateway.Authorization.{Actor, assert_can, transition}
use mayday_dispatch.Gateway.Dto.{
  TransitionRequest, is_valid_transition, parsed_transition, Response,
}
use mayday_dispatch.Audit.{AuditEvent}
use mayday_dispatch.Repository.{Repository, SaveOptions, ReleaseManifest, find_by_id}
use mayday_dispatch.Gateway.Service.{
  Gateway, RequestContext, Supply, write, found, require_publication, assert_expected_version,
  validate_publication, audit_event, clone_for_revision, assert_public_release_unlocked,
  is_visibility_public, Plan, is_public_state,
}
use mayday_dispatch.Gateway.Service.Outcome.{replan, performed-write, perform-Performed}
use mayday_dispatch.Repository.Save.{save}
use mayday_dispatch.Gateway.Service.Inversion.{
  require_publication-eq-ok, save-Stored, find_by_id-id, assert_expected_version-eq-ok,
}
use mayday_dispatch.Gateway.Service.Transition.{
  check_transition, manifest_for, moved, prepare_transition, transition_action, transition_type,
  may_publish, check_release, in_editorial_session, can_transition_lifecycle,
  transition_publication,
}
use mayday_dispatch.Domain.Citation.{Visibility, public}
use mayday_dispatch.Gateway.Readiness.Criteria.{ready_iff, MayRelease}
use mayday_dispatch.Gateway.Readiness.{validate_publication_readiness}

module _ (g : Gateway) (actor : Option Actor) (context : RequestContext) (s : Supply)
    (r : Repository) where
  -- The facts behind a transition that is prepared.
  pub record Prepared (id : String) (t : TransitionRequest) (after : Publication) (o : SaveOptions)
      : Type 0 where
    pub before : Publication
    pub stored : find_by_id id r ≡ some before
    pub checked : check_transition actor r before t ≡ ok tt
    pub validated : validate_publication g.formats (moved before t s) ≡ ok after
    pub manifest : Option ReleaseManifest
    pub event : AuditEvent
    pub audited :
        event
        ≡ audit_event s.audit_id
            (transition_action t.to)
            after
            actor
            context
            (some before.revision.version)
            (transition_type t.to)
    pub released : manifest_for g actor context t.to after event ≡ ok manifest
    pub options : o ≡ record {
      expected_version = t.expected_version;
      audit_event = event;
      release_manifest = manifest;
      registered_evidence = [];
      idempotency = none;
    }

  pub prepare_transition-Prepared :
      (id : String) (input : TransitionRequest) (plan : Plan)
      → prepare_transition g actor context s r id input ≡ ok plan
      → (after : Publication) × (o : SaveOptions) × (plan ≡ write after o)
        × Prepared id (parsed_transition input) after o
  unfolding prepare_transition
  prepare_transition-Prepared id input plan h =
      let t = parsed_transition input in
      let (valid, h1) = require-eq-ok (is_valid_transition input) _ _ h in
      let (p, e2, h2) = >>=-eq-ok (require_publication id r) _ h1 in
      let (e3, h3) = >>-eq-ok (check_transition actor r p t) _ h2 in
      let (q, e4, h4) = >>=-eq-ok (validate_publication g.formats (moved p t s)) _ h3 in
      let event : AuditEvent =
        audit_event s.audit_id (transition_action t.to) q actor context (some p.revision.version)
          (transition_type t.to) in
      let (m, e5, h5) = >>=-eq-ok (manifest_for g actor context t.to q event) _ h4 in
      (
        _,
        _,
        ok-injective (sym h5),
        record {
          before = p;
          stored = require_publication-eq-ok id r e2;
          checked = e3;
          validated = e4;
          manifest = m;
          event = event;
          audited = refl;
          released = e5;
          options = refl;
        },
      )

-- The authority that a release asks for, and the state of the publication that it asks for.
pub record Authority (actor : Option Actor) (r : Repository) (p : Publication) : Type 0 where
  pub publisher : may_publish actor ≡ true
  pub session : in_editorial_session actor ≡ true
  pub unlocked : r.lockdown.enabled ≡ false
  pub is_public : p.visibility ≡ public
  pub ready : MayRelease p

is_public_visibility : (v : Visibility) → is_visibility_public v ≡ true → v ≡ public
is_public_visibility v h = ground arith

unlocked-eq-ok :
    (r : Repository) → assert_public_release_unlocked r ≡ ok tt → r.lockdown.enabled ≡ false
unfolding assert_public_release_unlocked
unlocked-eq-ok r h = ground arith

require-true : (b : Bool) (e : Failure) → require b e ≡ ok tt → b ≡ true
require-true true e h = refl
require-true false e h = cc

module _ (actor : Option Actor) (r : Repository) (p : Publication) where
  check_release-Authority : check_release actor r p ≡ ok tt → Authority actor r p
  unfolding check_release
  check_release-Authority h =
      let (publisher, h1) = require-eq-ok (may_publish actor) _ _ h in
      let (session, h2) = require-eq-ok (in_editorial_session actor) _ _ h1 in
      let (unlocked, h3) = >>-eq-ok (assert_public_release_unlocked r) _ h2 in
      let (visible, h4) = require-eq-ok (is_visibility_public p.visibility) _ _ h3 in
      record {
        publisher = publisher;
        session = session;
        unlocked = unlocked-eq-ok r unlocked;
        is_public = is_public_visibility p.visibility visible;
        ready = (ready_iff p).0 (require-true (validate_publication_readiness p).ready _ h4);
      }

  check_transition-eq-ok :
      (t : TransitionRequest)
      → check_transition actor r p t ≡ ok tt
      → (assert_can transition actor (some p) ≡ ok tt)
        × (t.expected_version ≡ p.revision.version)
        × (can_transition_lifecycle p.lifecycle_state t.to ≡ true)
        × (is_public_state t.to ≡ true → Authority actor r p)
  unfolding check_transition
  check_transition-eq-ok t h =
      let (allowed, h1) = >>-eq-ok (assert_can transition actor (some p)) _ h in
      let (version, h2) = >>-eq-ok (assert_expected_version t.expected_version p) _ h1 in
      let (permitted, h3) =
        require-eq-ok (can_transition_lifecycle p.lifecycle_state t.to) _ _ h2 in
      (
        allowed,
        assert_expected_version-eq-ok t.expected_version p version,
        permitted,
        (λ e. check_release-Authority (rw e at h3)),
      )

-- What a transition that succeeds has done.
pub record Transitioned (actor : Option Actor) (id : String) (t : TransitionRequest)
    (r r' : Repository) : Type 0 where
  pub before : Publication
  pub stored : find_by_id id r ≡ some before
  pub allowed : assert_can transition actor (some before) ≡ ok tt
  pub version : t.expected_version ≡ before.revision.version
  pub permitted : can_transition_lifecycle before.lifecycle_state t.to ≡ true
  pub authority : is_public_state t.to ≡ true → Authority actor r before
  pub after : Publication
  pub found : find_by_id id r' ≡ some after
  pub moved_to : after.lifecycle_state ≡ t.to
  pub next_version : after.revision.version ≡ before.revision.version + 1
  pub same_content :
      (after.id ≡ before.id) × (after.slug ≡ before.slug) × (after.visibility ≡ before.visibility)

module _ (g : Gateway) (actor : Option Actor) (context : RequestContext) (s : Supply)
    (r r' : Repository) where
  moved-Transitioned :
      (id : String) (t : TransitionRequest) (after : Publication) (o : SaveOptions)
      {q : Publication}
      → Prepared g actor context s r id t after o
      → save g.formats g.digest after o r ≡ (ok q, r')
      → Transitioned actor id t r r'
  unfolding parsed_publication parsed_revision moved clone_for_revision
  moved-Transitioned id t after o {q} c h =
      let (allowed, version, permitted, authority) =
        check_transition-eq-ok actor r c.before t c.checked in
      let (found, twice) = save-Stored g (moved c.before t s) after o r r' c.validated h in
      let same_id : c.before.id ≡ id = find_by_id-id id r c.stored in
      record {
        before = c.before;
        stored = c.stored;
        allowed = allowed;
        version = version;
        permitted = permitted;
        authority = authority;
        after = q;
        found = subst (λ i. find_by_id i r' ≡ some q) same_id found;
        moved_to = ap (λ (p : Publication). p.lifecycle_state) twice;
        next_version = ap (λ (p : Publication). p.revision.version) twice;
        same_content = (
          ap (λ (p : Publication). p.id) twice,
          ap (λ (p : Publication). p.slug) twice,
          ap (λ (p : Publication). p.visibility) twice,
        );
      }

  -- A transition that succeeds is of a stored publication that the actor may move from its state
  -- to the one asked for, at the version that the request names. It stores the publication under
  -- the same id and slug, with the same visibility, in the state asked for and with the next
  -- version. If that state is a public one, then the actor is a publisher or an administrator in
  -- an editorial session, public releases are not locked, and the publication was public and ready
  -- for release.
  pub transition_publication-Transitioned :
      (id : String) (input : TransitionRequest) (resp : Response)
      → transition_publication g id input actor context s r ≡ (ok resp, r')
      → Transitioned actor id (parsed_transition input) r r'
  unfolding transition_publication
  transition_publication-Transitioned id input resp h =
      let (after, o, q, e, saved) =
        performed-write g context r r' resp (prepare_transition g actor context s r id input)
          (λ plan e.
            let (a, o, w, _) = prepare_transition-Prepared g actor context s r id input plan e in
            (a, o, w))
          (perform-Performed g context r _ resp r' h) in
      let (a, o', w, c) =
        prepare_transition-Prepared g actor context s r id input (write after o) e in
      moved-Transitioned id (parsed_transition input) after o
        (replan (Prepared g actor context s r id (parsed_transition input)) (ap ok (sym w)) c) saved

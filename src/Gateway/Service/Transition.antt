-- ===== src/Gateway/Service/Transition.antt =====
-- src/application/publication-gateway/service.ts: `transition`, with the release of a publication.
pub mod Release
pub mod Recorded
use mayday_dispatch.Prelude.{
  String, Bool, true, false, ◌||◌, Option, none, some, [], map, if◌then◌else◌,
}
use mayday_dispatch.Domain.Lifecycle.{
  LifecycleState, archived, published, updated, is_public_state, can_transition_lifecycle,
}
use mayday_dispatch.Domain.Json.{Extensions, str, put}
use mayday_dispatch.Domain.Citation.{is_visibility_public}
use mayday_dispatch.Domain.Publication.{Publication, RevisionType}
use mayday_dispatch.Domain.Public.{to_public_publication, is_valid_public, parsed_public}
use mayday_dispatch.Gateway.Readiness.{
  Finding, FindingCode, missing_summary, missing_citations, restricted_evidence,
  missing_geographic_scope, missing_temporal_scope, validate_publication_readiness,
}
use mayday_dispatch.Gateway.Errors.{
  Result, ok, gateway_error, invalid_transition, validation_failed, no_details, findings, zod_error,
  validation_error, ◌>>=◌, ◌>>◌, require,
}
use mayday_dispatch.Gateway.Authorization.{
  Actor, AuthenticationMethod, editorial_session, publisher, admin, transition, has_role,
  assert_can, forbidden_error,
}
use mayday_dispatch.Gateway.Dto.{
  TransitionRequest, Response, is_valid_transition, parsed_transition,
}
use mayday_dispatch.Audit.{AuditEvent}
use mayday_dispatch.Repository.{Repository, ReleaseManifest}
use mayday_dispatch.Repository.Save.{Step}
use mayday_dispatch.Gateway.Service.{
  Gateway, RequestContext, Supply, Plan, write, truthy, clone_for_revision, assert_expected_version,
  require_publication, validate_publication, assert_public_release_unlocked, audit_event, perform,
}

-- `actor?.roles.includes("publisher") || actor?.roles.includes("admin")`
abbrev pub may_publish : Option Actor → Bool
may_publish none = false
may_publish (some a) = has_role publisher a || has_role admin a

abbrev pub is_editorial_session : Option AuthenticationMethod → Bool
is_editorial_session (some editorial_session) = true
is_editorial_session _ = false

-- `actor?.authenticationMethod === "editorial-session"`
abbrev pub in_editorial_session : Option Actor → Bool
in_editorial_session none = false
in_editorial_session (some a) = is_editorial_session a.authentication_method

unfoldable pub code_text : FindingCode → String
code_text missing_summary = "MISSING_SUMMARY"
code_text missing_citations = "MISSING_CITATIONS"
code_text restricted_evidence = "RESTRICTED_EVIDENCE"
code_text missing_geographic_scope = "MISSING_GEOGRAPHIC_SCOPE"
code_text missing_temporal_scope = "MISSING_TEMPORAL_SCOPE"

abbrev pub transition_type : LifecycleState → RevisionType
transition_type archived = RevisionType.archive
transition_type _ = RevisionType.lifecycle_transition

abbrev pub transition_action : LifecycleState → String
transition_action published = "publication.release"
transition_action updated = "publication.release.update"
transition_action archived = "publication.archive"
transition_action _ = "publication.lifecycle.transition"

unfoldable pub with_reason : Option String → Extensions → Extensions
unfolding put
with_reason none m = m
with_reason (some reason) m = put "archiveReason" (str reason) m

-- The publication that a transition makes of the one that is stored.
unfoldable pub moved : Publication → TransitionRequest → Supply → Publication
unfolding clone_for_revision with_reason
moved p t s = record p {
  lifecycle_state = t.to;
  extensions = with_reason (truthy t.reason) p.extensions;
  revision = clone_for_revision p s.now t.revision_summary (transition_type t.to);
}

-- `actor!.subjectId`
abbrev pub subject_of : Option Actor → String
subject_of none = ""
subject_of (some a) = a.subject_id

module _ (g : Gateway) (actor : Option Actor) (context : RequestContext) where
  -- `createReleaseManifest`
  unfoldable pub create_release_manifest : Publication → AuditEvent → Result ReleaseManifest
  create_release_manifest p event = do
    let readiness = validate_publication_readiness p
    require readiness.ready (gateway_error validation_failed (findings readiness.findings))
    projection ← to_public_publication g.formats p
    require (is_valid_public g.formats projection) zod_error
    let snapshot = parsed_public projection
    ok (record {
      release_operation_id = event.id;
      publication_id = p.id;
      publication_version = p.revision.version;
      released_at = p.revision.updated_at;
      publisher_subject_id = subject_of actor;
      public_content_digest = g.digest snapshot;
      passed = true;
      finding_codes = map (λ (e : Finding). code_text e.code) readiness.findings;
      audit_correlation_id = context.correlation_id;
      public_status = p.lifecycle_state;
      public_snapshot = snapshot;
    })

  -- The manifest of a release; no other transition has one.
  unfoldable pub manifest_for :
      LifecycleState → Publication → AuditEvent → Result (Option ReleaseManifest)
  manifest_for to p event =
      if is_public_state to
      then (do manifest ← create_release_manifest p event; ok (some manifest))
      else ok none

module _ (actor : Option Actor) (r : Repository) where
  -- The conditions of a transition to `published` or `updated`.
  unfoldable pub check_release : Publication → Result (Unit {0})
  check_release p = do
    require (may_publish actor) forbidden_error
    require (in_editorial_session actor) forbidden_error
    assert_public_release_unlocked r
    require (is_visibility_public p.visibility) (gateway_error validation_failed no_details)
    require (validate_publication_readiness p).ready
        (gateway_error validation_failed (findings (validate_publication_readiness p).findings))

  -- The conditions of `transition` on the stored publication and the parsed request.
  unfoldable pub check_transition : Publication → TransitionRequest → Result (Unit {0})
  check_transition p t = do
    assert_can transition actor (some p)
    assert_expected_version t.expected_version p
    require (can_transition_lifecycle p.lifecycle_state t.to)
        (gateway_error invalid_transition no_details)
    (if is_public_state t.to then check_release p else ok tt)

module _ (g : Gateway) (actor : Option Actor) (context : RequestContext) (s : Supply)
    (r : Repository) where
  unfoldable pub prepare_transition : (id : String) → TransitionRequest → Result Plan
  prepare_transition id input = do
    require (is_valid_transition input) validation_error
    let t = parsed_transition input
    p ← require_publication id r
    check_transition actor r p t
    after ← validate_publication g.formats (moved p t s)
    let event =
        audit_event s.audit_id (transition_action t.to) after actor context
          (some p.revision.version) (transition_type t.to)
    manifest ← manifest_for g actor context t.to after event
    ok (
        write after (record {
          expected_version = t.expected_version;
          audit_event = event;
          release_manifest = manifest;
          registered_evidence = [];
          idempotency = none;
        }))

-- `transition`
unfoldable pub transition_publication :
    Gateway
    → (id : String) → TransitionRequest
    → Option Actor
    → RequestContext
    → Supply
    → Step Response
transition_publication g id input actor context s r =
    perform g context (prepare_transition g actor context s r id input) r

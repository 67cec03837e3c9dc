-- ===== src/Gateway/Service.antt =====
-- src/application/publication-gateway/service.ts: what the operations of the gateway share. An
-- operation first reads and decides (`prepare_…`, which may throw), and then writes (`perform`).
pub mod Draft
pub mod Update
pub mod Attach
pub mod Transition
pub mod Read
pub mod Outcome
pub mod Inversion
pub mod Atomic
pub mod Slugs
pub mod Growth
use mayday_dispatch.Prelude.{
  ℕ, ◌+◌, String, Bool, true, false, not, ◌&&◌, ◌||◌, none, some, [], ◌∷◌, ◌==◌, eqb, if◌then◌else◌,
  or_else, same_text?, any, Option, List,
}
use mathlib.Core.Option
use mayday_dispatch.Prelude.Text.{codes, join}
use mayday_dispatch.Domain.Patterns.{Formats, drive_at}
use mayday_dispatch.Domain.Lifecycle.{draft, same_state, is_public_state}
use mayday_dispatch.Domain.Citation.{
  EvidenceReference, ReferenceStatus, is_disclosed, is_visibility_public,
}
use mayday_dispatch.Domain.Publication.{
  Publication, Revision, RevisionType, is_valid_publication, parsed_publication,
}
use mayday_dispatch.Domain.Public.{PublicPublication}
use mayday_dispatch.Gateway.Errors.{
  Result, ok, err, Failure, gateway_error, ErrorCode, not_found, conflict, stale_version,
  idempotency_conflict, evidence_not_registered, evidence_policy_violation, publication_locked,
  editorial_lock, audit_failure, persistence_failure, zod_error, repository_concurrency_error,
  repository_idempotency_conflict_error, repository_persistence_error, no_details, versions,
  evidence_id, locked_draft, audit, validation_error, ◌>>=◌, ◌>>◌, require, forbid, Operation,
}
use mayday_dispatch.Gateway.Authorization.{Actor, has_role, external_application, forbidden_error}
use mayday_dispatch.Gateway.Dto.{CreateDraftRequest, Response, is_valid_response, parsed_response}
use mayday_dispatch.Audit.{AuditEvent, AuditActor, succeeded}
use mayday_dispatch.Evidence.{RegisteredEvidence, ProcessingStatus, same_status}
use mayday_dispatch.Repository.{Repository, SaveOptions, find_by_id, find_by_slug}
use mayday_dispatch.Repository.Save.{save, Step, then_do}

pub record RequestContext : Type 0 where
  pub correlation_id : String
  pub request_id : String
  pub idempotency_key : Option String

-- What the gateway is built with, and what the platform's hashes are.
pub record Gateway : Type 0 where
  pub formats : Formats
  -- `getRegisteredEvidence` of the evidence registry
  pub registered : String → Option RegisteredEvidence
  pub editorial_base_url : String
  pub public_base_url : String
  -- SHA-256 of the JSON text
  pub digest : PublicPublication → String
  pub request_hash : CreateDraftRequest → String

-- What one request takes from `idFactory` and from the clock: the ids of a publication and of an
-- audit event, and the times of its first and its second reading, as ISO texts.
pub record Supply : Type 0 where
  pub publication_id : String
  pub audit_id : String
  pub now : String
  pub then_now : String

-- A text that is there and not empty
abbrev pub truthy : Option String → Option String
truthy none = none
truthy (some s) = if s == "" then none else some s

-- `actorIsExternalApplication`
abbrev pub is_external : Option Actor → Bool
is_external none = false
is_external (some a) = has_role external_application a

-- `actor?.originatingApplication`
abbrev pub application_of : Option Actor → Option String
application_of none = none
application_of (some a) = a.originating_application

-- `actor?.originatingApplication === name`
abbrev pub is_application : Option Actor → String → Bool
is_application actor name = same_text? (application_of actor) (some name)

-- `cloneForRevision`
unfoldable pub clone_for_revision : Publication → (now summary : String) → RevisionType → Revision
clone_for_revision p now summary revision_type = record {
  version = p.revision.version + 1;
  updated_at = now;
  summary = summary;
  previous_version = some p.revision.version;
  revision_type = revision_type;
}

-- `hasFilesystemLocator`
unfoldable pub has_filesystem_locator : Option String → Bool
unfolding drive_at
has_filesystem_locator none = false
has_filesystem_locator (some s) =
    drive_at (codes s) || any (eqb 92) (codes s) || any (eqb b'/') (codes s)

-- `assertMayday3EvidenceOnly`
unfoldable pub assert_mayday3_evidence_only : Option Actor → Result (Unit {0})
assert_mayday3_evidence_only actor = forbid (is_application actor "mayday3") forbidden_error

-- `assertExpectedVersion`
unfoldable pub assert_expected_version : ℕ → Publication → Result (Unit {0})
assert_expected_version expected p =
    require (eqb expected p.revision.version)
      (gateway_error stale_version (versions expected (some p.revision.version)))

-- `assertExternalSynchronizationIsUnlocked`
unfoldable pub assert_unlocked_draft : Publication → Option Actor → Result (Unit {0})
assert_unlocked_draft p actor =
    forbid (is_external actor && not (same_state p.lifecycle_state draft))
      (gateway_error editorial_lock (locked_draft p.id p.revision.version p.lifecycle_state))

-- `publication && publication.id !== currentId`
abbrev pub is_other : Option Publication → Option String → Bool
is_other none current = false
is_other (some p) current = not (same_text? (some p.id) current)

-- `assertSlugAvailable`
unfoldable pub assert_slug_available : String → Option String → Repository → Result (Unit {0})
unfolding find_by_slug
assert_slug_available slug current r =
    forbid (is_other (find_by_slug slug r) current) (gateway_error conflict no_details)

abbrev pub found : Option Publication → Result Publication
found none = err (gateway_error not_found no_details)
found (some p) = ok p

-- `requirePublication`
unfoldable pub require_publication : String → Repository → Result Publication
unfolding find_by_id
require_publication id r = found (find_by_id id r)

-- `validatePublication`
unfoldable pub validate_publication : Formats → Publication → Result Publication
validate_publication f p =
    if is_valid_publication f p then ok (parsed_publication p) else err validation_error

-- `assertPublicReleaseUnlocked`
unfoldable pub assert_public_release_unlocked : Repository → Result (Unit {0})
assert_public_release_unlocked r =
    forbid r.lockdown.enabled (gateway_error publication_locked no_details)

-- `assertEvidencePolicy`
unfoldable pub assert_evidence_policy :
    List EvidenceReference → Option Actor → Publication → Result (Unit {0})
assert_evidence_policy evidence actor p = do
  forbid (any (λ e. has_filesystem_locator e.locator) evidence)
      (gateway_error evidence_policy_violation no_details)
  forbid
      (is_external actor && not (is_application actor p.provenance.origin.originating_application))
      forbidden_error

reference_status : ProcessingStatus → ReferenceStatus
reference_status ProcessingStatus.registered = ReferenceStatus.registered
reference_status ProcessingStatus.processing = ReferenceStatus.processing
reference_status ProcessingStatus.ready = ReferenceStatus.ready
reference_status ProcessingStatus.failed = ReferenceStatus.rejected
reference_status ProcessingStatus.rejected = ReferenceStatus.rejected
reference_status ProcessingStatus.superseded = ReferenceStatus.rejected

-- `toEvidenceReference`
unfoldable pub to_evidence_reference : RegisteredEvidence → EvidenceReference
unfolding reference_status
to_evidence_reference e = record {
  id = e.id;
  title = e.title;
  description = e.description;
  url = e.public_url;
  locator = e.locator;
  visibility = e.visibility;
  media_type = some e.media_type;
  source = some e.source;
  evidence_provenance = some e.provenance;
  checksum = some e.checksum;
  processor = e.processor;
  status = some (reference_status e.status);
  evidence_version = some e.version;
  has_checksum_algorithm = true;
  acquisition_at = e.acquisition_at;
  processed_at = e.processed_at;
  parent_evidence_id = e.parent_evidence_id;
  derivation_type = e.derivation_type;
  citation = e.citation;
}

-- The body of the loop of `resolveEvidence`.
unfoldable pub resolve_one :
    Option RegisteredEvidence → String → Option Actor → Result RegisteredEvidence
resolve_one none id actor = err (gateway_error evidence_not_registered (evidence_id id))
resolve_one (some e) id actor = do
  require (same_status e.status ProcessingStatus.ready)
      (gateway_error evidence_not_registered (evidence_id id))
  forbid (is_external actor && not (is_disclosed e.visibility))
      (gateway_error evidence_policy_violation no_details)
  ok e

-- `resolveEvidence`
unfoldable pub resolve_evidence :
    (String → Option RegisteredEvidence)
    → List String
    → Option Actor
    → Result (List RegisteredEvidence)
resolve_evidence registered [] actor = ok []
resolve_evidence registered (id ∷ ids) actor = do
  e ← resolve_one (registered id) id actor
  rest ← resolve_evidence registered ids actor
  ok (e ∷ rest)

audit_actor : Option Actor → AuditActor
audit_actor none = record { subject_id = "unknown"; roles = []; application = none }
audit_actor (some a) = record {
  subject_id = a.subject_id;
  roles = a.roles;
  application = a.originating_application;
}

-- `auditEvent`
unfoldable pub audit_event :
    (id action : String)
    → Publication
    → Option Actor
    → RequestContext
    → Option ℕ
    → RevisionType
    → AuditEvent
unfolding audit_actor
audit_event id action p actor context previous revision_type = record {
  id = id;
  timestamp = p.revision.updated_at;
  actor = audit_actor actor;
  action = action;
  publication_id = some p.id;
  correlation_id = context.correlation_id;
  request_id = context.request_id;
  previous_version = previous;
  resulting_version = some p.revision.version;
  outcome = succeeded;
  reason = none;
  error_code = none;
  revision_type = some revision_type;
}

-- `actorScope`
unfoldable pub actor_scope : Option Actor → String
actor_scope none = "-:anonymous"
actor_scope (some a) = join (or_else a.originating_application "-") (join ":" a.subject_id)

-- `response`
unfoldable pub response : Gateway → Publication → RequestContext → Result Response
response g p context =
    let r : Response = record {
      publication = p;
      publication_id = p.id;
      version = p.revision.version;
      editorial_url = join g.editorial_base_url (join "/" p.id);
      public_url =
          if is_visibility_public p.visibility && is_public_state p.lifecycle_state
          then some (join g.public_base_url (join "/" p.slug))
          else none;
      origin = p.provenance.origin;
      last_synchronized_at = p.revision.updated_at;
      correlation_id = context.correlation_id;
    } in
    if is_valid_response g.formats r then ok (parsed_response r) else err zod_error

-- What an operation decides to do.
pub data Plan : Type 0 where
  replay : Publication → Plan
  write : Publication → SaveOptions → Plan

persistence_code : Operation → ErrorCode
persistence_code audit = audit_failure
persistence_code _ = persistence_failure

-- The `catch` of `persist`.
unfoldable pub translate : Failure → Failure
unfolding persistence_code
translate (repository_concurrency_error expected actual) =
    gateway_error stale_version (versions expected actual)
translate repository_idempotency_conflict_error = gateway_error idempotency_conflict no_details
translate (repository_persistence_error operation) =
    gateway_error (persistence_code operation) no_details
translate e = e

abbrev pub translated : Result Publication × Repository → Result Publication × Repository
translated (ok p, r) = (ok p, r)
translated (err e, r) = (err (translate e), r)

-- `persist`
unfoldable pub persist : Gateway → Publication → SaveOptions → Step Publication
unfolding translate
persist g p o r = translated (save g.formats g.digest p o r)

-- The end of each operation that writes.
unfoldable pub perform : Gateway → RequestContext → Result Plan → Step Response
unfolding persist response
perform g context (err e) r = (err e, r)
perform g context (ok (replay p)) r = (response g p context, r)
perform g context (ok (write p o)) r =
    then_do (persist g p o) (λ saved r'. (response g saved context, r')) r

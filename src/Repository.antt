-- ===== src/Repository.antt =====
-- src/publications/repository.ts: the publication repository in memory. A `Map` is a list in the
-- order of insertion; what its methods return are copies, so values stand for them.
use mayday_dispatch.Prelude.{
  ℕ, zero, suc, ◌+◌, ◌-◌, ◌≤◌, ◌<◌, ◌≡◌, refl, sym, ap, ◌∙◌, subst, ◌≢◌, ◌↔◌, ◌⊎◌, inl, inr, Bool,
  true, false, not, ◌&&◌, ◌||◌, Option, none, some, [], ◌∷◌, ◌++◌, map, Memᴰ, arith, ◌==◌, eq_iff,
  ltb, leb, eqb, if◌then◌else◌, Bool-cases, &&-eq-true, ||-eq-true, not-eq-true, eqb→eq, eqb_refl,
  ne→eqb, eq_text, ne_text, Option-cases, is_some, or_else, or_option, optionally, same_text?,
  length, any, all, keep, find, is_empty, includes, All, All-mem, all-any, find-true, eq_refl,
  String, List,
}
pub mod Save
pub mod Snapshots
pub mod Control
pub mod Sqlite
use mayday_dispatch.Prelude.Text.{join}
use mayday_dispatch.Domain.Patterns.{Formats, is_upper_code}
use mayday_dispatch.Domain.Lifecycle.{LifecycleState, is_public_state, same_state}
use mayday_dispatch.Domain.Publication.{
  Origin, Publication, is_valid_publication, parsed_publication,
}
use mayday_dispatch.Domain.Public.{PublicPublication, is_valid_public, parsed_public}
use mayday_dispatch.Gateway.Errors.{
  Result, ok, err, Failure, zod_error, repository_concurrency_error,
  repository_idempotency_conflict_error, repository_persistence_error, release_manifest_integrity,
  release_manifest_validation, ◌>>=◌, ◌>>◌, require, forbid,
}
use mayday_dispatch.Gateway.Authorization.{Role, Actor}
use mayday_dispatch.Audit.{AuditEvent, is_valid_audit_event}
use mayday_dispatch.Evidence.{RegisteredEvidence}

pub record IdempotencyKey : Type 0 where
  pub actor_scope : String
  pub key : String
  pub request_hash : String
  pub created_at : String

pub record IdempotencyRecord : Type 0 where
  pub entry : IdempotencyKey
  pub open entry use *
  pub publication_id : String
  pub resulting_version : ℕ
  pub response : Publication

pub record ReleaseManifest : Type 0 where
  pub release_operation_id : String
  pub publication_id : String
  pub publication_version : ℕ
  pub released_at : String
  pub publisher_subject_id : String
  pub public_content_digest : String
  -- `evidenceValidation`
  pub passed : Bool
  pub finding_codes : List String
  pub audit_correlation_id : String
  pub public_status : LifecycleState
  pub public_snapshot : PublicPublication

pub record SaveOptions : Type 0 where
  pub expected_version : ℕ
  pub audit_event : AuditEvent
  pub release_manifest : Option ReleaseManifest
  pub registered_evidence : List RegisteredEvidence
  pub idempotency : Option IdempotencyKey

pub record Lockdown : Type 0 where
  pub enabled : Bool
  pub version : ℕ
  pub changed_at : String
  pub changed_by_subject : String

pub record OperationalAuditEvent : Type 0 where
  pub id : String
  pub timestamp : String
  pub actor_subject : String
  pub actor_roles : List Role
  pub actor_application : Option String
  pub activated : Bool  -- `action`
  pub resulting_version : ℕ
  pub correlation_id : String
  pub request_id : String

pub record Repository : Type 0 where
  pub publications : List Publication
  -- by storage key
  pub idempotency : List (String × IdempotencyRecord)
  pub audit_events : List AuditEvent
  pub operational_audit_events : List OperationalAuditEvent
  pub release_manifests : List ReleaseManifest
  pub lockdown : Lockdown

abbrev pub empty : Repository
empty = record {
  publications = [];
  idempotency = [];
  audit_events = [];
  operational_audit_events = [];
  release_manifests = [];
  lockdown = record {
    enabled = false;
    version = 0;
    changed_at = "1970-01-01T00:00:00.000Z";
    changed_by_subject = "system-bootstrap";
  };
}

-- `publications.get(id)`
unfoldable pub get_publication : String → List Publication → Option Publication
get_publication id [] = none
get_publication id (p ∷ ps) = if p.id == id then some p else get_publication id ps

-- `publications.set(p.id, p)`: an id that is there keeps its place.
unfoldable pub set_publication : Publication → List Publication → List Publication
set_publication p [] = p ∷ []
set_publication p (q ∷ qs) = if q.id == p.id then p ∷ qs else q ∷ set_publication p qs

unfoldable pub find_by_id : String → Repository → Option Publication
unfolding get_publication
find_by_id id r = get_publication id r.publications

unfoldable pub find_by_slug : String → Repository → Option Publication
find_by_slug slug r = find (λ p. p.slug == slug) r.publications

-- `originMatches`
unfoldable pub origin_matches : Origin → Publication → Bool
origin_matches o p =
    let candidate = p.provenance.origin in
    candidate.originating_application == o.originating_application
    && candidate.originating_project == o.originating_project
    && candidate.stable_object_id == o.stable_object_id

unfoldable pub find_by_origin_identity : Origin → Repository → Option Publication
unfolding origin_matches
find_by_origin_identity o r = find (origin_matches o) r.publications

unfoldable pub storage_key : String → String → String
storage_key scope key = join scope (join ":" key)

unfoldable pub get_record : String → List (String × IdempotencyRecord) → Option IdempotencyRecord
get_record k [] = none
get_record k (entry ∷ m) = if entry.0 == k then some entry.1 else get_record k m

unfoldable pub set_record :
    String
    → IdempotencyRecord
    → List (String × IdempotencyRecord)
    → List (String × IdempotencyRecord)
set_record k v [] = (k, v) ∷ []
set_record k v (entry ∷ m) = if entry.0 == k then (k, v) ∷ m else entry ∷ set_record k v m

unfoldable pub find_idempotency : String → String → Repository → Option IdempotencyRecord
unfolding get_record storage_key
find_idempotency scope key r = get_record (storage_key scope key) r.idempotency

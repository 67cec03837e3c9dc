-- ===== src/Repository/Sqlite/Released.antt =====
-- src/publications/repository.ts: the lockdown, the public snapshots and the histories of
-- `SqlitePublicationRepository`.
use mayday_dispatch.Prelude.{
  ◌+◌, String, Bool, true, false, not, ◌&&◌, ◌||◌, Option, none, some, List, [], ◌∷◌, ◌++◌, ◌==◌,
  eqb, leb, any, all, keep, find, if◌then◌else◌,
}
use mayday_dispatch.Prelude.Order.{leb_text}
use mayday_dispatch.Prelude.Sort.{sort}
use mayday_dispatch.Domain.Patterns.{Formats, is_upper_code}
use mayday_dispatch.Domain.Lifecycle.{is_public_state, same_state, published}
use mayday_dispatch.Domain.Publication.{is_valid_publication, parsed_publication}
use mayday_dispatch.Domain.Public.{PublicPublication}
use mayday_dispatch.Gateway.Errors.{
  Result, ok, zod_error, repository_persistence_error, control_writing,
  release_manifest_audit_integrity, ◌>>=◌, ◌>>◌, require, forbid,
}
use mayday_dispatch.Gateway.Authorization.{Actor}
use mayday_dispatch.Audit.{AuditEvent, succeeded}
use mayday_dispatch.Repository.{IdempotencyRecord, ReleaseManifest, Lockdown, OperationalAuditEvent}
use mayday_dispatch.Repository.Save.{validate_public_snapshot, has_version}
use mayday_dispatch.Repository.Control.{same_flag}
use mayday_dispatch.Repository.Sqlite.{
  Database, RevisionRow, LifecycleRow, find_publication, find_key,
}

-- `setPublicationLockdown`: the id of the event, the platform's `randomUUID`, is a key of its table.
unfoldable pub set_lockdown_row :
    (event_id : String)
    → Bool
    → Actor
    → (correlation_id request_id timestamp : String) → Database
    → Result (Lockdown × Database)
set_lockdown_row event_id enabled actor correlation_id request_id timestamp db =
    if same_flag db.lockdown.enabled enabled
    then ok (db.lockdown, db)
    else let lockdown : Lockdown = record {
      enabled = enabled;
      version = db.lockdown.version + 1;
      changed_at = timestamp;
      changed_by_subject = actor.subject_id;
    } in
      do
        forbid (any (λ (e : OperationalAuditEvent). e.id == event_id) db.operational_audit_events)
            (repository_persistence_error control_writing)
        ok (
          lockdown,
          record db {
            lockdown = lockdown;
            operational_audit_events =
                db.operational_audit_events
                ++ record {
                  id = event_id;
                  timestamp = timestamp;
                  actor_subject = actor.subject_id;
                  actor_roles = actor.roles;
                  actor_application = actor.originating_application;
                  activated = enabled;
                  resulting_version = lockdown.version;
                  correlation_id = correlation_id;
                  request_id = request_id;
                }
                  ∷ [];
          },
        )

-- `LEFT JOIN audit_events ON id = release_operation_id`
unfoldable pub find_audit : String → List AuditEvent → Option AuditEvent
find_audit id [] = none
find_audit id (e ∷ es) = if e.id == id then some e else find_audit id es

abbrev pub is_succeeded : AuditEvent → Bool
is_succeeded e = elim e.outcome [ succeeded ↦ true | _ ↦ false ]

-- `publicStatus === "published" ? … : …`
abbrev pub release_action : ReleaseManifest → String
release_action m =
    if same_state m.public_status published
    then "publication.release"
    else "publication.release.update"

abbrev pub names_publication : Option String → String → Bool
names_publication none id = false
names_publication (some other) id = other == id

-- The long condition of `readPersistedReleaseManifest`, negated.
unfoldable pub audit_agrees : ReleaseManifest → Option AuditEvent → PublicPublication → Bool
audit_agrees m none snapshot = false
audit_agrees m (some e) snapshot =
    e.action == release_action m
    && e.actor.subject_id == m.publisher_subject_id
    && m.audit_correlation_id == e.correlation_id
    && names_publication e.publication_id m.publication_id
    && has_version m.publication_version e.resulting_version
    && is_succeeded e
    && snapshot.id == m.publication_id
    && eqb snapshot.revision.version m.publication_version
    && same_state snapshot.lifecycle_state m.public_status

-- `ReleaseEvidenceValidationSchema` asks for a pass.
module _ (f : Formats) (digest : PublicPublication → String) where
  -- `readPersistedReleaseManifest`
  unfoldable pub read_manifest : Database → ReleaseManifest → Result ReleaseManifest
  unfolding validate_public_snapshot audit_agrees find_audit
  read_manifest db m = do
    require (m.passed && all is_upper_code m.finding_codes) zod_error
    require (is_public_state m.public_status) zod_error
    snapshot ← validate_public_snapshot f digest m.public_snapshot m.public_content_digest
    require (audit_agrees m (find_audit m.release_operation_id db.audit_events) snapshot)
        (repository_persistence_error release_manifest_audit_integrity)
    ok (record m { public_snapshot = snapshot })

  unfoldable pub read_manifests : Database → List ReleaseManifest → Result (List ReleaseManifest)
  unfolding read_manifest
  read_manifests db [] = ok []
  read_manifests db (m ∷ ms) = do
    first ← read_manifest db m
    rest ← read_manifests db ms
    ok (first ∷ rest)

-- `publication_version = (SELECT MAX(…) …)`
unfoldable pub is_latest : List ReleaseManifest → ReleaseManifest → Bool
is_latest ms m =
    all
      (λ (x : ReleaseManifest).
        not (x.publication_id == m.publication_id)
        || leb x.publication_version m.publication_version)
      ms

-- The join with the publications that are public now.
unfoldable pub is_released_row : Database → ReleaseManifest → Bool
unfolding find_publication
is_released_row db m = elim (find_publication m.publication_id db.publications) [
  | none ↦ false
  | some r ↦ is_public_state r.lifecycle_state
]

-- `ORDER BY released_at DESC, publication_id`
unfoldable pub before_manifest : ReleaseManifest → ReleaseManifest → Bool
unfolding leb_text
before_manifest a b =
    not (leb_text a.released_at b.released_at)
    || (a.released_at == b.released_at && leb_text a.publication_id b.publication_id)

-- `ORDER BY publication_version`
abbrev pub before_version : ReleaseManifest → ReleaseManifest → Bool
before_version a b = leb a.publication_version b.publication_version

unfoldable pub snapshots_in : List ReleaseManifest → List PublicPublication
snapshots_in [] = []
snapshots_in (m ∷ ms) = m.public_snapshot ∷ snapshots_in ms

module _ (f : Formats) (digest : PublicPublication → String) where
  -- `listPublicSnapshots`
  unfoldable pub list_snapshot_rows : Database → Result (List PublicPublication)
  unfolding read_manifests is_latest is_released_row before_manifest snapshots_in sort
  list_snapshot_rows db = do
    manifests ← read_manifests f digest db (
        sort before_manifest (
          keep (λ m. is_released_row db m && is_latest db.release_manifests m)
            db.release_manifests))
    ok (snapshots_in manifests)

  -- `getPublicSnapshotBySlug`
  unfoldable pub get_snapshot_row : String → Database → Result (Option PublicPublication)
  unfolding list_snapshot_rows
  get_snapshot_row slug db = do
    snapshots ← list_snapshot_rows db
    ok (find (λ (p : PublicPublication). p.slug == slug) snapshots)

  -- `listReleaseManifests`
  unfoldable pub list_release_manifests : String → Database → Result (List ReleaseManifest)
  unfolding read_manifests sort
  list_release_manifests id db = read_manifests f digest db (
      sort before_version
        (keep (λ (m : ReleaseManifest). m.publication_id == id) db.release_manifests))

-- `findIdempotency`, whose answer is parsed again
unfoldable pub find_idempotency_row :
    Formats → String → String → Database → Result (Option IdempotencyRecord)
unfolding find_key
find_idempotency_row f scope key db = elim (find_key scope key db.idempotency_keys) [
  | none ↦ ok none
  | some k ↦ do
    require (is_valid_publication f k.response) zod_error
    ok (some (record k { response = parsed_publication k.response }))
]

abbrev pub before_revision : RevisionRow → RevisionRow → Bool
before_revision a b = leb a.revision.version b.revision.version

-- `listRevisionHistory`
unfoldable pub list_revision_history : String → Database → List RevisionRow
unfolding sort
list_revision_history id db =
    sort before_revision (keep (λ (r : RevisionRow). r.publication_id == id) db.revisions)

abbrev pub before_state : LifecycleRow → LifecycleRow → Bool
before_state a b = leb a.version b.version

-- `listLifecycleHistory`
unfoldable pub list_lifecycle_history : String → Database → List LifecycleRow
unfolding sort
list_lifecycle_history id db =
    sort before_state (keep (λ (r : LifecycleRow). r.publication_id == id) db.lifecycle_history)

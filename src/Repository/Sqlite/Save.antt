-- ===== src/Repository/Sqlite/Save.antt =====
-- src/publications/repository.ts: `save` of `SqlitePublicationRepository`. The body of the
-- transaction returns new tables or throws; then the tables are rolled back, so what it throws
-- comes with no tables.
use mathlib.Core.Option
pub mod Steps
use mayday_dispatch.Prelude.{
  ℕ, suc, ◌+◌, String, Bool, true, false, not, ◌&&◌, ◌||◌, Option, none, some, List, [], ◌∷◌, ◌++◌,
  ◌==◌, eqb, leb, any, all, keep, if◌then◌else◌, is_some, includes, map, eqb, zero, ◌-◌, ◌≤◌, ◌<◌,
  ◌≡◌, refl, sym, ap, ◌∙◌, subst, ◌≢◌, ◌↔◌, ◌⊎◌, inl, inr, Memᴰ, arith, eq_iff, ltb, Bool-cases,
  &&-eq-true, ||-eq-true, not-eq-true, eqb→eq, eqb_refl, ne→eqb, eq_text, ne_text, Option-cases,
  or_else, or_option, optionally, same_text?, length, find, is_empty, All, All-mem, all-any,
  find-true, eq_refl,
}
use mayday_dispatch.Domain.Patterns.{Formats}
use mayday_dispatch.Domain.Lifecycle.{LifecycleState, is_public_state, same_state}
use mayday_dispatch.Domain.Citation.{Citation, EvidenceReference}
use mayday_dispatch.Domain.Publication.{Publication, is_valid_publication, parsed_publication}
use mayday_dispatch.Domain.Public.{PublicPublication}
use mayday_dispatch.Gateway.Errors.{
  Result, ok, err, Failure, zod_error, plain_error, repository_concurrency_error,
  repository_idempotency_conflict_error, repository_persistence_error, audit, publication_saving,
  unregistered_association, ◌>>=◌, ◌>>◌, require, forbid,
}
use mayday_dispatch.Audit.{AuditEvent, is_valid_audit_event}
use mayday_dispatch.Evidence.{RegisteredEvidence}
use mayday_dispatch.Repository.{IdempotencyKey, IdempotencyRecord, ReleaseManifest, SaveOptions}
use mayday_dispatch.Repository.Save.{is_current, check_manifest, conflicts}
use mayday_dispatch.Repository.Sqlite.{
  Database, PublicationRow, OriginRow, RevisionRow, CitationRow, CitationLink, EvidenceRow,
  EvidenceLink, LifecycleRow, row_of, origin_row, find_publication, find_origin, find_revision,
  find_citation, find_evidence, find_key, update_publication_row, update_origin_row, same_origin,
}
use mayday_dispatch.Prelude.Text.{codes}
use mayday_dispatch.Repository.Sqlite.Rows.{write_publication_rows, write_relations}

-- `writeRevision`
unfoldable pub write_revision : Publication → AuditEvent → Database → Result Database
unfolding find_revision
write_revision p e db = do
  forbid (is_some (find_revision p.id p.revision.version db.revisions)) plain_error
  ok (record db {
    revisions =
        db.revisions
        ++ record {
          publication_id = p.id;
          revision = p.revision;
          snapshot = p;
          actor_subject = e.actor.subject_id;
          actor_application = e.actor.application;
          lifecycle_state = p.lifecycle_state;
        }
          ∷ [];
  })

-- `!current || current.lifecycle_state !== parsed.lifecycleState`
unfoldable pub changes_state : Option PublicationRow → Publication → Bool
changes_state none p = true
changes_state (some r) p = not (same_state r.lifecycle_state p.lifecycle_state)

unfoldable pub write_lifecycle : Option PublicationRow → Publication → Database → Database
unfolding changes_state
write_lifecycle current p db =
    if changes_state current p
    then record db {
      lifecycle_history =
          db.lifecycle_history
          ++ record {
            publication_id = p.id;
            from_state = Option.map (λ (r : PublicationRow). r.lifecycle_state) current;
            to_state = p.lifecycle_state;
            version = p.revision.version;
            changed_at = p.revision.updated_at;
          }
            ∷ [];
    }
    else db

-- `writeAudit`
unfoldable pub write_audit : AuditEvent → Database → Result Database
write_audit e db = do
  forbid (any (λ (x : AuditEvent). x.id == e.id) db.audit_events)
      (repository_persistence_error audit)
  ok (record db { audit_events = db.audit_events ++ e ∷ [] })

-- The constraints of `publication_release_manifests`: two keys, and the checks of three columns.
unfoldable pub write_manifest : Option ReleaseManifest → Database → Result Database
write_manifest none db = ok db
write_manifest (some m) db = do
  forbid
      (any
        (λ (x : ReleaseManifest).
          x.release_operation_id == m.release_operation_id
          || (x.publication_id == m.publication_id
              && eqb x.publication_version m.publication_version))
        db.release_manifests)
      plain_error
  require
      (leb 1 m.publication_version
        && eqb (length (codes m.public_content_digest)) 64
        && is_public_state m.public_status)
      plain_error
  ok (record db { release_manifests = db.release_manifests ++ m ∷ [] })

unfoldable pub write_key : Publication → Option IdempotencyKey → Database → Result Database
unfolding find_key
write_key p none db = ok db
write_key p (some k) db = do
  forbid (is_some (find_key k.actor_scope k.key db.idempotency_keys)) plain_error
  ok (record db {
    idempotency_keys =
        db.idempotency_keys
        ++ record {
          entry = k;
          publication_id = p.id;
          resulting_version = p.revision.version;
          response = p;
        }
          ∷ [];
  })

-- The check of a key before anything is written.
unfoldable pub check_key : Option IdempotencyKey → Database → Result (Unit {0})
unfolding find_key conflicts
check_key none db = ok tt
check_key (some k) db =
    forbid (conflicts (find_key k.actor_scope k.key db.idempotency_keys) k)
      repository_idempotency_conflict_error

unfoldable pub check_registered : List RegisteredEvidence → Database → Result (Unit {0})
unfolding find_evidence
check_registered es db =
    require (all (λ (e : RegisteredEvidence). is_some (find_evidence e.id db.evidence)) es)
      (repository_persistence_error unregistered_association)

unfoldable pub row_version : String → Database → Option ℕ
unfolding find_publication
row_version id db =
    Option.map (λ (r : PublicationRow). r.current_version) (find_publication id db.publications)

-- The writes, in their order.
unfoldable pub write_all : Publication → SaveOptions → Database → Result Database
unfolding write_publication_rows write_relations write_revision write_lifecycle write_audit
    write_manifest write_key find_publication
write_all p o db = do
  let current = find_publication p.id db.publications
  db1 ← write_publication_rows p (not (is_some current)) db
  db2 ← write_relations p db1
  db3 ← write_revision p o.audit_event db2
  db4 ← write_audit o.audit_event (write_lifecycle current p db3)
  db5 ← write_manifest o.release_manifest db4
  write_key p o.idempotency db5

-- The body of the transaction.
unfoldable pub save_transaction : Publication → SaveOptions → Database → Result Database
unfolding row_version check_key check_registered write_all
save_transaction p o db = do
  require (is_current o.expected_version (row_version p.id db))
      (repository_concurrency_error o.expected_version (row_version p.id db))
  check_key o.idempotency db
  check_registered o.registered_evidence db
  write_all p o db

-- What the `catch` of `save` throws on.
unfoldable pub save_failure : Failure → Failure
save_failure (repository_concurrency_error expected actual) =
    repository_concurrency_error expected actual
save_failure repository_idempotency_conflict_error = repository_idempotency_conflict_error
save_failure (repository_persistence_error operation) = repository_persistence_error operation
save_failure _ = repository_persistence_error publication_saving

-- `catch (error) { throw f(error) }`
abbrev pub catching : {A : Type 0} → (Failure → Failure) → Result A → Result A
catching f (ok a) = ok a
catching f (err e) = err (f e)

module _ (f : Formats) (digest : PublicPublication → String) where
  -- `save`: what it returns, and the tables after it.
  unfoldable pub save_rows : Publication → SaveOptions → Database → Result (Publication × Database)
  unfolding save_transaction check_manifest save_failure
  save_rows p o db = do
    let parsed = parsed_publication p
    require (is_valid_publication f p) zod_error
    require (is_valid_audit_event f o.audit_event) zod_error
    check_manifest f digest parsed o.audit_event o.release_manifest
    db' ← catching save_failure (save_transaction parsed o db)
    ok (parsed, db')

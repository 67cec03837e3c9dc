-- ===== src/Repository/Sqlite/Public.antt =====
-- What the public reads of `SqlitePublicationRepository` in src/publications/repository.ts may show,
-- and its lockdown against that of the repository in memory.
use mayday_dispatch.Prelude.{
  ◌+◌, String, ◌≡◌, sym, ap, ◌∙◌, subst, inl, inr, Bool, true, ◌&&◌, [], ◌∷◌, ◌++◌, ◌==◌,
  Bool-cases, any,
}
use mayday_dispatch.Domain.Patterns.{Formats}
use mayday_dispatch.Domain.Public.{PublicPublication}
use mayday_dispatch.Gateway.Errors.{
  ok, forbid-eq-ok, ok-injective, repository_persistence_error, control_writing,
}
use mayday_dispatch.Gateway.Authorization.{Actor}
use mayday_dispatch.Repository.{ReleaseManifest, Repository, Lockdown, OperationalAuditEvent}
use mayday_dispatch.Repository.Save.{validate_public_snapshot}
use mayday_dispatch.Repository.Control.{same_flag, set_publication_lockdown}
use mayday_dispatch.Repository.Sqlite.{Database}
use mayday_dispatch.Repository.Sqlite.Save.Steps.{core}
use mayday_dispatch.Repository.Sqlite.Represents.{Represents}
use mayday_dispatch.Repository.Sqlite.Released.{
  set_lockdown_row, is_latest, is_released_row, audit_agrees, find_audit,
}

-- What stands behind a snapshot that is shown.
pub record Released (f : Formats) (digest : PublicPublication → String) (db : Database)
    (s : PublicPublication) : Type 0 where
  pub manifest : ReleaseManifest
  pub in_public_state : is_released_row db manifest ≡ true
  pub latest : is_latest db.release_manifests manifest ≡ true
  pub intact :
      validate_public_snapshot f digest manifest.public_snapshot manifest.public_content_digest
      ≡ ok s
  pub audited :
      audit_agrees manifest (find_audit manifest.release_operation_id db.audit_events) s ≡ true

module _ (f : Formats) (digest : PublicPublication → String) (db : Database) where
  abbrev IsShown : ReleaseManifest → Type 0
  IsShown m = (is_released_row db m && is_latest db.release_manifests m) ≡ true

module _ (id : String) (enabled : Bool) (actor : Actor) (correlation request at : String) where
  abbrev changed_to : Lockdown → Lockdown
  changed_to k = record {
    enabled = enabled;
    version = k.version + 1;
    changed_at = at;
    changed_by_subject = actor.subject_id;
  }

  abbrev recorded : Lockdown → OperationalAuditEvent
  recorded k = record {
    id = id;
    timestamp = at;
    actor_subject = actor.subject_id;
    actor_roles = actor.roles;
    actor_application = actor.originating_application;
    activated = enabled;
    resulting_version = k.version + 1;
    correlation_id = correlation;
    request_id = request;
  }

  changed-Represents :
      (db : Database) (r : Repository)
      → Represents (core db) r
      → Represents
          (core (record db {
            lockdown = changed_to db.lockdown;
            operational_audit_events = db.operational_audit_events ++ recorded db.lockdown ∷ [];
          }))
          (record r {
            lockdown = changed_to r.lockdown;
            operational_audit_events = r.operational_audit_events ++ recorded r.lockdown ∷ [];
          })
  changed-Represents db r represents = record {
    publications = represents.publications;
    origins = represents.origins;
    revisions = represents.revisions;
    keys = represents.keys;
    audit_events = represents.audit_events;
    operational_audit_events =
        ap (λ es. es ++ recorded db.lockdown ∷ []) represents.operational_audit_events
        ∙ ap (λ k. r.operational_audit_events ++ recorded k ∷ []) represents.lockdown;
    release_manifests = represents.release_manifests;
    lockdown = ap changed_to represents.lockdown;
  }

-- A change of the lockdown that the database commits is the one that the repository in memory makes,
-- and the tables stand for that repository again.
pub set_lockdown_row-refines :
    (id : String) (enabled : Bool) (actor : Actor) (correlation request at : String)
    (db db' : Database) (r : Repository) (l : Lockdown)
    → Represents (core db) r
    → set_lockdown_row id enabled actor correlation request at db ≡ ok (l, db')
    → let after = set_publication_lockdown id enabled actor correlation request at r in
      (after.0 ≡ l) × Represents (core db') after.1
unfolding set_lockdown_row set_publication_lockdown
set_lockdown_row-refines id enabled actor correlation request at db db' r l represents h =
    let flag : same_flag db.lockdown.enabled enabled ≡ same_flag r.lockdown.enabled enabled =
      ap (λ (k : Lockdown). same_flag k.enabled enabled) represents.lockdown in
    elim (Bool-cases (same_flag db.lockdown.enabled enabled)) [
      | inl e ↦
          let kept = ok-injective (rw (set_lockdown_row, e) at h) in
          rw (set_publication_lockdown, sym flag ∙ e)
            (
              sym represents.lockdown ∙ ap (λ (t : Lockdown × Database). t.0) kept,
              subst (λ (t : Lockdown × Database). Represents (core t.1) r) kept represents,
            )
      | inr e ↦
          let (_, h1) =
            forbid-eq-ok
              (any (λ (x : OperationalAuditEvent). x.id == id) db.operational_audit_events)
              (repository_persistence_error control_writing) _ (rw (set_lockdown_row, e) at h) in
          let done = ok-injective h1 in
          rw (set_publication_lockdown, sym flag ∙ e)
            (
              ap (changed_to id enabled actor correlation request at) (sym represents.lockdown)
                  ∙ ap (λ (t : Lockdown × Database). t.0) done,
              subst
                  (λ (t : Lockdown × Database). Represents (core t.1) (record r {
                    lockdown = changed_to id enabled actor correlation request at r.lockdown;
                    operational_audit_events =
                        r.operational_audit_events
                        ++ recorded id enabled actor correlation request at r.lockdown ∷ [];
                  }))
                  done (changed-Represents id enabled actor correlation request at db r represents),
            )
    ]

-- ===== src/Repository/Save.antt =====
-- src/publications/repository.ts: `save` of the repository in memory, with its checks.
pub mod Laws
pub mod Effect
use mayday_dispatch.Prelude.{
  ℕ, Bool, false, not, ◌&&◌, Option, none, some, [], ◌∷◌, ◌++◌, ◌==◌, eqb, if◌then◌else◌, all,
  includes, String,
}
use mathlib.Core.Option
use mayday_dispatch.Domain.Patterns.{Formats, is_upper_code}
use mayday_dispatch.Domain.Lifecycle.{is_public_state, same_state}
use mayday_dispatch.Domain.Publication.{Publication, is_valid_publication, parsed_publication}
use mayday_dispatch.Domain.Public.{PublicPublication, is_valid_public, parsed_public}
use mayday_dispatch.Gateway.Errors.{
  Result, ok, err, zod_error, repository_concurrency_error, repository_idempotency_conflict_error,
  repository_persistence_error, release_manifest_integrity, release_manifest_validation, ◌>>=◌,
  ◌>>◌, require,
}
use mayday_dispatch.Audit.{AuditEvent, is_valid_audit_event}
use mayday_dispatch.Repository.{
  IdempotencyKey, IdempotencyRecord, ReleaseManifest, SaveOptions, Repository, get_publication,
  set_publication, storage_key, set_record, find_idempotency,
}

-- Steps that read or change the repository, and that may throw: what was written before an
-- exception stays written.
abbrev pub Step : Type 0 → Type 0
Step A = Repository → Result A × Repository

abbrev pub continue : {A B : Type 0} → Result A → (A → Step B) → Step B
continue (ok a) f r = f a r
continue (err e) f r = (err e, r)

abbrev pub then_do : {A B : Type 0} → Step A → (A → Step B) → Step B
then_do m f r = let (x, r') = m r in continue x f r'

abbrev pub lift : {A : Type 0} → Result A → Step A
lift x r = (x, r)

abbrev pub modify : (Repository → Repository) → Step (Unit {0})
modify f r = (ok tt, f r)

-- `e.resultingVersion === version`
abbrev pub has_version : ℕ → Option ℕ → Bool
has_version v none = false
has_version v (some w) = eqb w v

-- The long condition of `validateReleaseManifest`, negated.
unfoldable pub manifest_agrees :
    Publication → AuditEvent → ReleaseManifest → PublicPublication → Bool
manifest_agrees p e m snapshot =
    m.publication_id == p.id
    && eqb m.publication_version p.revision.version
    && same_state m.public_status p.lifecycle_state
    && is_public_state m.public_status
    && m.publisher_subject_id == e.actor.subject_id
    && m.audit_correlation_id == e.correlation_id
    && m.release_operation_id == e.id
    && has_version p.revision.version e.resulting_version
    && includes e.action ("publication.release" ∷ "publication.release.update" ∷ [])
    && snapshot.id == p.id
    && eqb snapshot.revision.version p.revision.version
    && same_state snapshot.lifecycle_state m.public_status
    && m.passed
    && all is_upper_code m.finding_codes

module _ (f : Formats) (digest : PublicPublication → String) where
  -- `validatePublicSnapshot`
  unfoldable pub validate_public_snapshot : PublicPublication → String → Result PublicPublication
  validate_public_snapshot snapshot expected = do
    require (is_valid_public f snapshot) zod_error
    require (digest (parsed_public snapshot) == expected)
        (repository_persistence_error release_manifest_integrity)
    ok (parsed_public snapshot)

  unfoldable pub validate_release_manifest :
      Publication → AuditEvent → ReleaseManifest → Result (Unit {0})
  unfolding validate_public_snapshot manifest_agrees
  validate_release_manifest p e m = do
    snapshot ← validate_public_snapshot m.public_snapshot m.public_content_digest
    require (manifest_agrees p e m snapshot)
        (repository_persistence_error release_manifest_validation)

  unfoldable pub check_manifest :
      Publication → AuditEvent → Option ReleaseManifest → Result (Unit {0})
  unfolding validate_release_manifest
  check_manifest p e none = ok tt
  check_manifest p e (some m) = validate_release_manifest p e m

-- The version check of `save`, on the version that is stored.
abbrev pub is_current : ℕ → Option ℕ → Bool
is_current expected none = eqb expected 0
is_current expected (some actual) = not (eqb expected 0) && eqb actual expected

unfoldable pub stored_version : String → Repository → Option ℕ
unfolding get_publication
stored_version id r = Option.map (λ p. p.revision.version) (get_publication id r.publications)

-- `existingKey && existingKey.requestHash !== idempotency.requestHash`
unfoldable pub conflicts : Option IdempotencyRecord → IdempotencyKey → Bool
conflicts none k = false
conflicts (some old) k = not (old.request_hash == k.request_hash)

unfoldable pub write_record : Publication → IdempotencyKey → Repository → Repository
unfolding set_record storage_key
write_record p k r = record r {
  idempotency =
      set_record (storage_key k.actor_scope k.key)
        (record {
          entry = k;
          publication_id = p.id;
          resulting_version = p.revision.version;
          response = p;
        })
        r.idempotency;
}

-- The part of `save` for the idempotency key.
unfoldable pub remember : Publication → Option IdempotencyKey → Step (Unit {0})
unfolding conflicts write_record find_idempotency
remember p none r = (ok tt, r)
remember p (some k) r =
    if conflicts (find_idempotency k.actor_scope k.key r) k
    then (err repository_idempotency_conflict_error, r)
    else (ok tt, write_record p k r)

unfoldable pub write_publication : Publication → Repository → Repository
unfolding set_publication
write_publication p r = record r { publications = set_publication p r.publications }

unfoldable pub push_audit : AuditEvent → Repository → Repository
push_audit e r = record r { audit_events = r.audit_events ++ e ∷ [] }

unfoldable pub push_manifest : Option ReleaseManifest → Repository → Repository
push_manifest none r = r
push_manifest (some m) r = record r { release_manifests = r.release_manifests ++ m ∷ [] }

module _ (f : Formats) (digest : PublicPublication → String) where
  -- The checks of `save` before anything is written.
  unfoldable pub check_save : Publication → SaveOptions → Repository → Result (Unit {0})
  unfolding check_manifest stored_version
  check_save p o r = do
    require (is_current o.expected_version (stored_version p.id r))
        (repository_concurrency_error o.expected_version (stored_version p.id r))
    require (is_valid_audit_event f o.audit_event) zod_error
    check_manifest f digest p o.audit_event o.release_manifest

-- The writes of `save`. The key's check comes first, and may still throw.
unfoldable pub write : Publication → SaveOptions → Step Publication
unfolding remember write_publication push_audit push_manifest
write q o = then_do (remember q o.idempotency) (λ _. then_do (modify (write_publication q)) (λ _.
    then_do (modify (push_audit o.audit_event))
      (λ _. then_do (modify (push_manifest o.release_manifest)) (λ _. lift (ok q)))))

module _ (f : Formats) (digest : PublicPublication → String) where
  -- `save`: what it returns is what it stores.
  unfoldable pub save : Publication → SaveOptions → Step Publication
  unfolding check_save write
  save p o r =
      let parsed = parsed_publication p in
      then_do (lift (require (is_valid_publication f p) zod_error))
        (λ _. then_do (lift (check_save f digest parsed o r)) (λ _. write parsed o)) r

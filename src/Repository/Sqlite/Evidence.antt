-- ===== src/Repository/Sqlite/Evidence.antt =====
-- src/publications/repository.ts: the evidence in `SqlitePublicationRepository`.
use mathlib.Core.Option
use mayday_dispatch.Prelude.{
  ℕ, ◌-◌, String, Bool, true, false, ◌&&◌, Option, none, some, List, [], ◌∷◌, ◌++◌, ◌==◌, eqb, any,
  if◌then◌else◌, is_some, or_else,
}
use mayday_dispatch.Domain.Patterns.{Formats}
use mayday_dispatch.Domain.Citation.{Citation}
use mayday_dispatch.Gateway.Errors.{
  Result, ok, Failure, zod_error, plain_error, repository_persistence_error, duplicate_evidence,
  parent_evidence, evidence_version, evidence_registration, evidence_updating, ◌>>=◌, ◌>>◌, require,
  forbid,
}
use mayday_dispatch.Evidence.{RegisteredEvidence, is_valid_evidence, parsed_evidence}
use mayday_dispatch.Repository.{IdempotencyKey}
use mayday_dispatch.Repository.Sqlite.{
  Database, EvidenceRow, EvidenceRevisionRow, EvidenceAuditRow, EvidenceKeyRow, find_evidence,
}
use mayday_dispatch.Repository.Sqlite.Save.{catching}
use mayday_dispatch.Repository.Sqlite.Rows.{citation_row, upsert_citation}
use mayday_dispatch.Repository.Sqlite.Read.{filled, row_citation}

-- `EvidenceSaveOptions`
pub record EvidenceOptions : Type 0 where
  pub audit_row : Option EvidenceAuditRow
  pub key : Option IdempotencyKey

-- `item.parentEvidenceId` and its look-up; an empty id counts as none.
unfoldable pub check_parent_row : Option String → Database → Result (Unit {0})
unfolding find_evidence
check_parent_row parent db = elim (filled parent) [
  | none ↦ ok tt
  | some id ↦
      require (is_some (find_evidence id db.evidence))
        (repository_persistence_error parent_evidence)
]

unfoldable pub upsert_optional : Option Citation → Database → Database
unfolding upsert_citation
upsert_optional none db = db
upsert_optional (some c) db = record db {
  citations = upsert_citation (citation_row c) db.citations;
}

-- The columns of evidence: the checksum is stored in lower case.
abbrev pub evidence_row : (String → String) → RegisteredEvidence → EvidenceRow
evidence_row lower_case e = record {
  columns = record e { checksum = lower_case e.checksum; citation = none };
  citation_id = Option.map (λ (c : Citation). c.id) e.citation;
}

-- `writeEvidenceRevision`
unfoldable pub write_evidence_revision : RegisteredEvidence → Database → Result Database
write_evidence_revision e db = do
  forbid
      (any (λ (r : EvidenceRevisionRow). r.evidence_id == e.id && eqb r.version e.version)
        db.evidence_revisions)
      plain_error
  ok (record db {
    evidence_revisions =
        db.evidence_revisions
        ++ record {
          evidence_id = e.id;
          version = e.version;
          previous_version = if eqb e.version 1 then none else some (e.version - 1);
          updated_at = or_else e.processed_at e.registered_at;
          snapshot = e;
        }
          ∷ [];
  })

-- `writeEvidenceAudit`
unfoldable pub write_evidence_audit : Option EvidenceAuditRow → Database → Result Database
unfolding find_evidence
write_evidence_audit none db = ok db
write_evidence_audit (some a) db = do
  forbid (any (λ (x : EvidenceAuditRow). x.id == a.id) db.evidence_audits) plain_error
  require (is_some (find_evidence a.evidence_id db.evidence)) plain_error
  ok (record db { evidence_audits = db.evidence_audits ++ a ∷ [] })

-- `writeEvidenceIdempotency`
unfoldable pub write_evidence_key :
    RegisteredEvidence → Option IdempotencyKey → Database → Result Database
write_evidence_key e none db = ok db
write_evidence_key e (some k) db = do
  forbid
      (any (λ (x : EvidenceKeyRow). x.actor_scope == k.actor_scope && x.key == k.key)
        db.evidence_keys)
      plain_error
  ok (record db {
    evidence_keys =
        db.evidence_keys
        ++ record { entry = k; evidence_id = e.id; resulting_version = e.version; response = e }
          ∷ [];
  })

-- `superseded_by` refers to evidence that is there.
unfoldable pub has_reference : Option String → Database → Bool
unfolding find_evidence
has_reference none db = true
has_reference (some id) db = is_some (find_evidence id db.evidence)

-- The body of the transaction of `register`.
unfoldable pub register_transaction :
    (String → String) → RegisteredEvidence → EvidenceOptions → Database → Result Database
unfolding find_evidence check_parent_row upsert_optional write_evidence_revision
    write_evidence_audit write_evidence_key has_reference
register_transaction lower_case item o db = do
  forbid (is_some (find_evidence item.id db.evidence))
      (repository_persistence_error duplicate_evidence)
  check_parent_row item.parent_evidence_id db
  require (has_reference item.superseded_by db) plain_error
  let cited = upsert_optional item.citation db
  db1 ←
      write_evidence_revision item
        (record cited { evidence = cited.evidence ++ evidence_row lower_case item ∷ [] })
  db2 ← write_evidence_audit o.audit_row db1
  write_evidence_key item o.key db2

-- The `catch` of `register`: it gives every error the same name.
abbrev pub registration_failure : Failure → Failure
registration_failure e = repository_persistence_error evidence_registration

module _ (f : Formats) (lower_case : String → String) where
  -- `register`
  unfoldable pub register_row :
      RegisteredEvidence → EvidenceOptions → Database → Result (RegisteredEvidence × Database)
  unfolding register_transaction
  register_row e o db = do
    let item = parsed_evidence e
    require (is_valid_evidence f e) zod_error
    db' ← catching registration_failure (register_transaction lower_case item o db)
    ok (item, db')

-- The row of an id, at the expected version.
unfoldable pub has_row_version : Option EvidenceRow → ℕ → Bool
has_row_version none expected = false
has_row_version (some r) expected = eqb r.columns.version expected

-- `UPDATE evidence_references SET …`, which leaves the id and the time of registration
unfoldable pub update_evidence_row : EvidenceRow → List EvidenceRow → List EvidenceRow
update_evidence_row r [] = []
update_evidence_row r (x ∷ xs) =
    if x.columns.id == r.columns.id
    then record r { columns = record r.columns { registered_at = x.columns.registered_at } } ∷ xs
    else x ∷ update_evidence_row r xs

-- The body of the transaction of `updateEvidence`.
unfoldable pub update_transaction :
    (String → String) → RegisteredEvidence → ℕ → EvidenceOptions → Database → Result Database
unfolding find_evidence has_row_version check_parent_row upsert_optional update_evidence_row
    write_evidence_revision write_evidence_audit has_reference
update_transaction lower_case item expected o db = do
  require (has_row_version (find_evidence item.id db.evidence) expected)
      (repository_persistence_error evidence_version)
  check_parent_row item.parent_evidence_id db
  require (has_reference item.superseded_by db) plain_error
  let cited = upsert_optional item.citation db
  db1 ← write_evidence_revision item (record cited {
    evidence = update_evidence_row (evidence_row lower_case item) cited.evidence;
  })
  write_evidence_audit o.audit_row db1

-- The `catch` of `updateEvidence`.
unfoldable pub updating_failure : Failure → Failure
updating_failure (repository_persistence_error operation) = repository_persistence_error operation
updating_failure e = repository_persistence_error evidence_updating

module _ (f : Formats) (lower_case : String → String) where
  -- `updateEvidence`
  unfoldable pub update_row :
      RegisteredEvidence → ℕ → EvidenceOptions → Database → Result (RegisteredEvidence × Database)
  unfolding update_transaction updating_failure
  update_row e expected o db = do
    let item = parsed_evidence e
    require (is_valid_evidence f e) zod_error
    db' ← catching updating_failure (update_transaction lower_case item expected o db)
    ok (item, db')

-- The value that `getRegisteredEvidence` puts together.
unfoldable pub evidence_of_row : EvidenceRow → Database → RegisteredEvidence
unfolding row_citation
evidence_of_row r db = record r.columns {
  description = filled r.columns.description;
  processor = filled r.columns.processor;
  public_url = filled r.columns.public_url;
  source_url = filled r.columns.source_url;
  locator = filled r.columns.locator;
  citation = row_citation r db;
  acquisition_at = filled r.columns.acquisition_at;
  processed_at = filled r.columns.processed_at;
  original_filename = filled r.columns.original_filename;
  collection_id = filled r.columns.collection_id;
  original_identifier = filled r.columns.original_identifier;
  acquisition_method = filled r.columns.acquisition_method;
  provenance_note = filled r.columns.provenance_note;
  parent_evidence_id = filled r.columns.parent_evidence_id;
  derivation_type = filled r.columns.derivation_type;
  superseded_by = filled r.columns.superseded_by;
  processing_error = filled r.columns.processing_error;
}

module _ (f : Formats) where
  -- `getRegisteredEvidence`
  unfoldable pub get_evidence_row : String → Database → Result (Option RegisteredEvidence)
  unfolding find_evidence evidence_of_row
  get_evidence_row id db = elim (find_evidence id db.evidence) [
    | none ↦ ok none
    | some r ↦ do
      require (is_valid_evidence f (evidence_of_row r db)) zod_error
      ok (some (parsed_evidence (evidence_of_row r db)))
  ]

-- ===== src/Repository/Sqlite.antt =====
-- src/publications/repository.ts: the tables of `SqlitePublicationRepository`, as its migrations
-- declare them. A table is the list of its rows in the order of insertion, a JSON column is the
-- value that it holds, and `NULL` is none.
pub mod Rows
pub mod Save
pub mod Represents
pub mod Refines
pub mod Read
pub mod Evidence
pub mod Released
pub mod RoundTrip
pub mod Findings
pub mod Public
use mayday_dispatch.Prelude.{
  ℕ, String, Bool, ◌&&◌, Option, none, some, List, [], ◌∷◌, ◌==◌, eqb, if◌then◌else◌, zero, suc,
  ◌+◌, ◌-◌, ◌≤◌, ◌<◌, ◌≡◌, refl, sym, ap, ◌∙◌, subst, ◌≢◌, ◌↔◌, ◌⊎◌, inl, inr, true, false, not,
  ◌||◌, ◌++◌, map, Memᴰ, arith, eq_iff, ltb, leb, Bool-cases, &&-eq-true, ||-eq-true, not-eq-true,
  eqb→eq, eqb_refl, ne→eqb, eq_text, ne_text, Option-cases, is_some, or_else, or_option, optionally,
  same_text?, length, any, all, keep, find, is_empty, includes, All, All-mem, all-any, find-true,
  eq_refl,
}
use mayday_dispatch.Domain.Lifecycle.{LifecycleState}
use mayday_dispatch.Domain.Json.{Extensions}
use mayday_dispatch.Domain.Blocks.{Block}
use mayday_dispatch.Domain.Citation.{Visibility}
use mayday_dispatch.Domain.Publication.{Origin, Publication, Revision, VerificationStatus}
use mayday_dispatch.Audit.{AuditEvent, Outcome}
use mayday_dispatch.Evidence.{RegisteredEvidence}
use mayday_dispatch.Repository.{
  IdempotencyRecord, ReleaseManifest, Lockdown, OperationalAuditEvent, IdempotencyKey,
}

-- `publications`
pub record PublicationRow : Type 0 where
  pub id : String
  pub slug : String
  pub kind : String
  pub lifecycle_state : LifecycleState
  pub visibility : Visibility
  pub title : String
  pub subtitle : Option String
  pub excerpt : String
  pub body : List String
  pub blocks : List Block
  pub published_at : String
  pub reading_time_minutes : ℕ
  pub tags : List String
  pub current_version : ℕ
  pub created_by : String
  pub created_at : String
  pub verification_status : VerificationStatus
  pub internal_notes : Option String
  pub extensions : Extensions

-- `origins`
pub record OriginRow : Type 0 where
  pub publication_id : String
  pub origin : Origin
  pub last_synchronized_at : String

-- `revisions`
pub record RevisionRow : Type 0 where
  pub publication_id : String
  pub revision : Revision
  pub snapshot : Publication
  pub actor_subject : String
  pub actor_application : Option String
  pub lifecycle_state : LifecycleState

-- `citations`
pub record CitationRow : Type 0 where
  pub id : String
  pub title : String
  pub authors : List String
  pub publisher : Option String
  pub published_at : Option String
  pub url : Option String
  pub doi : Option String

-- `publication_citations`
pub record CitationLink : Type 0 where
  pub publication_id : String
  pub citation_id : String
  pub ordinal : ℕ

-- `evidence_references`: the columns of the evidence, and the citation by its id. The field
-- `citation` of the columns is not used.
pub record EvidenceRow : Type 0 where
  pub columns : RegisteredEvidence
  pub citation_id : Option String

-- `publication_evidence`
pub record EvidenceLink : Type 0 where
  pub publication_id : String
  pub evidence_id : String
  pub associated_version : ℕ
  pub associated_at : String

-- `lifecycle_history`
pub record LifecycleRow : Type 0 where
  pub publication_id : String
  pub from_state : Option LifecycleState
  pub to_state : LifecycleState
  pub version : ℕ
  pub changed_at : String

-- `evidence_revisions`
pub record EvidenceRevisionRow : Type 0 where
  pub evidence_id : String
  pub version : ℕ
  pub previous_version : Option ℕ
  pub updated_at : String
  pub snapshot : RegisteredEvidence

-- `evidence_idempotency_keys`
pub record EvidenceKeyRow : Type 0 where
  pub entry : IdempotencyKey
  pub open entry use *
  pub evidence_id : String
  pub resulting_version : ℕ
  pub response : RegisteredEvidence

-- `evidence_audit_events`
pub record EvidenceAuditRow : Type 0 where
  pub id : String
  pub timestamp : String
  pub actor_subject : String
  pub actor_application : Option String
  pub action : String
  pub evidence_id : String
  pub previous_version : Option ℕ
  pub resulting_version : Option ℕ
  pub outcome : Outcome
  pub correlation_id : String
  pub request_id : String
  pub error_code : Option String

pub record Database : Type 0 where
  pub publications : List PublicationRow
  pub origins : List OriginRow
  pub revisions : List RevisionRow
  pub citations : List CitationRow
  pub citation_links : List CitationLink
  pub evidence : List EvidenceRow
  pub evidence_links : List EvidenceLink
  pub evidence_revisions : List EvidenceRevisionRow
  pub evidence_audits : List EvidenceAuditRow
  pub evidence_keys : List EvidenceKeyRow
  pub lifecycle_history : List LifecycleRow
  pub audit_events : List AuditEvent
  pub operational_audit_events : List OperationalAuditEvent
  pub release_manifests : List ReleaseManifest
  pub idempotency_keys : List IdempotencyRecord
  pub lockdown : Lockdown

-- The row of a publication.
abbrev pub row_of : Publication → PublicationRow
row_of p = record {
  id = p.id;
  slug = p.slug;
  kind = p.kind;
  lifecycle_state = p.lifecycle_state;
  visibility = p.visibility;
  title = p.title;
  subtitle = p.subtitle;
  excerpt = p.excerpt;
  body = p.body;
  blocks = p.blocks;
  published_at = p.published_at;
  reading_time_minutes = p.reading_time_minutes;
  tags = p.tags;
  current_version = p.revision.version;
  created_by = p.provenance.created_by;
  created_at = p.provenance.created_at;
  verification_status = p.provenance.verification_status;
  internal_notes = p.provenance.internal_notes;
  extensions = p.extensions;
}

abbrev pub origin_row : Publication → OriginRow
origin_row p = record {
  publication_id = p.id;
  origin = p.provenance.origin;
  last_synchronized_at = p.revision.updated_at;
}

unfoldable pub find_publication : String → List PublicationRow → Option PublicationRow
find_publication id [] = none
find_publication id (r ∷ rs) = if r.id == id then some r else find_publication id rs

unfoldable pub find_origin : String → List OriginRow → Option OriginRow
find_origin id [] = none
find_origin id (r ∷ rs) = if r.publication_id == id then some r else find_origin id rs

unfoldable pub find_revision : String → ℕ → List RevisionRow → Option RevisionRow
find_revision id version [] = none
find_revision id version (r ∷ rs) =
    if r.publication_id == id && eqb r.revision.version version
    then some r
    else find_revision id version rs

unfoldable pub find_citation : String → List CitationRow → Option CitationRow
find_citation id [] = none
find_citation id (r ∷ rs) = if r.id == id then some r else find_citation id rs

unfoldable pub find_evidence : String → List EvidenceRow → Option EvidenceRow
find_evidence id [] = none
find_evidence id (r ∷ rs) = if r.columns.id == id then some r else find_evidence id rs

unfoldable pub find_key : String → String → List IdempotencyRecord → Option IdempotencyRecord
find_key scope key [] = none
find_key scope key (r ∷ rs) =
    if r.actor_scope == scope && r.key == key then some r else find_key scope key rs

-- `UPDATE publications SET … WHERE id = ?`: the id is the key, so there is at most one row.
unfoldable pub update_publication_row : PublicationRow → List PublicationRow → List PublicationRow
update_publication_row r [] = []
update_publication_row r (x ∷ xs) = if x.id == r.id then r ∷ xs else x ∷ update_publication_row r xs

-- `UPDATE origins SET … WHERE publication_id = ?`
unfoldable pub update_origin_row : OriginRow → List OriginRow → List OriginRow
update_origin_row r [] = []
update_origin_row r (x ∷ xs) =
    if x.publication_id == r.publication_id then r ∷ xs else x ∷ update_origin_row r xs

abbrev pub same_origin : Origin → Origin → Bool
same_origin a b =
    a.originating_application == b.originating_application
    && a.originating_project == b.originating_project
    && a.stable_object_id == b.stable_object_id

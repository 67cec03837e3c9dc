-- ===== src/Tests/Sqlite.antt =====
-- The repository in SQLite, with the tables of the sample publication.
use mayday_dispatch.Domain.Citation.{EvidenceReference, Citation}
use mayday_dispatch.Evidence.{ProcessingStatus}
use mayday_dispatch.EvidenceGateway.{throw_persistence_error}
use mayday_dispatch.Gateway.Authorization.{admin}
use mayday_dispatch.Repository.Control.{set_publication_lockdown}
use mayday_dispatch.Repository.Sqlite.Released.{set_lockdown_row}
use mayday_dispatch.Repository.Sqlite.Public.{Released, set_lockdown_row-refines}
use mayday_dispatch.Repository.Sqlite.Read.{
  join_publication, assembled, read_publication, reference_status,
}
use mayday_dispatch.Repository.Sqlite.RoundTrip.{read-saved, read_back}
use mayday_dispatch.Repository.Sqlite.Evidence.{EvidenceOptions, register_row, evidence_row}
use mayday_dispatch.Repository.Sqlite.Findings.{read_publication-unreadable, register_row-masked}
use mayday_dispatch.Prelude.{◌≡◌, refl, none, List, [], ◌∷◌, true, some, Memᴰ}
use mayday_dispatch.Tests.{running, formats, publication, holding, evidence, actor}
use mayday_dispatch.Tests.Store.{options, manifest}
use mayday_dispatch.Domain.Lifecycle.{draft, published}
use mayday_dispatch.Domain.Publication.{Publication}
use mayday_dispatch.Gateway.Errors.{
  Result, ok, err, Failure, zod_error, gateway_error, persistence_failure, no_details,
}
use mayday_dispatch.Repository.{Repository, empty}
use mayday_dispatch.Repository.Sqlite.{
  Database, RevisionRow, EvidenceRow, EvidenceLink, row_of, origin_row, find_publication,
  find_origin, find_revision, find_citation, find_evidence, find_key, update_publication_row,
  update_origin_row, PublicationRow, OriginRow,
}
use mayday_dispatch.Repository.Sqlite.Save.{
  save_rows, save_transaction, row_version, check_key, check_registered, write_all, write_revision,
  write_lifecycle, changes_state, write_audit, write_manifest, write_key, save_failure,
}
use mayday_dispatch.Repository.Sqlite.Rows.{
  write_publication_rows, insert_publication, update_publication_rows, write_relations,
  write_citations, upsert_citation, write_evidence_links, linked_evidence,
}
use mayday_dispatch.Repository.Sqlite.Save.Steps.{core}
use mayday_dispatch.Repository.Sqlite.Represents.{Represents}

abbrev revision_of : Publication → RevisionRow
revision_of p = record {
  publication_id = p.id;
  revision = p.revision;
  snapshot = p;
  actor_subject = "subject-1";
  actor_application = none;
  lifecycle_state = p.lifecycle_state;
}

-- The tables with one publication, and a list of the registered evidence that it refers to.
abbrev tables : Publication → List EvidenceRow → List EvidenceLink → Database
tables p evidence_rows links = record {
  publications = row_of p ∷ [];
  origins = origin_row p ∷ [];
  revisions = revision_of p ∷ [];
  citations = [];
  citation_links = [];
  evidence = evidence_rows;
  evidence_links = links;
  evidence_revisions = [];
  evidence_audits = [];
  evidence_keys = [];
  lifecycle_history = [];
  audit_events = [];
  operational_audit_events = [];
  release_manifests = [];
  idempotency_keys = [];
  lockdown = empty.lockdown;
}

abbrev drafts : Database
drafts = tables (publication draft 1) [] []

drafts-Represents : Represents (core drafts) (holding (publication draft 1))
unfolding running find_revision
drafts-Represents = record {
  publications = refl;
  origins = refl;
  revisions = ((revision_of (publication draft 1), refl, refl, refl), tt);
  keys = refl;
  audit_events = refl;
  operational_audit_events = refl;
  release_manifests = refl;
  lockdown = refl;
}

-- The tables after a call that committed.
abbrev committed : {A : Type 0} → Result (A × Database) → Database
committed (ok x) = x.1
committed (err e) = drafts

unfoldable saving : Unit {0}
unfolding running save_rows save_transaction row_version check_key check_registered write_all
    write_publication_rows insert_publication update_publication_rows write_relations
    write_citations upsert_citation write_evidence_links linked_evidence write_revision
    write_lifecycle changes_state write_audit write_manifest write_key save_failure find_publication
    find_origin find_revision find_citation find_evidence find_key update_publication_row
    update_origin_row
saving = tt

read-saved_example :
    (row : PublicationRow) × (origin : OriginRow) × (revision : RevisionRow) × (join_publication
        "pub-1" drafts
      ≡ some (row, origin, revision))
    × ((evidence : List EvidenceReference) (sources : List Citation)
        → assembled row origin revision evidence sources
          ≡ read_back (publication draft 1) evidence sources)
unfolding running
read-saved_example =
    read-saved drafts (holding (publication draft 1)) "pub-1" (publication draft 1)
      drafts-Represents refl

set_lockdown_row-refines_example :
    ((set_publication_lockdown "event-1" true
        (actor admin)
        "corr-2"
        "req-2"
        "2026-02-02T00:00:00Z"
        (holding (publication draft 1))).0
      ≡ record {
        enabled = true;
        version = 1;
        changed_at = "2026-02-02T00:00:00Z";
        changed_by_subject = "subject-1";
      })
    × Represents
        (core (
          committed (
            set_lockdown_row "event-1" true
              (actor admin)
              "corr-2"
              "req-2"
              "2026-02-02T00:00:00Z"
              drafts)))
        (set_publication_lockdown "event-1" true
          (actor admin)
          "corr-2"
          "req-2"
          "2026-02-02T00:00:00Z"
          (holding (publication draft 1))).1
unfolding running set_lockdown_row
set_lockdown_row-refines_example =
    set_lockdown_row-refines "event-1" true (actor admin) "corr-2" "req-2" "2026-02-02T00:00:00Z"
      drafts _ (holding (publication draft 1)) _ drafts-Represents refl

-- The tables after a release of version 3.
abbrev released_tables : Database
released_tables = record (tables (publication published 3) [] []) {
  audit_events = record (options 2 3).audit_event { action = "publication.release" } ∷ [];
  release_manifests = manifest ∷ [];
}

abbrev superseded_row : EvidenceRow
superseded_row = evidence_row (λ s. s) (record evidence { status = ProcessingStatus.superseded })

abbrev link : EvidenceLink
link = record {
  publication_id = "pub-1";
  evidence_id = "ev-1";
  associated_version = 1;
  associated_at = "2026-01-02T00:00:00Z";
}

abbrev linked : Database
linked = tables (publication draft 1) (superseded_row ∷ []) (link ∷ [])

read_publication-unreadable_example : read_publication formats "pub-1" linked ≡ err zod_error
unfolding running find_publication find_origin find_revision find_evidence join_publication
    reference_status
read_publication-unreadable_example =
    read_publication-unreadable formats "pub-1" linked
      (
        row_of (publication draft 1),
        origin_row (publication draft 1),
        revision_of (publication draft 1),
      )
      link superseded_row refl (Memᴰ.head refl) refl refl refl

abbrev registering : EvidenceOptions
registering = record { audit_row = none; key = none }

register_row-masked_example :
    (x : Failure) × (register_row formats (λ s. s) evidence registering linked ≡ err x)
    × (throw_persistence_error x ≡ gateway_error persistence_failure no_details)
unfolding running find_evidence
register_row-masked_example =
    register_row-masked formats (λ s. s) evidence registering linked refl refl

-- ===== src/Tests.antt =====
-- Sample data of the witnesses, and the definitions that a run of the gateway computes.
mod Service
mod Store
mod Rules
mod Withdrawal
mod Retry
mod Processing
mod Registry
mod Release
mod Histories
mod Consumer
mod Worker
mod Observations
mod Sqlite
use mayday_dispatch.Prelude.{
  String, Bool, true, false, Option, none, some, List, [], ◌∷◌, ℕ, if◌then◌else◌, ◌==◌,
}
use mayday_dispatch.Audit.{is_valid_audit_event}
use mayday_dispatch.Domain.Blocks.{
  present, sanitize_block, sanitize_public_blocks, searchable_block_text, searchable_text, withhold,
}
use mayday_dispatch.Domain.Blocks.Schema.{
  has_alt, is_complete, is_described, is_refined, is_valid_block, is_valid_blocks, is_valid_cell,
  is_valid_column, is_valid_dataset, is_valid_entry, is_valid_feature, is_valid_map, is_valid_media,
  is_valid_table, is_valid_visual, is_within_length, parsed_block, parsed_entry, parsed_feature,
  parsed_visual,
}
use mayday_dispatch.Domain.Citation.{
  has_disclosure, is_doi, is_public_url, is_valid_citation, is_valid_reference, parsed_citation,
  parsed_reference, Citation, public,
}
use mayday_dispatch.Domain.Json.{field_of, get, is_within, lookup, merge, positive_int, put, texts}
use mayday_dispatch.Domain.Lifecycle.{
  can_transition_lifecycle, lifecycle_transitions, LifecycleState,
}
use mayday_dispatch.Domain.Patterns.{
  drive_at, is_checksum, is_digit, is_free_of_slashes, is_letter, is_lower, is_nonblank,
  is_plain_text, is_publication_type, is_short_text, is_slug, is_unsafe, is_upper_code,
  starts_with_codes, Formats,
}
use mayday_dispatch.Domain.Patterns.Temporal.{is_temporal}
use mayday_dispatch.Domain.Public.{
  disclosed, is_valid_public, notice_of, parsed_notice, parsed_public, parsed_public_evidence,
  project, to_public_publication,
}
use mayday_dispatch.Domain.Publication.{
  is_consistent, is_valid_content, is_valid_origin, is_valid_provenance, is_valid_publication,
  is_valid_revision, parsed_origin, parsed_provenance, parsed_publication, parsed_revision,
  RevisionType, Publication, Origin, original_reporting, verified,
}
use mayday_dispatch.Evidence.{
  is_safe_filename, is_valid_evidence, parsed_evidence, RegisteredEvidence, ProcessingStatus,
}
use mayday_dispatch.Gateway.Authorization.{
  allows, assert_can, owns_external_application, Actor, Role, editorial_session,
}
use mayday_dispatch.Gateway.Dto.{
  has_change, is_valid_attach, is_valid_draft, is_valid_response, is_valid_transition,
  is_valid_update, notes_agree, parsed_attach, parsed_draft, parsed_response, parsed_transition,
  parsed_update,
}
use mayday_dispatch.Gateway.Errors.{error_status, to_gateway_error}
use mayday_dispatch.Gateway.Readiness.{
  findings_of, is_assessment, scope_findings, scope_of, validate_publication_readiness,
}
use mayday_dispatch.Gateway.Service.{
  actor_scope, assert_evidence_policy, assert_expected_version, assert_mayday3_evidence_only,
  assert_public_release_unlocked, assert_slug_available, assert_unlocked_draft, audit_event,
  clone_for_revision, has_filesystem_locator, perform, persist, require_publication,
  resolve_evidence, resolve_one, response, to_evidence_reference, translate, validate_publication,
  Gateway, RequestContext, Supply,
}
use mayday_dispatch.Gateway.Service.Attach.{
  attach_evidence_to, first_of_list, prepare_attach, with_evidence,
}
use mayday_dispatch.Gateway.Service.Draft.{
  assert_matches_origin, create_draft_publication, find_record, key_entry, new_draft, prepare_draft,
  prepare_for_origin, prepare_new_draft, prepare_synchronization, prepare_unless, replayed,
  resolve_idempotency, synchronized,
}
use mayday_dispatch.Gateway.Service.Read.{
  get_public_by_slug, get_stored_publication, list_publications, shown,
}
use mayday_dispatch.Gateway.Service.Transition.{
  check_release, check_transition, code_text, create_release_manifest, manifest_for, moved,
  prepare_transition, transition_publication, with_reason,
}
use mayday_dispatch.Gateway.Service.Update.{
  check_edit, check_slug, edited, edited_extensions, enters_release, notice, prepare_update,
  put_notice, put_text, replaces_assessment, update_publication, with_explanation, withdraws,
}
use mayday_dispatch.Prelude.Text.{is_space, trim}
use mayday_dispatch.Repository.{
  find_by_id, find_by_origin_identity, find_by_slug, find_idempotency, get_publication, get_record,
  origin_matches, set_publication, set_record, storage_key, Repository, empty,
}
use mayday_dispatch.Repository.Control.{set_publication_lockdown}
use mayday_dispatch.Repository.Save.{
  check_manifest, check_save, conflicts, manifest_agrees, push_audit, push_manifest, remember, save,
  stored_version, validate_public_snapshot, validate_release_manifest, write, write_publication,
  write_record,
}
use mayday_dispatch.Repository.Snapshots.{
  active_ids, add_manifest, get_public_snapshot_by_slug, latest_from, latest_manifests,
  list_public_snapshots, snapshots_of,
}

-- Every definition that the samples run through.
unfoldable running : Unit {0}
unfolding active_ids actor_scope add_manifest allows assert_can assert_evidence_policy
    assert_expected_version assert_matches_origin assert_mayday3_evidence_only
    assert_public_release_unlocked assert_slug_available assert_unlocked_draft attach_evidence_to
    audit_event can_transition_lifecycle check_edit check_manifest check_release check_save
    check_slug check_transition clone_for_revision code_text conflicts create_draft_publication
    create_release_manifest disclosed drive_at edited edited_extensions enters_release error_status
    field_of find_by_id find_by_origin_identity find_by_slug find_idempotency find_record
    findings_of first_of_list get get_public_by_slug get_public_snapshot_by_slug get_publication
    get_record get_stored_publication has_alt has_change has_disclosure has_filesystem_locator
    is_assessment is_checksum is_complete is_consistent is_described is_digit is_doi
    is_free_of_slashes is_letter is_lower is_nonblank is_plain_text is_public_url
    is_publication_type is_refined is_safe_filename is_short_text is_slug is_space is_temporal
    is_unsafe is_upper_code is_valid_attach is_valid_audit_event is_valid_block is_valid_blocks
    is_valid_cell is_valid_citation is_valid_column is_valid_content is_valid_dataset is_valid_draft
    is_valid_entry is_valid_evidence is_valid_feature is_valid_map is_valid_media is_valid_origin
    is_valid_provenance is_valid_public is_valid_publication is_valid_reference is_valid_response
    is_valid_revision is_valid_table is_valid_transition is_valid_update is_valid_visual is_within
    is_within_length key_entry latest_from latest_manifests lifecycle_transitions
    list_public_snapshots list_publications lookup manifest_agrees manifest_for merge moved
    new_draft notes_agree notice notice_of origin_matches owns_external_application parsed_attach
    parsed_block parsed_citation parsed_draft parsed_entry parsed_evidence parsed_feature
    parsed_notice parsed_origin parsed_provenance parsed_public parsed_public_evidence
    parsed_publication parsed_reference parsed_response parsed_revision parsed_transition
    parsed_update parsed_visual perform persist positive_int prepare_attach prepare_draft
    prepare_for_origin prepare_new_draft prepare_synchronization prepare_transition prepare_unless
    prepare_update present project push_audit push_manifest put put_notice put_text remember
    replaces_assessment replayed require_publication resolve_evidence resolve_idempotency
    resolve_one response sanitize_block sanitize_public_blocks save scope_findings scope_of
    searchable_block_text searchable_text set_publication set_publication_lockdown set_record shown
    snapshots_of starts_with_codes storage_key stored_version synchronized texts
    to_evidence_reference to_gateway_error to_public_publication transition_publication translate
    trim update_publication validate_public_snapshot validate_publication
    validate_publication_readiness validate_release_manifest with_evidence with_explanation
    with_reason withdraws withhold write write_publication write_record
running = tt

abbrev formats : Formats
formats = record {
  is_uuid = λ s. true;
  is_date = λ s. true;
  is_datetime = λ s. true;
  parse_url = λ s. none;
}

abbrev origin : Origin
origin = record {
  kind = original_reporting;
  label = "Field report";
  url = none;
  originating_application = "overwatch";
  originating_project = "north";
  stable_object_id = "report-7";
}

abbrev citation : Citation
citation = record {
  id = "cite-1";
  title = "Harbour log";
  subtitle = none;
  authors = "A. Rowe" ∷ [];
  publisher = none;
  published_at = none;
  url = none;
  doi = none;
}

-- A publication in a state, of a version.
abbrev publication : LifecycleState → ℕ → Publication
publication state version = record {
  id = "pub-1";
  slug = "harbour-report";
  kind = "report";
  lifecycle_state = state;
  visibility = public;
  title = "Harbour report";
  subtitle = none;
  excerpt = "What the logs show.";
  body = "The logs show two ships." ∷ [];
  blocks = [];
  published_at = "2026-01-02";
  reading_time_minutes = 1;
  tags = [];
  revision = record {
    version = version;
    updated_at = "2026-01-02T00:00:00Z";
    summary = "Reviewed";
    previous_version = none;
    revision_type = RevisionType.editorial;
  };
  provenance = record {
    origin = origin;
    created_by = "editor-1";
    created_at = "2026-01-01T00:00:00Z";
    verification_status = verified;
    internal_notes = none;
  };
  extensions = [];
  evidence = [];
  sources = citation ∷ [];
}

abbrev evidence : RegisteredEvidence
evidence = record {
  id = "ev-1";
  title = "Log page";
  description = none;
  media_type = "image/png";
  source = "Harbour office";
  provenance = "Handed over";
  visibility = public;
  checksum = "abababababababababababababababababababababababababababababababab";
  processor = none;
  status = ProcessingStatus.ready;
  public_url = none;
  source_url = none;
  locator = none;
  citation = some citation;
  registered_at = "2026-01-01T00:00:00Z";
  version = 1;
  acquisition_at = none;
  processed_at = none;
  original_filename = none;
  collection_id = none;
  original_identifier = none;
  acquisition_method = none;
  provenance_note = none;
  parent_evidence_id = none;
  derivation_type = none;
  superseded_by = none;
  processing_error = none;
}

abbrev gateway : Gateway
gateway = record {
  formats = formats;
  registered = λ id. if id == "ev-1" then some evidence else none;
  editorial_base_url = "https://dispatch.test/editorial";
  public_base_url = "https://dispatch.test/dispatch";
  digest = λ p. p.slug;
  request_hash = λ d. d.slug;
}

abbrev context : RequestContext
context = record { correlation_id = "corr-1"; request_id = "req-1"; idempotency_key = none }

abbrev supply : Supply
supply = record {
  publication_id = "pub-2";
  audit_id = "audit-1";
  now = "2026-02-01T00:00:00Z";
  then_now = "2026-02-01T00:00:01Z";
}

abbrev actor : Role → Actor
actor role = record {
  subject_id = "subject-1";
  roles = role ∷ [];
  originating_application = none;
  authentication_method = some editorial_session;
}

-- A repository that holds one publication.
abbrev holding : Publication → Repository
holding p = record empty { publications = p ∷ [] }

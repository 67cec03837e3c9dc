-- ===== src/EvidenceGateway.antt =====
-- src/application/evidence-gateway/: the authorization policy, the update request of dto.ts, and
-- `update` of service.ts, on the registry in memory.
pub mod Processed
use mathlib.Core.Option
use mayday_dispatch.Prelude.{
  ℕ, ◌+◌, String, Bool, true, false, not, ◌&&◌, ◌||◌, Option, none, some, List, [], ◌∷◌, any, eqb,
  leb, is_some, optionally, or_else, or_option, if◌then◌else◌,
}
use mayday_dispatch.Prelude.Text.{trim}
use mayday_dispatch.Domain.Patterns.{Formats, is_nonblank, is_checksum}
use mayday_dispatch.Domain.Citation.{
  Visibility, Citation, is_public_url, is_valid_citation, parsed_citation, is_visibility_public,
}
use mayday_dispatch.Gateway.Errors.{
  Result, ok, err, Failure, gateway_error, unauthorized, not_found, conflict, stale_version,
  persistence_failure, no_details, record_id, versions, validation_error,
  repository_persistence_error, duplicate_evidence, parent_evidence, ◌>>=◌, ◌>>◌, require, forbid,
}
use mayday_dispatch.Gateway.Authorization.{
  Role, Actor, external_application, editor, publisher, admin, public_reader, same_role, has_role,
  allow_if, forbidden_error,
}
use mayday_dispatch.Evidence.{RegisteredEvidence, ProcessingStatus, same_status, is_safe_filename}
use mayday_dispatch.Evidence.Registry.{Registry, get_registered_evidence, update_evidence}

pub data EvidenceAction : Type 0 where
  register retrieve update search : EvidenceAction

abbrev pub introduces_evidence : Actor → Bool
introduces_evidence a = has_role editor a || has_role publisher a || has_role external_application a

-- `roles.some((role) => role !== "public-reader")`
abbrev pub is_more_than_reader : Actor → Bool
is_more_than_reader a = any (λ r. not (same_role r public_reader)) a.roles

unfoldable pub evidence_allows : EvidenceAction → Actor → Bool
evidence_allows EvidenceAction.register a = introduces_evidence a
evidence_allows EvidenceAction.update a = introduces_evidence a
evidence_allows EvidenceAction.retrieve a = is_more_than_reader a
evidence_allows EvidenceAction.search a = is_more_than_reader a

-- `RoleBasedEvidenceAuthorizationPolicy.assertCan`
unfoldable pub assert_can_evidence : EvidenceAction → Option Actor → Result (Unit {0})
assert_can_evidence action none = err (gateway_error unauthorized no_details)
assert_can_evidence action (some a) = allow_if (has_role admin a || evidence_allows action a)

pub record UpdateEvidenceRequest : Type 0 where
  pub title : Option String
  pub description : Option String
  pub media_type : Option String
  pub source : Option String
  pub provenance : Option String
  pub visibility : Option Visibility
  pub checksum : Option String
  -- `checksumAlgorithm` is there; its value is always "sha256".
  pub has_checksum_algorithm : Bool
  pub processor : Option String
  pub status : Option ProcessingStatus
  pub public_url : Option String
  pub source_url : Option String
  pub locator : Option String
  pub citation : Option Citation
  pub acquisition_at : Option String
  pub processed_at : Option String
  pub original_filename : Option String
  pub collection_id : Option String
  pub original_identifier : Option String
  pub acquisition_method : Option String
  pub provenance_note : Option String
  pub parent_evidence_id : Option String
  pub derivation_type : Option String
  pub superseded_by : Option String
  pub processing_error : Option String
  pub expected_version : ℕ

-- Some field besides the version is there.
unfoldable pub has_evidence_field : UpdateEvidenceRequest → Bool
has_evidence_field u =
    is_some u.title
    || is_some u.description
    || is_some u.media_type
    || is_some u.source
    || is_some u.provenance
    || is_some u.visibility
    || is_some u.checksum
    || u.has_checksum_algorithm
    || is_some u.processor
    || is_some u.status
    || is_some u.public_url
    || is_some u.source_url
    || is_some u.locator
    || is_some u.citation
    || is_some u.acquisition_at
    || is_some u.processed_at
    || is_some u.original_filename
    || is_some u.collection_id
    || is_some u.original_identifier
    || is_some u.acquisition_method
    || is_some u.provenance_note
    || is_some u.parent_evidence_id
    || is_some u.derivation_type
    || is_some u.superseded_by
    || is_some u.processing_error

-- `UpdateEvidenceRequestSchema`
unfoldable pub is_valid_evidence_update : Formats → UpdateEvidenceRequest → Bool
is_valid_evidence_update f u =
    optionally is_nonblank u.title
    && optionally is_nonblank u.description
    && optionally is_nonblank u.media_type
    && optionally is_nonblank u.source
    && optionally is_nonblank u.provenance
    && optionally is_checksum u.checksum
    && optionally is_nonblank u.processor
    && optionally (is_public_url f) u.public_url
    && optionally (is_public_url f) u.source_url
    && optionally is_nonblank u.locator
    && optionally (is_valid_citation f) u.citation
    && optionally f.is_datetime u.acquisition_at
    && optionally f.is_datetime u.processed_at
    && optionally is_safe_filename u.original_filename
    && optionally is_nonblank u.collection_id
    && optionally is_nonblank u.original_identifier
    && optionally is_nonblank u.acquisition_method
    && optionally is_nonblank u.provenance_note
    && optionally f.is_uuid u.parent_evidence_id
    && optionally is_nonblank u.derivation_type
    && optionally f.is_uuid u.superseded_by
    && optionally is_nonblank u.processing_error
    && leb 1 u.expected_version
    && has_evidence_field u

unfoldable pub parsed_evidence_update : UpdateEvidenceRequest → UpdateEvidenceRequest
parsed_evidence_update u = record u {
  title = Option.map trim u.title;
  description = Option.map trim u.description;
  media_type = Option.map trim u.media_type;
  source = Option.map trim u.source;
  provenance = Option.map trim u.provenance;
  processor = Option.map trim u.processor;
  locator = Option.map trim u.locator;
  citation = Option.map parsed_citation u.citation;
  original_filename = Option.map trim u.original_filename;
  collection_id = Option.map trim u.collection_id;
  original_identifier = Option.map trim u.original_identifier;
  acquisition_method = Option.map trim u.acquisition_method;
  provenance_note = Option.map trim u.provenance_note;
  derivation_type = Option.map trim u.derivation_type;
  processing_error = Option.map trim u.processing_error;
}

-- `patch.status && patch.status !== existing.status`
unfoldable pub changes_status : Option ProcessingStatus → ProcessingStatus → Bool
changes_status none old = false
changes_status (some s) old = not (same_status s old)

-- The evidence that an update makes of the one that is registered. The time of processing is never
-- taken from the request.
unfoldable pub patched :
    RegisteredEvidence → UpdateEvidenceRequest → (now : String) → RegisteredEvidence
patched e u now = record e {
  title = or_else u.title e.title;
  description = or_option u.description e.description;
  media_type = or_else u.media_type e.media_type;
  source = or_else u.source e.source;
  provenance = or_else u.provenance e.provenance;
  visibility = or_else u.visibility e.visibility;
  checksum = or_else u.checksum e.checksum;
  processor = or_option u.processor e.processor;
  status = or_else u.status e.status;
  public_url = or_option u.public_url e.public_url;
  source_url = or_option u.source_url e.source_url;
  locator = or_option u.locator e.locator;
  citation = or_option u.citation e.citation;
  version = e.version + 1;
  acquisition_at = or_option u.acquisition_at e.acquisition_at;
  processed_at = if changes_status u.status e.status then some now else e.processed_at;
  original_filename = or_option u.original_filename e.original_filename;
  collection_id = or_option u.collection_id e.collection_id;
  original_identifier = or_option u.original_identifier e.original_identifier;
  acquisition_method = or_option u.acquisition_method e.acquisition_method;
  provenance_note = or_option u.provenance_note e.provenance_note;
  parent_evidence_id = or_option u.parent_evidence_id e.parent_evidence_id;
  derivation_type = or_option u.derivation_type e.derivation_type;
  superseded_by = or_option u.superseded_by e.superseded_by;
  processing_error = or_option u.processing_error e.processing_error;
}

abbrev pub found_evidence : Option RegisteredEvidence → String → Result RegisteredEvidence
found_evidence none id = err (gateway_error not_found (record_id id))
found_evidence (some e) id = ok e

-- `requireEvidence`
unfoldable pub require_evidence : Registry → String → Result RegisteredEvidence
require_evidence s id = found_evidence (get_registered_evidence s id) id

-- `if (updated.parentEvidenceId) await this.requireEvidence(…)`; the schema lets no empty id pass.
unfoldable pub check_parent : Option String → Registry → Result (Unit {0})
check_parent none s = ok tt
check_parent (some id) s = require_evidence s id >>= λ _. ok tt

-- The checks of `update`, and what it writes, with the version that it expects.
unfoldable pub prepare_evidence_update :
    Formats
    → (id : String) → Option Actor
    → UpdateEvidenceRequest
    → (now : String) → Registry
    → Result (RegisteredEvidence × ℕ)
prepare_evidence_update f id actor input now s = do
  assert_can_evidence EvidenceAction.update actor
  require (is_valid_evidence_update f input) validation_error
  let u = parsed_evidence_update input
  existing ← require_evidence s id
  require (eqb existing.version u.expected_version)
      (gateway_error stale_version (versions u.expected_version (some existing.version)))
  let updated = patched existing u now
  check_parent updated.parent_evidence_id s
  forbid (not (is_visibility_public existing.visibility) && is_visibility_public updated.visibility)
      forbidden_error
  ok (updated, existing.version)

-- `throwPersistenceError`; the registry in memory throws none of the errors that it translates.
unfoldable pub throw_persistence_error : Failure → Failure
throw_persistence_error (repository_persistence_error duplicate_evidence) =
    gateway_error conflict no_details
throw_persistence_error (repository_persistence_error parent_evidence) =
    gateway_error not_found no_details
throw_persistence_error (repository_persistence_error _) =
    gateway_error persistence_failure no_details
throw_persistence_error e = e

abbrev pub rethrown : Result RegisteredEvidence × Registry → Result RegisteredEvidence × Registry
rethrown (ok e, s) = (ok e, s)
rethrown (err e, s) = (err (throw_persistence_error e), s)

unfoldable pub write_evidence :
    Formats → Result (RegisteredEvidence × ℕ) → Registry → Result RegisteredEvidence × Registry
write_evidence f (err e) s = (err e, s)
write_evidence f (ok (updated, expected)) s = rethrown (update_evidence f updated expected s)

-- `update`
unfoldable pub update_registered_evidence :
    Formats
    → (id : String) → Option Actor
    → UpdateEvidenceRequest
    → (now : String) → Registry
    → Result RegisteredEvidence × Registry
update_registered_evidence f id actor input now s =
    write_evidence f (prepare_evidence_update f id actor input now s) s

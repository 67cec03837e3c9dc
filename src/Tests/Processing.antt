-- ===== src/Tests/Processing.antt =====
-- An update of the sample evidence through the evidence gateway.
use mayday_dispatch.Prelude.{refl, some, none, false, ℕ}
use mayday_dispatch.Tests.{running, formats, actor}
use mayday_dispatch.Tests.Registry.{filled}
use mayday_dispatch.Evidence.Registry.{register, update_evidence}
use mayday_dispatch.Gateway.Authorization.{editor}
use mayday_dispatch.EvidenceGateway.{
  UpdateEvidenceRequest, update_registered_evidence, prepare_evidence_update, write_evidence,
  patched, require_evidence, check_parent, is_valid_evidence_update, has_evidence_field,
  parsed_evidence_update, assert_can_evidence, evidence_allows, changes_status,
}
use mayday_dispatch.EvidenceGateway.Processed.{Processed, update_registered_evidence-Processed}

unfoldable processing : Unit {0}
unfolding running register update_evidence update_registered_evidence prepare_evidence_update
    write_evidence patched require_evidence check_parent is_valid_evidence_update has_evidence_field
    parsed_evidence_update assert_can_evidence evidence_allows changes_status
processing = tt

-- A request of a new title, at an expected version
abbrev retitle : ℕ → UpdateEvidenceRequest
retitle expected = record {
  title = some "Log page, both sides";
  description = none;
  media_type = none;
  source = none;
  provenance = none;
  visibility = none;
  checksum = none;
  has_checksum_algorithm = false;
  processor = none;
  status = none;
  public_url = none;
  source_url = none;
  locator = none;
  citation = none;
  acquisition_at = none;
  processed_at = none;
  original_filename = none;
  collection_id = none;
  original_identifier = none;
  acquisition_method = none;
  provenance_note = none;
  parent_evidence_id = none;
  derivation_type = none;
  superseded_by = none;
  processing_error = none;
  expected_version = expected;
}

update_registered_evidence-Processed_example :
    Processed
      (some (actor editor))
      "ev-1"
      (parsed_evidence_update (retitle 1))
      filled
      (update_registered_evidence formats "ev-1"
        (some (actor editor))
        (retitle 1)
        "2026-02-01T00:00:00Z"
        filled).1
unfolding processing
update_registered_evidence-Processed_example =
    update_registered_evidence-Processed formats "ev-1" (some (actor editor)) (retitle 1)
      "2026-02-01T00:00:00Z" filled _ refl

-- ===== src/Evidence.antt =====
-- src/evidence/registry.ts: registered evidence and its schema; the registry is a child.
pub mod Registry
use mayday_dispatch.Prelude.{
  ℕ, String, Bool, true, false, not, ◌&&◌, Option, none, some, ◌==◌, leb, is_some, optionally,
}
use mathlib.Core.Option
use mayday_dispatch.Prelude.Text.{trim}
use mayday_dispatch.Domain.Patterns.{
  Formats, is_plain_text, is_nonblank, is_checksum, is_free_of_slashes,
}
use mayday_dispatch.Domain.Citation.{
  Visibility, Citation, is_public_url, is_valid_citation, parsed_citation, has_disclosure,
}

pub data ProcessingStatus : Type 0 where
  registered processing ready failed rejected superseded : ProcessingStatus

abbrev pub same_status : ProcessingStatus → ProcessingStatus → Bool
same_status registered registered = true
same_status processing processing = true
same_status ready ready = true
same_status failed failed = true
same_status rejected rejected = true
same_status superseded superseded = true
same_status _ _ = false

-- `checksumAlgorithm` is always "sha256", and has no field.
pub record RegisteredEvidence : Type 0 where
  pub id : String
  pub title : String
  pub description : Option String
  pub media_type : String
  pub source : String
  pub provenance : String
  pub visibility : Visibility
  pub checksum : String
  pub processor : Option String
  pub status : ProcessingStatus
  pub public_url : Option String
  pub source_url : Option String
  pub locator : Option String
  pub citation : Option Citation
  pub registered_at : String
  pub version : ℕ
  pub acquisition_at : Option String
  pub processed_at : Option String
  pub original_filename : Option String
  pub collection_id : Option String
  pub original_identifier : Option String
  pub acquisition_method : Option String
  pub provenance_note : Option String
  pub parent_evidence_id : Option String
  pub derivation_type : Option String
  pub superseded_by : Option String
  pub processing_error : Option String

-- `other === id` of an optional id
abbrev pub names : Option String → String → Bool
names none id = false
names (some other) id = other == id

-- `SafeFilenameSchema`
unfoldable pub is_safe_filename : String → Bool
unfolding is_nonblank
is_safe_filename s = is_nonblank s && is_free_of_slashes (trim s)

unfoldable pub is_valid_evidence : Formats → RegisteredEvidence → Bool
unfolding is_safe_filename has_disclosure is_public_url
is_valid_evidence f e =
    f.is_uuid e.id
    && is_plain_text e.title
    && optionally is_plain_text e.description
    && is_nonblank e.media_type
    && is_nonblank e.source
    && is_nonblank e.provenance
    && is_checksum e.checksum
    && optionally is_nonblank e.processor
    && optionally (is_public_url f) e.public_url
    && optionally (is_public_url f) e.source_url
    && optionally is_nonblank e.locator
    && optionally (is_valid_citation f) e.citation
    && f.is_datetime e.registered_at
    && leb 1 e.version
    && optionally f.is_datetime e.acquisition_at
    && optionally f.is_datetime e.processed_at
    && optionally is_safe_filename e.original_filename
    && optionally is_nonblank e.collection_id
    && optionally is_nonblank e.original_identifier
    && optionally is_nonblank e.acquisition_method
    && optionally is_nonblank e.provenance_note
    && optionally f.is_uuid e.parent_evidence_id
    && optionally is_nonblank e.derivation_type
    && optionally f.is_uuid e.superseded_by
    && optionally is_nonblank e.processing_error
    && has_disclosure e.visibility (is_some e.public_url) (is_some e.citation)
    && not (names e.parent_evidence_id e.id)
    && not (names e.superseded_by e.id)

unfoldable pub parsed_evidence : RegisteredEvidence → RegisteredEvidence
parsed_evidence e = record e {
  title = trim e.title;
  description = Option.map trim e.description;
  media_type = trim e.media_type;
  source = trim e.source;
  provenance = trim e.provenance;
  processor = Option.map trim e.processor;
  locator = Option.map trim e.locator;
  citation = Option.map parsed_citation e.citation;
  original_filename = Option.map trim e.original_filename;
  collection_id = Option.map trim e.collection_id;
  original_identifier = Option.map trim e.original_identifier;
  acquisition_method = Option.map trim e.acquisition_method;
  provenance_note = Option.map trim e.provenance_note;
  derivation_type = Option.map trim e.derivation_type;
  processing_error = Option.map trim e.processing_error;
}

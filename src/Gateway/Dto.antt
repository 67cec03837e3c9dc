-- ===== src/Gateway/Dto.antt =====
-- src/application/publication-gateway/dto.ts: the requests of the publication gateway, and its
-- responses. A field with a default has that default where the body leaves it out.
use mayday_dispatch.Prelude.{
  ℕ, String, Bool, not, ◌&&◌, ◌||◌, Option, some, List, map, all, is_empty, is_some, optionally,
  leb,
}
use mathlib.Core.Option
use mayday_dispatch.Prelude.Text.{trim}
use mayday_dispatch.Domain.Patterns.{
  Formats, is_plain_text, is_nonblank, is_slug, is_publication_type,
}
use mayday_dispatch.Domain.Lifecycle.{LifecycleState}
use mayday_dispatch.Domain.Json.{Extensions}
use mayday_dispatch.Domain.Citation.{Visibility, Citation, is_valid_citation, parsed_citation}
use mayday_dispatch.Domain.Blocks.{Block}
use mayday_dispatch.Domain.Blocks.Schema.{is_valid_blocks, parsed_block}
use mayday_dispatch.Domain.Publication.{
  Origin, VerificationStatus, Publication, is_valid_origin, parsed_origin, is_valid_publication,
  parsed_publication,
}
use mayday_dispatch.Audit.{is_filled}

pub record CreateDraftRequest : Type 0 where
  pub slug : String
  pub kind : String  -- `type`
  pub title : String
  pub subtitle : Option String
  pub excerpt : String
  pub body : List String
  pub blocks : Option (List Block)
  pub published_at : Option String
  pub reading_time_minutes : ℕ
  pub tags : List String
  pub visibility : Visibility
  pub sources : List Citation
  pub lifecycle_state : Option LifecycleState
  pub origin : Origin
  pub created_by : String
  pub verification_status : VerificationStatus
  pub internal_notes : Option String
  pub extensions : Option Extensions
  pub evidence_ids : List String
  pub expected_version : Option ℕ

-- `CreateDraftPublicationRequestSchema`
unfoldable pub is_valid_draft : Formats → CreateDraftRequest → Bool
is_valid_draft f d =
    is_slug d.slug
    && is_publication_type d.kind
    && is_plain_text d.title
    && optionally is_plain_text d.subtitle
    && is_plain_text d.excerpt
    && all is_plain_text d.body
    && not (is_empty d.body)
    && optionally (is_valid_blocks f) d.blocks
    && optionally f.is_date d.published_at
    && leb 1 d.reading_time_minutes
    && all is_plain_text d.tags
    && all (is_valid_citation f) d.sources
    && is_valid_origin f d.origin
    && is_nonblank d.created_by
    && optionally is_nonblank d.internal_notes
    && all f.is_uuid d.evidence_ids

unfoldable pub parsed_draft : CreateDraftRequest → CreateDraftRequest
parsed_draft d = record d {
  kind = trim d.kind;
  title = trim d.title;
  subtitle = Option.map trim d.subtitle;
  excerpt = trim d.excerpt;
  body = map trim d.body;
  blocks = Option.map (map parsed_block) d.blocks;
  tags = map trim d.tags;
  sources = map parsed_citation d.sources;
  origin = parsed_origin d.origin;
  created_by = trim d.created_by;
  internal_notes = Option.map trim d.internal_notes;
}

-- The kinds of an edit; `undefined` is the fourth.
pub data EditKind : Type 0 where
  editorial correction substantive_update : EditKind

pub record UpdateRequest : Type 0 where
  pub slug : Option String
  pub kind : Option String
  pub title : Option String
  pub subtitle : Option String
  pub excerpt : Option String
  pub body : Option (List String)
  pub blocks : Option (List Block)
  pub published_at : Option String
  pub reading_time_minutes : Option ℕ
  pub tags : Option (List String)
  pub visibility : Option Visibility
  pub sources : Option (List Citation)
  pub verification_status : Option VerificationStatus
  pub internal_notes : Option String
  pub extensions : Option Extensions
  pub revision_summary : String
  pub revision_type : Option EditKind
  pub correction_note : Option String
  pub correction_explanation : Option String
  pub correction_public : Bool  -- `z.literal(true).optional()`
  pub update_note : Option String
  pub update_explanation : Option String
  pub update_public : Bool  -- `z.literal(true).optional()`
  pub methodology : Option String
  pub caveat : Option String
  pub expected_version : ℕ

-- Some field besides the summary and the version is there.
unfoldable pub has_change : UpdateRequest → Bool
has_change u =
    is_some u.slug
    || is_some u.kind
    || is_some u.title
    || is_some u.subtitle
    || is_some u.excerpt
    || is_some u.body
    || is_some u.blocks
    || is_some u.published_at
    || is_some u.reading_time_minutes
    || is_some u.tags
    || is_some u.visibility
    || is_some u.sources
    || is_some u.verification_status
    || is_some u.internal_notes
    || is_some u.extensions
    || is_some u.revision_type
    || is_some u.correction_note
    || is_some u.correction_explanation
    || u.correction_public
    || is_some u.update_note
    || is_some u.update_explanation
    || u.update_public
    || is_some u.methodology
    || is_some u.caveat

-- The refinements on the notes: a correction has a note of its kind, and only it has one; so does
-- a substantive update.
unfoldable pub notes_agree : Option EditKind → (has_correction has_update : Bool) → Bool
notes_agree (some correction) has_correction has_update = has_correction && not has_update
notes_agree (some substantive_update) has_correction has_update = has_update && not has_correction
notes_agree _ has_correction has_update = not has_correction && not has_update

-- `UpdatePublicationRequestSchema`
unfoldable pub is_valid_update : Formats → UpdateRequest → Bool
unfolding has_change notes_agree
is_valid_update f u =
    optionally is_slug u.slug
    && optionally is_publication_type u.kind
    && optionally is_plain_text u.title
    && optionally is_plain_text u.subtitle
    && optionally is_plain_text u.excerpt
    && optionally (all is_plain_text) u.body
    && optionally (λ b. not (is_empty b)) u.body
    && optionally (is_valid_blocks f) u.blocks
    && optionally f.is_date u.published_at
    && optionally (leb 1) u.reading_time_minutes
    && optionally (all is_plain_text) u.tags
    && optionally (all (is_valid_citation f)) u.sources
    && optionally is_nonblank u.internal_notes
    && is_nonblank u.revision_summary
    && optionally is_plain_text u.correction_note
    && optionally is_plain_text u.correction_explanation
    && optionally is_plain_text u.update_note
    && optionally is_plain_text u.update_explanation
    && optionally is_nonblank u.methodology
    && optionally is_nonblank u.caveat
    && leb 1 u.expected_version
    && has_change u
    && notes_agree u.revision_type (is_some u.correction_note) (is_some u.update_note)

unfoldable pub parsed_update : UpdateRequest → UpdateRequest
parsed_update u = record u {
  kind = Option.map trim u.kind;
  title = Option.map trim u.title;
  subtitle = Option.map trim u.subtitle;
  excerpt = Option.map trim u.excerpt;
  body = Option.map (map trim) u.body;
  blocks = Option.map (map parsed_block) u.blocks;
  tags = Option.map (map trim) u.tags;
  sources = Option.map (map parsed_citation) u.sources;
  internal_notes = Option.map trim u.internal_notes;
  revision_summary = trim u.revision_summary;
  correction_note = Option.map trim u.correction_note;
  correction_explanation = Option.map trim u.correction_explanation;
  update_note = Option.map trim u.update_note;
  update_explanation = Option.map trim u.update_explanation;
  methodology = Option.map trim u.methodology;
  caveat = Option.map trim u.caveat;
}

pub record AttachRequest : Type 0 where
  pub evidence_id : String
  pub expected_version : ℕ
  pub revision_summary : String

-- `AttachEvidenceRequestSchema`
unfoldable pub is_valid_attach : Formats → AttachRequest → Bool
is_valid_attach f a =
    f.is_uuid a.evidence_id && leb 1 a.expected_version && is_nonblank a.revision_summary

unfoldable pub parsed_attach : AttachRequest → AttachRequest
parsed_attach a = record a { revision_summary = trim a.revision_summary }

pub record TransitionRequest : Type 0 where
  pub to : LifecycleState
  pub expected_version : ℕ
  pub revision_summary : String
  pub reason : Option String

-- `TransitionPublicationRequestSchema`
unfoldable pub is_valid_transition : TransitionRequest → Bool
is_valid_transition t =
    leb 1 t.expected_version && is_nonblank t.revision_summary && optionally is_nonblank t.reason

unfoldable pub parsed_transition : TransitionRequest → TransitionRequest
parsed_transition t = record t {
  revision_summary = trim t.revision_summary;
  reason = Option.map trim t.reason;
}

-- `GatewayPublicationResponse`, with the fields of `originLink`
pub record Response : Type 0 where
  pub publication : Publication
  pub publication_id : String
  pub version : ℕ
  pub editorial_url : String
  pub public_url : Option String
  pub origin : Origin
  pub last_synchronized_at : String
  pub correlation_id : String

-- `GatewayPublicationResponseSchema`
unfoldable pub is_valid_response : Formats → Response → Bool
is_valid_response f r =
    is_valid_publication f r.publication
    && f.is_uuid r.publication_id
    && leb 1 r.version
    && is_valid_origin f r.origin
    && f.is_datetime r.last_synchronized_at
    && is_filled r.correlation_id

unfoldable pub parsed_response : Response → Response
parsed_response r = record r {
  publication = parsed_publication r.publication;
  origin = parsed_origin r.origin;
}

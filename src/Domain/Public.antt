-- ===== src/Domain/Public.antt =====
-- src/domain/publication.ts: the public projection of a publication; and the schema of the
-- projection in src/application/publication-gateway/dto.ts.
pub mod Disclosure
use mayday_dispatch.Prelude.{
  ℕ, String, Bool, ◌&&◌, none, List, map, ◌==◌, leb, if◌then◌else◌, all, keep, optionally, Option,
  some,
}
use mathlib.Core.Option
use mayday_dispatch.Prelude.Text.{trim}
use mayday_dispatch.Domain.Patterns.{Formats, is_plain_text, is_slug, is_publication_type}
use mayday_dispatch.Domain.Lifecycle.{LifecycleState, is_public_state}
use mayday_dispatch.Domain.Json.{
  Json, num, str, arr, obj, Fields, get, field_of, text_of, texts, lookup, positive_int,
}
use mayday_dispatch.Domain.Citation.{
  Citation, EvidenceReference, is_disclosed, is_visibility_public, is_public_url, is_valid_citation,
  parsed_citation,
}
use mayday_dispatch.Domain.Blocks.{Block, sanitize_public_blocks}
use mayday_dispatch.Domain.Blocks.Schema.{is_valid_blocks, parsed_block}
use mayday_dispatch.Domain.Publication.{Publication, Revision, is_valid_revision, parsed_revision}
use mayday_dispatch.Gateway.Errors.{Result, ok, err, plain_error, zod_error, ◌>>=◌, ◌>>◌, require}
use mathlib.Core.Option.{some}

pub record PublicEvidence : Type 0 where
  pub id : String
  pub title : String
  pub description : Option String
  pub url : Option String
  pub citation : Option Citation

pub data NoticeKind : Type 0 where
  correction update : NoticeKind

pub record PublicNotice : Type 0 where
  pub kind : NoticeKind
  pub note : String
  pub timestamp : String
  pub version : ℕ
  pub explanation : Option String

pub record PublicPublication : Type 0 where
  pub id : String
  pub slug : String
  pub kind : String
  pub lifecycle_state : LifecycleState
  pub title : String
  pub subtitle : Option String
  pub excerpt : String
  pub body : List String
  pub blocks : List Block
  pub published_at : String
  pub reading_time_minutes : ℕ
  pub tags : List String
  pub revision : Revision
  pub sources : List Citation
  pub evidence : List PublicEvidence
  pub methodology : Option String
  pub caveat : Option String
  pub series_id : Option String
  pub reporting_period : Option String
  pub notice : Option PublicNotice
  pub related_publication_ids : Option (List String)

kind_of : String → Option NoticeKind
kind_of s =
    if s == "correction" then some correction else if s == "update" then some update else none

-- `z.number().int().positive()` on a JSON value
version_of : Option Json → Option ℕ
version_of (some (num d)) = positive_int d
version_of _ = none

plain_text_of : Option Json → Option String
plain_text_of (some (str s)) = if is_plain_text s then some (trim s) else none
plain_text_of _ = none

-- An optional plain text: absent, or valid; `none` is a refusal.
explanation_of : Option Json → Option (Option String)
unfolding plain_text_of
explanation_of none = some none
explanation_of (some v) = Option.map some (plain_text_of (some v))

datetime_of : Formats → Option Json → Option String
datetime_of f (some (str s)) = if f.is_datetime s then some s else none
datetime_of f _ = none

known_kind : Option String → Option NoticeKind
unfolding kind_of
known_kind none = none
known_kind (some s) = kind_of s

notice_from :
    Option NoticeKind
    → Option String
    → Option String
    → Option ℕ
    → Option (Option String)
    → Result (Option PublicNotice)
notice_from (some kind) (some note) (some timestamp) (some version) (some explanation) = ok (
    some (record {
      kind = kind;
      note = note;
      timestamp = timestamp;
      version = version;
      explanation = explanation;
    }))
notice_from _ _ _ _ _ = err zod_error

-- `PublicNoticeSchema.parse`
parse_notice : Formats → Fields → Result (Option PublicNotice)
unfolding known_kind plain_text_of datetime_of version_of explanation_of notice_from field_of
parse_notice f fields =
    notice_from (known_kind (text_of (field_of fields "kind")))
      (plain_text_of (field_of fields "note")) (datetime_of f (field_of fields "timestamp"))
      (version_of (field_of fields "version")) (explanation_of (field_of fields "explanation"))

-- `publicNotice` is read if it is an object; the schema refuses an array.
unfoldable pub notice_of : Formats → Option Json → Result (Option PublicNotice)
unfolding parse_notice
notice_of f (some (obj fields)) = parse_notice f fields
notice_of f (some (arr items)) = err zod_error
notice_of f _ = ok none

-- `Array.isArray(v) ? v.filter(…) : undefined`
abbrev pub texts_of : Option Json → Option (List String)
texts_of (some (arr items)) = some (texts items)
texts_of _ = none

-- The evidence that may be shown.
unfoldable pub disclosed : List EvidenceReference → List EvidenceReference
disclosed es = keep (λ e. is_disclosed e.visibility) es

abbrev pub to_public_evidence : EvidenceReference → PublicEvidence
to_public_evidence e = record {
  id = e.id;
  title = e.title;
  description = e.description;
  url = e.url;
  citation = e.citation;
}

abbrev pub reference_id : EvidenceReference → String
reference_id e = e.id

unfoldable pub project : Publication → Option PublicNotice → PublicPublication
unfolding disclosed lookup get
project p notice = record {
  id = p.id;
  slug = p.slug;
  kind = p.kind;
  lifecycle_state = p.lifecycle_state;
  title = p.title;
  subtitle = p.subtitle;
  excerpt = p.excerpt;
  body = p.body;
  blocks = sanitize_public_blocks (map reference_id (disclosed p.evidence)) p.blocks;
  published_at = p.published_at;
  reading_time_minutes = p.reading_time_minutes;
  tags = p.tags;
  revision = p.revision;
  sources = p.sources;
  evidence = map to_public_evidence (disclosed p.evidence);
  methodology = text_of (lookup "methodology" p.extensions);
  caveat = text_of (lookup "caveat" p.extensions);
  series_id = text_of (get (lookup "overwatch" p.extensions) "seriesId");
  reporting_period = text_of (get (lookup "overwatch" p.extensions) "reportingPeriod");
  notice = notice;
  related_publication_ids = texts_of (lookup "relatedPublicationIds" p.extensions);
}

-- `toPublicPublication`
unfoldable pub to_public_publication : Formats → Publication → Result PublicPublication
unfolding project notice_of
to_public_publication f p = do
  require (is_visibility_public p.visibility) plain_error
  notice ← notice_of f (lookup "publicNotice" p.extensions)
  ok (project p notice)

is_valid_public_evidence : Formats → PublicEvidence → Bool
unfolding is_public_url
is_valid_public_evidence f e =
    f.is_uuid e.id
    && is_plain_text e.title
    && optionally is_plain_text e.description
    && optionally (is_public_url f) e.url
    && optionally (is_valid_citation f) e.citation

is_valid_notice : Formats → PublicNotice → Bool
is_valid_notice f n =
    is_plain_text n.note
    && f.is_datetime n.timestamp
    && leb 1 n.version
    && optionally is_plain_text n.explanation

-- `PublicPublicationResponseSchema`
unfoldable pub is_valid_public : Formats → PublicPublication → Bool
unfolding is_valid_public_evidence is_valid_notice
is_valid_public f p =
    f.is_uuid p.id
    && is_slug p.slug
    && is_publication_type p.kind
    && is_public_state p.lifecycle_state
    && is_plain_text p.title
    && optionally is_plain_text p.subtitle
    && is_plain_text p.excerpt
    && all is_plain_text p.body
    && is_valid_blocks f p.blocks
    && f.is_date p.published_at
    && leb 1 p.reading_time_minutes
    && all is_plain_text p.tags
    && is_valid_revision f p.revision
    && all (is_valid_citation f) p.sources
    && all (is_valid_public_evidence f) p.evidence
    && optionally is_plain_text p.methodology
    && optionally is_plain_text p.caveat
    && optionally is_plain_text p.series_id
    && optionally is_plain_text p.reporting_period
    && optionally (is_valid_notice f) p.notice

unfoldable pub parsed_public_evidence : PublicEvidence → PublicEvidence
parsed_public_evidence e = record e {
  title = trim e.title;
  description = Option.map trim e.description;
  citation = Option.map parsed_citation e.citation;
}

unfoldable pub parsed_notice : PublicNotice → PublicNotice
parsed_notice n = record n { note = trim n.note; explanation = Option.map trim n.explanation }

unfoldable pub parsed_public : PublicPublication → PublicPublication
unfolding parsed_public_evidence parsed_notice
parsed_public p = record p {
  kind = trim p.kind;
  title = trim p.title;
  subtitle = Option.map trim p.subtitle;
  excerpt = trim p.excerpt;
  body = map trim p.body;
  blocks = map parsed_block p.blocks;
  tags = map trim p.tags;
  revision = parsed_revision p.revision;
  sources = map parsed_citation p.sources;
  evidence = map parsed_public_evidence p.evidence;
  methodology = Option.map trim p.methodology;
  caveat = Option.map trim p.caveat;
  series_id = Option.map trim p.series_id;
  reporting_period = Option.map trim p.reporting_period;
  notice = Option.map parsed_notice p.notice;
}

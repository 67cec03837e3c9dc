-- ===== src/Domain/Publication.antt =====
-- src/domain/publication.ts: publications, their origin, provenance and revisions, and the
-- schemas of these (`is_valid_…` and `parsed_…`, as in Domain/Citation.antt).
use mathlib.Core.Option
use mayday_dispatch.Prelude.{
  ℕ, String, Bool, true, false, not, ◌&&◌, ◌||◌, Option, List, map, leb, ltb, all, is_empty,
  is_some, optionally,
}
use mayday_dispatch.Prelude.Text.{trim}
use mayday_dispatch.Domain.Patterns.{
  Formats, is_plain_text, is_nonblank, is_slug, is_publication_type, is_free_of_slashes,
}
use mayday_dispatch.Domain.Lifecycle.{LifecycleState, is_public_state}
use mayday_dispatch.Domain.Json.{Extensions}
use mayday_dispatch.Domain.Citation.{
  Visibility, Citation, EvidenceReference, is_public_url, is_valid_citation, parsed_citation,
  is_valid_reference, parsed_reference,
}
use mayday_dispatch.Domain.Blocks.{Block}
use mayday_dispatch.Domain.Blocks.Schema.{is_valid_blocks, parsed_block}

pub data OriginKind : Type 0 where
  original_reporting academic_publication open_source_intelligence partner_submission : OriginKind

pub record Origin : Type 0 where
  pub kind : OriginKind
  pub label : String
  pub url : Option String
  pub originating_application : String
  pub originating_project : String
  pub stable_object_id : String

-- The kinds for which the schema requires a URL.
abbrev pub needs_url : OriginKind → Bool
needs_url academic_publication = true
needs_url open_source_intelligence = true
needs_url _ = false

unfoldable pub is_valid_origin : Formats → Origin → Bool
is_valid_origin f o =
    is_nonblank o.label
    && optionally (is_public_url f) o.url
    && is_nonblank o.originating_application
    && is_nonblank o.originating_project
    && is_nonblank o.stable_object_id
    && is_free_of_slashes (trim o.stable_object_id)
    && (not (needs_url o.kind) || is_some o.url)

unfoldable pub parsed_origin : Origin → Origin
parsed_origin o = record o {
  label = trim o.label;
  originating_application = trim o.originating_application;
  originating_project = trim o.originating_project;
  stable_object_id = trim o.stable_object_id;
}

pub data VerificationStatus : Type 0 where
  unverified corroborated verified : VerificationStatus

pub record Provenance : Type 0 where
  pub origin : Origin
  pub created_by : String
  pub created_at : String
  pub verification_status : VerificationStatus
  pub internal_notes : Option String

unfoldable pub is_valid_provenance : Formats → Provenance → Bool
is_valid_provenance f p =
    is_valid_origin f p.origin
    && is_nonblank p.created_by
    && f.is_datetime p.created_at
    && optionally is_nonblank p.internal_notes

unfoldable pub parsed_provenance : Provenance → Provenance
parsed_provenance p = record p {
  origin = parsed_origin p.origin;
  created_by = trim p.created_by;
  internal_notes = Option.map trim p.internal_notes;
}

pub data RevisionType : Type 0 where
  upstream_synchronization editorial lifecycle_transition correction substantive_update archive :
      RevisionType

pub record Revision : Type 0 where
  pub version : ℕ
  pub updated_at : String
  pub summary : String
  pub previous_version : Option ℕ
  pub revision_type : RevisionType

unfoldable pub is_valid_revision : Formats → Revision → Bool
is_valid_revision f r =
    leb 1 r.version
    && f.is_datetime r.updated_at
    && is_plain_text r.summary
    && optionally (leb 1) r.previous_version

unfoldable pub parsed_revision : Revision → Revision
parsed_revision r = record r { summary = trim r.summary }

pub record Publication : Type 0 where
  pub id : String
  pub slug : String
  pub kind : String  -- `type`
  pub lifecycle_state : LifecycleState
  pub visibility : Visibility
  pub title : String
  pub subtitle : Option String
  pub excerpt : String
  pub body : List String
  pub blocks : List Block
  pub published_at : String
  pub reading_time_minutes : ℕ
  pub tags : List String
  pub revision : Revision
  pub provenance : Provenance
  pub extensions : Extensions
  pub evidence : List EvidenceReference
  pub sources : List Citation

-- The refinement of `PublicationSchema`.
unfoldable pub is_consistent : Publication → Bool
is_consistent p =
    (not (is_public_state p.lifecycle_state) || not (is_empty p.sources))
    && optionally (λ v. ltb v p.revision.version) p.revision.previous_version

-- The fields of `PublicationSchema` that are texts.
unfoldable pub is_valid_content : Formats → Publication → Bool
is_valid_content f p =
    f.is_uuid p.id
    && is_slug p.slug
    && is_publication_type p.kind
    && is_plain_text p.title
    && optionally is_plain_text p.subtitle
    && is_plain_text p.excerpt
    && all is_plain_text p.body
    && not (is_empty p.body)
    && f.is_date p.published_at
    && leb 1 p.reading_time_minutes
    && all is_plain_text p.tags

unfoldable pub is_valid_publication : Formats → Publication → Bool
is_valid_publication f p =
    is_valid_content f p
    && is_valid_blocks f p.blocks
    && is_valid_revision f p.revision
    && is_valid_provenance f p.provenance
    && all (is_valid_reference f) p.evidence
    && all (is_valid_citation f) p.sources
    && is_consistent p

unfoldable pub parsed_publication : Publication → Publication
parsed_publication p = record p {
  kind = trim p.kind;
  title = trim p.title;
  subtitle = Option.map trim p.subtitle;
  excerpt = trim p.excerpt;
  body = map trim p.body;
  blocks = map parsed_block p.blocks;
  tags = map trim p.tags;
  revision = parsed_revision p.revision;
  provenance = parsed_provenance p.provenance;
  evidence = map parsed_reference p.evidence;
  sources = map parsed_citation p.sources;
}

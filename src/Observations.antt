-- ===== src/Observations.antt =====
-- src/news-observations/contract.ts: observations of the news, and the platform that their schema
-- relies on.
pub mod Schema
pub mod Normal
pub mod Cache
pub mod Sync
pub mod Provider
pub mod Consumer
pub mod Worker
use mathlib.Core.Option
use mayday_dispatch.Prelude.{
  ℕ, String, Bool, true, false, not, ◌&&◌, ◌||◌, Option, none, some, List, [], ◌∷◌, ◌++◌, map, ◌==◌,
  ltb, leb, eqb, if◌then◌else◌, all, length, includes, is_empty, is_some, optionally, or_else, zero,
  suc, ◌+◌, ◌-◌, ◌≤◌, ◌<◌, ◌≡◌, refl, sym, ap, ◌∙◌, subst, ◌≢◌, ◌↔◌, ◌⊎◌, inl, inr, Memᴰ, arith,
  eq_iff, Bool-cases, &&-eq-true, ||-eq-true, not-eq-true, eqb→eq, eqb_refl, ne→eqb, eq_text,
  ne_text, Option-cases, or_option, same_text?, any, keep, find, All, All-mem, all-any, find-true,
  eq_refl,
}
use mayday_dispatch.Prelude.Text.{codes, trim, utf16_length}
use mayday_dispatch.Domain.Json.{Decimal, is_within}
use mayday_dispatch.Domain.Patterns.{Formats, is_unsafe, is_digit, is_letter, word_type}
use mayday_dispatch.Domain.Citation.{is_public_url}

-- What the platform does with texts and dates. `Date.parse` is in milliseconds since the earliest
-- date that it can return, or none for `NaN`; `before x y` is `x.localeCompare(y) <= 0`, and
-- `before_base` compares with the sensitivity "base".
pub record Platform : Type 0 where
  pub formats : Formats
  pub date_parse : String → Option ℕ
  pub lower_case : String → String
  pub before : String → String → Bool
  pub before_base : String → String → Bool

-- `NEWS_OBSERVATION_PROTOCOL`
abbrev pub protocol_name : String
protocol_name = "mayday.news-observation/1"

pub data SourceType : Type 0 where
  rss academic newswire government organization other : SourceType

pub data VerificationState : Type 0 where
  unverified corroborated verified disputed unknown : VerificationState

pub data Freshness : Type 0 where
  current stale unknown : Freshness

pub data Relationship : Type 0 where
  event_location mentioned_location source_location inferred_relevance unknown unresolved :
      Relationship

pub data Confidence : Type 0 where
  unknown low medium high : Confidence

pub data ResolutionMethod : Type 0 where
  source_provided manual_review geocoder inferred unknown : ResolutionMethod

pub data Eligibility : Type 0 where
  eligible ineligible requires_review unknown : Eligibility

pub data Reason : Type 0 where
  source_not_public verification_pending safety_review geography_unresolved duplicate stale
        restricted_source unsupported_content policy_review :
      Reason

pub record Coordinates : Type 0 where
  pub latitude : Decimal
  pub longitude : Decimal

pub record GeographicReference : Type 0 where
  pub id : String
  pub place_name : String
  pub coordinates : Option Coordinates
  pub relationship : Relationship
  pub confidence : Confidence
  pub evidence_ids : List String
  pub provenance : Option String
  pub resolution_method : Option ResolutionMethod

pub record Identity : Type 0 where
  pub observation_id : String
  pub intelligence_document_id : String
  pub source_record_id : Option String
  pub acquisition_id : Option String
  pub revision_id : String

pub record Source : Type 0 where
  pub headline : String
  pub summary : Option String
  pub publisher : String
  pub canonical_url : String
  pub source_type : SourceType
  pub published_at : Option String

pub record Lineage : Type 0 where
  pub originating_system : String
  pub source_reference : String
  pub acquisition_reference : Option String
  pub evidence_ids : List String
  pub verification_state : VerificationState
  pub transformation_lineage : List String
  pub internal_notes : Option String

pub record Topics : Type 0 where
  pub identifiers : List String
  pub source_tags : List String

pub record Temporal : Type 0 where
  pub acquired_at : String
  pub observed_at : String
  pub updated_at : String
  pub freshness : Freshness

pub record PublicFeed : Type 0 where
  pub eligibility : Eligibility
  pub reasons : List Reason

pub record Observation : Type 0 where
  pub protocol : String
  pub identity : Identity
  pub source : Source
  pub provenance : Lineage
  pub topics : Topics
  pub temporal : Temporal
  pub geography : List GeographicReference
  pub related_observation_ids : List String
  pub public_feed : PublicFeed

-- ===== src/Observations/Normal.antt =====
-- src/news-observations/contract.ts: what is kept of an observation, and what is shown of it.
use mathlib.Core.List.{map}
use mayday_dispatch.Prelude.{String, Bool, Option, List, [], ◌∷◌, includes}
use mayday_dispatch.Prelude.Sort.{sort}
use mayday_dispatch.Gateway.Errors.{
  Result, ok, zod_error, plain_error, ◌>>=◌, ◌>>◌, require, forbid,
}
use mayday_dispatch.Observations.{
  Platform, Observation, GeographicReference, Reason, Coordinates, SourceType, Freshness,
  Relationship, Confidence, source_not_public, verification_pending, safety_review,
  geography_unresolved, duplicate, restricted_source, unsupported_content, policy_review,
}
use mayday_dispatch.Observations.Schema.{is_valid_observation, parsed_observation, is_eligible}

-- The text of a reason.
abbrev pub reason_name : Reason → String
reason_name source_not_public = "source-not-public"
reason_name verification_pending = "verification-pending"
reason_name safety_review = "safety-review"
reason_name geography_unresolved = "geography-unresolved"
reason_name duplicate = "duplicate"
reason_name Reason.stale = "stale"
reason_name restricted_source = "restricted-source"
reason_name unsupported_content = "unsupported-content"
reason_name policy_review = "policy-review"

module _ (p : Platform) where
  abbrev pub before_id : GeographicReference → GeographicReference → Bool
  before_id g h = p.before g.id h.id

  abbrev pub before_reason : Reason → Reason → Bool
  before_reason a b = p.before (reason_name a) (reason_name b)

  unfoldable pub order_evidence : GeographicReference → GeographicReference
  unfolding sort
  order_evidence g = record g { evidence_ids = sort p.before g.evidence_ids }

  -- The value that `normalizeNewsObservation` returns for a parsed observation.
  unfoldable pub ordered : Observation → Observation
  unfolding sort order_evidence
  ordered o = record o {
    provenance = record o.provenance {
      evidence_ids = sort p.before o.provenance.evidence_ids;
      transformation_lineage = sort p.before o.provenance.transformation_lineage;
    };
    topics = record {
      identifiers = sort p.before o.topics.identifiers;
      source_tags = sort p.before_base o.topics.source_tags;
    };
    geography = map order_evidence (sort before_id o.geography);
    related_observation_ids = sort p.before o.related_observation_ids;
    public_feed = record o.public_feed { reasons = sort before_reason o.public_feed.reasons };
  }

  -- `normalizeNewsObservation`
  unfoldable pub normalize : Observation → Result Observation
  unfolding is_valid_observation parsed_observation ordered
  normalize o = do require (is_valid_observation p o) zod_error; ok (ordered (parsed_observation o))

  unfoldable pub normalize_each : List Observation → Result (List Observation)
  unfolding normalize
  normalize_each [] = ok []
  normalize_each (o ∷ os) = do first ← normalize o; rest ← normalize_each os; ok (first ∷ rest)

  abbrev pub before_observation : Observation → Observation → Bool
  before_observation a b = p.before a.identity.observation_id b.identity.observation_id

-- The loop over the identifiers, which throws at the first that was seen before.
unfoldable pub check_distinct : (seen : List String) → List Observation → Result (Unit {0})
check_distinct seen [] = ok tt
check_distinct seen (o ∷ os) = do
  forbid (includes o.identity.observation_id seen) plain_error
  check_distinct (o.identity.observation_id ∷ seen) os

module _ (p : Platform) where
  -- `normalizeNewsObservations`
  unfoldable pub normalize_all : List Observation → Result (List Observation)
  unfolding normalize_each check_distinct sort
  normalize_all inputs = do
    observations ← normalize_each p inputs
    check_distinct [] observations
    ok (sort (before_observation p) observations)

pub record PublicGeography : Type 0 where
  pub id : String
  pub place_name : String
  pub coordinates : Option Coordinates
  pub relationship : Relationship
  pub confidence : Confidence

pub record PublicObservation : Type 0 where
  pub protocol : String
  pub observation_id : String
  pub headline : String
  pub summary : Option String
  pub publisher : String
  pub canonical_url : String
  pub source_type : SourceType
  pub published_at : Option String
  pub observed_at : String
  pub updated_at : String
  pub freshness : Freshness
  pub topic_ids : List String
  pub source_tags : List String
  pub geography : List PublicGeography

unfoldable pub public_geography : GeographicReference → PublicGeography
public_geography g = record {
  id = g.id;
  place_name = g.place_name;
  coordinates = g.coordinates;
  relationship = g.relationship;
  confidence = g.confidence;
}

unfoldable pub shown_observation : Observation → PublicObservation
unfolding public_geography
shown_observation o = record {
  protocol = o.protocol;
  observation_id = o.identity.observation_id;
  headline = o.source.headline;
  summary = o.source.summary;
  publisher = o.source.publisher;
  canonical_url = o.source.canonical_url;
  source_type = o.source.source_type;
  published_at = o.source.published_at;
  observed_at = o.temporal.observed_at;
  updated_at = o.temporal.updated_at;
  freshness = o.temporal.freshness;
  topic_ids = o.topics.identifiers;
  source_tags = o.topics.source_tags;
  geography = map public_geography o.geography;
}

-- `toPublicNewsObservation`
unfoldable pub to_public_observation : Observation → Result PublicObservation
unfolding shown_observation
to_public_observation o = do
  require (is_eligible o.public_feed.eligibility) plain_error
  ok (shown_observation o)

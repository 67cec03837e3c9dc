-- ===== src/Observations/Schema.antt =====
-- src/news-observations/contract.ts: the schema of an observation. As in the domain, `is_valid` tells
-- whether the schema accepts a value and `parsed` is what it returns then.
use mathlib.Core.Option
use mayday_dispatch.Prelude.{
  ℕ, String, Bool, true, false, not, ◌&&◌, ◌||◌, Option, none, some, List, [], ◌∷◌, map, ◌==◌, ltb,
  leb, eqb, if◌then◌else◌, all, length, includes, is_empty, is_some, optionally, or_else,
}
use mayday_dispatch.Prelude.Text.{codes, trim, utf16_length}
use mayday_dispatch.Domain.Json.{is_within}
use mayday_dispatch.Domain.Patterns.{Formats, is_unsafe, is_digit, is_letter, word_type}
use mayday_dispatch.Domain.Citation.{is_public_url}
use mayday_dispatch.Observations.{
  Platform, Relationship, Temporal, Coordinates, Eligibility, Source, Identity, Lineage, Topics,
  PublicFeed, Confidence, GeographicReference, Observation, protocol_name, high, eligible,
  unresolved, inferred_relevance,
}

-- `observationText(maximumLength)`
unfoldable pub is_observation_text : ℕ → String → Bool
unfolding is_unsafe trim
is_observation_text maximum s =
    let t = trim s in leb 1 (utf16_length t) && leb (utf16_length t) maximum && not (is_unsafe t)

unfoldable pub is_identifier_code : ℕ → Bool
unfolding is_letter is_digit
is_identifier_code c =
    is_letter c || is_digit c || eqb c b'.' || eqb c b'_' || eqb c b':' || eqb c b'-'

-- `^[A-Za-z0-9][A-Za-z0-9._:-]*$`
unfoldable pub identifier_from : List ℕ → Bool
unfolding is_letter is_digit is_identifier_code
identifier_from [] = false
identifier_from (c ∷ cs) = (is_letter c || is_digit c) && all is_identifier_code cs

-- `IdentifierSchema`
unfoldable pub is_identifier : String → Bool
unfolding identifier_from trim
is_identifier s = let t = trim s in leb (utf16_length t) 200 && identifier_from (codes t)

-- `TopicIdentifierSchema`
unfoldable pub is_topic : String → Bool
unfolding word_type trim
is_topic s = let t = trim s in leb (utf16_length t) 100 && word_type (codes t)

unfoldable pub is_at_most : {A : Type 0} → ℕ → List A → Bool
is_at_most n xs = leb (length xs) n

abbrev pub is_unplaced : Relationship → Bool
is_unplaced Relationship.unknown = true
is_unplaced unresolved = true
is_unplaced _ = false

abbrev pub is_overrated : Relationship → Confidence → Bool
is_overrated inferred_relevance high = true
is_overrated _ _ = false

unfoldable pub is_valid_coordinates : Coordinates → Bool
unfolding is_within
is_valid_coordinates c = is_within 90 c.latitude && is_within 180 c.longitude

-- `GeographicReferenceSchema`
unfoldable pub is_valid_geography : GeographicReference → Bool
unfolding is_identifier is_observation_text is_at_most is_valid_coordinates
is_valid_geography g =
    is_identifier g.id
    && is_observation_text 300 g.place_name
    && optionally is_valid_coordinates g.coordinates
    && all is_identifier g.evidence_ids
    && is_at_most 50 g.evidence_ids
    && optionally (is_observation_text 1000) g.provenance
    && not (is_unplaced g.relationship && is_some g.coordinates)
    && not (is_overrated g.relationship g.confidence)

unfoldable pub parsed_geography : GeographicReference → GeographicReference
parsed_geography g = record g {
  id = trim g.id;
  place_name = trim g.place_name;
  evidence_ids = map trim g.evidence_ids;
  provenance = Option.map trim g.provenance;
}

unfoldable pub is_valid_identity : Identity → Bool
unfolding is_identifier
is_valid_identity i =
    is_identifier i.observation_id
    && is_identifier i.intelligence_document_id
    && optionally is_identifier i.source_record_id
    && optionally is_identifier i.acquisition_id
    && is_identifier i.revision_id

unfoldable pub is_valid_source : Formats → Source → Bool
unfolding is_observation_text is_public_url
is_valid_source f s =
    is_observation_text 500 s.headline
    && optionally (is_observation_text 5000) s.summary
    && is_observation_text 300 s.publisher
    && is_public_url f s.canonical_url
    && optionally f.is_datetime s.published_at

unfoldable pub is_valid_lineage : Lineage → Bool
unfolding is_identifier is_observation_text is_at_most
is_valid_lineage l =
    is_identifier l.originating_system
    && is_identifier l.source_reference
    && optionally is_identifier l.acquisition_reference
    && all is_identifier l.evidence_ids
    && is_at_most 50 l.evidence_ids
    && all (is_observation_text 1000) l.transformation_lineage
    && is_at_most 20 l.transformation_lineage
    && optionally (is_observation_text 2000) l.internal_notes

unfoldable pub is_valid_topics : Topics → Bool
unfolding is_topic is_observation_text is_at_most
is_valid_topics t =
    all is_topic t.identifiers
    && is_at_most 20 t.identifiers
    && all (is_observation_text 100) t.source_tags
    && is_at_most 30 t.source_tags

unfoldable pub is_valid_temporal : Formats → Temporal → Bool
is_valid_temporal f t =
    f.is_datetime t.acquired_at && f.is_datetime t.observed_at && f.is_datetime t.updated_at

-- `NewsObservationSchema`, before its refinement
unfoldable pub is_formed : Formats → Observation → Bool
unfolding is_valid_identity is_valid_source is_valid_lineage is_valid_topics is_valid_temporal
    is_valid_geography is_identifier is_at_most
is_formed f o =
    o.protocol == protocol_name
    && is_valid_identity o.identity
    && is_valid_source f o.source
    && is_valid_lineage o.provenance
    && is_valid_topics o.topics
    && is_valid_temporal f o.temporal
    && all is_valid_geography o.geography
    && is_at_most 25 o.geography
    && all is_identifier o.related_observation_ids
    && is_at_most 50 o.related_observation_ids
    && is_at_most 10 o.public_feed.reasons

unfoldable pub parsed_observation : Observation → Observation
unfolding parsed_geography
parsed_observation o = record {
  protocol = o.protocol;
  identity = record o.identity {
    observation_id = trim o.identity.observation_id;
    intelligence_document_id = trim o.identity.intelligence_document_id;
    source_record_id = Option.map trim o.identity.source_record_id;
    acquisition_id = Option.map trim o.identity.acquisition_id;
    revision_id = trim o.identity.revision_id;
  };
  source = record o.source {
    headline = trim o.source.headline;
    summary = Option.map trim o.source.summary;
    publisher = trim o.source.publisher;
  };
  provenance = record o.provenance {
    originating_system = trim o.provenance.originating_system;
    source_reference = trim o.provenance.source_reference;
    acquisition_reference = Option.map trim o.provenance.acquisition_reference;
    evidence_ids = map trim o.provenance.evidence_ids;
    transformation_lineage = map trim o.provenance.transformation_lineage;
    internal_notes = Option.map trim o.provenance.internal_notes;
  };
  topics = record {
    identifiers = map trim o.topics.identifiers;
    source_tags = map trim o.topics.source_tags;
  };
  temporal = o.temporal;
  geography = map parsed_geography o.geography;
  related_observation_ids = map trim o.related_observation_ids;
  public_feed = o.public_feed;
}

-- `values.find((value, index) => values.indexOf(value) !== index)`
unfoldable pub find_duplicate : (seen values : List String) → Option String
find_duplicate seen [] = none
find_duplicate seen (v ∷ vs) =
    let rest = find_duplicate (v ∷ seen) vs in if includes v seen then some v else rest

-- The result of `duplicate`, as a condition: the empty text counts as none.
unfoldable pub has_duplicate : List String → Bool
unfolding find_duplicate
has_duplicate values = elim (find_duplicate [] values) [ none ↦ false | some v ↦ not (v == "") ]

-- `Date.parse(a) > Date.parse(b)`, which is false when one is `NaN`
abbrev pub is_later : Option ℕ → Option ℕ → Bool
is_later (some a) (some b) = ltb b a
is_later _ _ = false

abbrev pub is_eligible : Eligibility → Bool
is_eligible eligible = true
is_eligible _ = false

unfoldable pub feed_agrees : PublicFeed → Bool
feed_agrees feed =
    if is_eligible feed.eligibility then is_empty feed.reasons else not (is_empty feed.reasons)

module _ (p : Platform) where
  -- The refinement of `NewsObservationSchema`.
  unfoldable pub is_coherent : Observation → Bool
  unfolding has_duplicate feed_agrees
  is_coherent o =
      not (has_duplicate o.topics.identifiers)
      && not (has_duplicate (map p.lower_case o.topics.source_tags))
      && not (has_duplicate o.related_observation_ids)
      && not (has_duplicate o.provenance.evidence_ids)
      && not (has_duplicate (map (λ g. g.id) o.geography))
      && not (includes o.identity.observation_id o.related_observation_ids)
      && not (
          is_later (p.date_parse (or_else o.source.published_at o.temporal.acquired_at))
            (p.date_parse o.temporal.acquired_at))
      && not (is_later (p.date_parse o.temporal.acquired_at) (p.date_parse o.temporal.observed_at))
      && not (is_later (p.date_parse o.temporal.observed_at) (p.date_parse o.temporal.updated_at))
      && feed_agrees o.public_feed

  -- `NewsObservationSchema.safeParse(observation).success`
  unfoldable pub is_valid_observation : Observation → Bool
  unfolding is_formed is_coherent parsed_observation
  is_valid_observation o = is_formed p.formats o && is_coherent (parsed_observation o)

  -- `from && Number.isNaN(Date.parse(from))`
  unfoldable pub is_bad_date : Option String → Bool
  is_bad_date none = false
  is_bad_date (some s) = not (s == "") && not (is_some (p.date_parse s))

  unfoldable pub is_reversed : Option String → Option String → Bool
  is_reversed (some a) (some b) =
      not (a == "") && not (b == "") && is_later (p.date_parse a) (p.date_parse b)
  is_reversed _ _ = false

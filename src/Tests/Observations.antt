-- ===== src/Tests/Observations.antt =====
-- The synchronization of news observations, at sample data.
use mayday_dispatch.Observations.Cache.Reviewed.{Reviewed, review_eligibility-Reviewed}
use mayday_dispatch.Prelude.Sort.{sort}
use mayday_dispatch.Prelude.{
  ◌≡◌, refl, true, false, none, some, List, [], ◌∷◌, ℕ, String, map, leb, if◌then◌else◌,
}
use mayday_dispatch.Domain.Patterns.Host.{Url, is_public}
use mayday_dispatch.Tests.{running, formats}
use mayday_dispatch.Domain.Json.{Decimal}
use mayday_dispatch.Gateway.Errors.{Result, ok}
use mayday_dispatch.Observations.{
  Platform, Observation, SourceType, VerificationState, Freshness, protocol_name, eligible,
  requires_review,
}
use mayday_dispatch.Observations.Schema.{
  is_bad_date, is_reversed, is_valid_observation, is_formed, is_coherent, parsed_observation,
  is_valid_identity, is_valid_source, is_valid_lineage, is_valid_topics, is_valid_temporal,
  is_valid_geography, is_identifier, identifier_from, is_identifier_code, is_topic,
  is_observation_text, is_at_most, has_duplicate, find_duplicate, feed_agrees,
}
use mayday_dispatch.Observations.Normal.{
  shown_observation, normalize, normalize_each, normalize_all, check_distinct, ordered,
  order_evidence,
}
use mayday_dispatch.Observations.Cache.{
  Row, Cache, find_row, update_rows, decided_feed, bounded, backfill, incremental,
  review_eligibility, row_to_review, is_bad_note, trimmed_note, Review, approve,
}
use mayday_dispatch.Observations.Cache.Apply.{apply_page, apply_each, apply_one, advance}
use mayday_dispatch.Observations.Cache.Kept.{Kept}
use mayday_dispatch.Observations.Cache.Pages.{apply_page_again}
use mayday_dispatch.Observations.Sync.{
  SynchronizationBounds, SynchronizationResult, Limits, PageQuery, SourcePage, assert_bounds,
  positive, synchronize, rounds, take_page, is_last,
}
use mayday_dispatch.Observations.Sync.Outcome.{Bounded, synchronize-Bounded, synchronize-Kept}
use mayday_dispatch.Observations.Sync.Calls.{Called, counting, synchronize_calls}
use mayday_dispatch.Observations.Provider.{ObservationQuery, validate_observation_query, matches}
use mayday_dispatch.Observations.Provider.Pages.{follow, follow-all}

abbrev wire_url : Url
wire_url = record { protocol = "https:"; username = ""; password = ""; hostname = "wire.news" }

abbrev pub platform : Platform
platform = record {
  formats = record formats { parse_url = λ s. some wire_url };
  date_parse = λ s. some 0;
  lower_case = λ s. s;
  before = λ a b. true;
  before_base = λ a b. true;
}

-- What the normal form of an observation runs through.
unfoldable pub normalizing : Unit {0}
unfolding normalize normalize_each normalize_all check_distinct ordered order_evidence sort
    is_valid_observation is_formed is_coherent parsed_observation is_bad_date is_reversed
    is_valid_identity is_valid_source is_valid_lineage is_valid_topics is_valid_temporal
    is_valid_geography is_identifier identifier_from is_identifier_code is_topic is_observation_text
    is_at_most has_duplicate find_duplicate feed_agrees is_public
normalizing = tt

-- An observation of a document.
abbrev pub observation : String → String → Observation
observation document headline = record {
  protocol = protocol_name;
  identity = record {
    observation_id = document;
    intelligence_document_id = document;
    source_record_id = none;
    acquisition_id = none;
    revision_id = "rev-1";
  };
  source = record {
    headline = headline;
    summary = none;
    publisher = "Wire";
    canonical_url = "https://wire.news/1";
    source_type = SourceType.newswire;
    published_at = none;
  };
  provenance = record {
    originating_system = "intelligence";
    source_reference = "ref-1";
    acquisition_reference = none;
    evidence_ids = [];
    verification_state = VerificationState.verified;
    transformation_lineage = [];
    internal_notes = none;
  };
  topics = record { identifiers = []; source_tags = [] };
  temporal = record {
    acquired_at = "2026-03-01T00:00:00Z";
    observed_at = "2026-03-01T00:00:00Z";
    updated_at = "2026-03-01T00:00:00Z";
    freshness = Freshness.current;
  };
  geography = [];
  related_observation_ids = [];
  public_feed = record { eligibility = eligible; reasons = [] };
}

abbrev headline_of : Observation → String
headline_of o = o.source.headline

abbrev time : ℕ → String
time k = if leb k 0 then "2026-03-02T00:00:00Z" else "2026-03-02T00:00:01Z"

-- A row whose observation awaits a review.
abbrev waiting : Row
waiting = record {
  document_id = "doc-1";
  fingerprint = "Storm";
  observation = observation "doc-1" "Storm";
  eligibility = requires_review;
  received_at = "2026-03-01T00:00:00Z";
  synchronized_at = "2026-03-01T00:00:00Z";
}

abbrev cache : Cache
cache = record { rows = waiting ∷ []; checkpoints = []; reviews = []; advances = [] }

abbrev number : ℕ → Decimal
number n = record { negative = false; mantissa = n; scale = 0 }

abbrev bounds : SynchronizationBounds
bounds = record {
  page_size = number 2;
  maximum_pages = number 3;
  maximum_accepted = number 3;
  from = none;
  to = none;
}

abbrev limits : Limits
limits = record { page_size = 2; maximum_pages = 3; maximum_accepted = 3; from = none; to = none }

-- A provider of two pages. Its state is the number of pages that it gave.
abbrev provider : PageQuery → ℕ → Result SourcePage × ℕ
provider q n =
    if leb n 0
    then (
      ok (record {
        observations = observation "doc-1" "Flood" ∷ observation "doc-2" "Fire" ∷ [];
        next_cursor = some "c";
      }),
      1,
    )
    else (ok (record { observations = observation "doc-3" "Wind" ∷ []; next_cursor = none }), 2)

unfoldable synchronizing : Unit {0}
unfolding running find_row update_rows apply_page apply_each apply_one advance decided_feed
    assert_bounds positive is_bad_date is_reversed synchronize rounds take_page is_last
synchronizing = tt

synchronize-Kept_example :
    (new : Row) × (find_row "doc-1"
        (synchronize provider headline_of time platform backfill bounds none 0 cache).2.rows
      ≡ some new)
    × Kept waiting new
unfolding synchronizing
synchronize-Kept_example =
    synchronize-Kept provider headline_of time platform backfill bounds none 0 cache "doc-1" waiting
      refl

abbrev result : SynchronizationResult
result = record {
  pages_processed = 1;
  accepted = 3;
  rejected = 0;
  duplicates = 0;
  revision_updates = 1;
  next_cursor = none;
}

synchronize-Bounded_example :
    Bounded limits 1 result
      (synchronize provider headline_of time platform backfill bounds none 0 cache).2
unfolding synchronizing
synchronize-Bounded_example =
    synchronize-Bounded provider headline_of time platform backfill bounds none 0 cache limits
      result refl refl

synchronize_calls_example :
    Called provider headline_of time limits
      (synchronize (counting provider) headline_of time platform backfill bounds none (0, 0) cache)
unfolding synchronizing
synchronize_calls_example =
    synchronize_calls provider headline_of time platform backfill bounds none 0 cache limits refl

-- A provider that has nothing new.
abbrev empty_provider : PageQuery → ℕ → Result SourcePage × ℕ
empty_provider q n = (ok (record { observations = []; next_cursor = some "c" }), n)

abbrev page : List Observation
page = observation "doc-1" "Flood" ∷ observation "doc-2" "Fire" ∷ []

abbrev once : Cache
once = (apply_page headline_of "2026-03-02T00:00:00Z" backfill page none cache).1

apply_page_again_example :
    let again = apply_page headline_of "2026-03-03T00:00:00Z" incremental page none once in
    (again.1.rows ≡ once.rows) × (again.0.duplicates ≡ 2) × (again.0.revision_updates ≡ 0)
unfolding synchronizing
apply_page_again_example =
    apply_page_again headline_of "2026-03-02T00:00:00Z" "2026-03-03T00:00:00Z" backfill incremental
      page none none cache ((refl, tt), (tt, tt))

abbrev query : ObservationQuery
query = record { cursor = none; limit = some (number 1); topic = none; from = none; to = none }

follow-all_example : follow 3 platform page query ≡ ok (map shown_observation page)
unfolding running validate_observation_query bounded is_bad_date is_reversed matches
follow-all_example = follow-all platform page query _ refl refl

abbrev review : Review
review = record {
  document_id = "doc-1";
  prior_eligibility = requires_review;
  eligibility = eligible;
  operator = record { subject_id = "editor-1"; application = none };
  note = some "Checked";
  decided_at = "2026-03-04T00:00:00Z";
}

-- The cache after the review of the observation that awaits it.
abbrev reviewed : Cache
reviewed = record cache {
  rows = record waiting { eligibility = eligible; synchronized_at = "2026-03-04T00:00:00Z" } ∷ [];
  reviews = review ∷ [];
}

review_eligibility-Reviewed_example : Reviewed "doc-1" approve review cache reviewed
unfolding running normalizing review_eligibility row_to_review find_row update_rows is_bad_note
    trimmed_note decided_feed
review_eligibility-Reviewed_example =
    review_eligibility-Reviewed platform "2026-03-04T00:00:00Z" "doc-1" approve
      (record { subject_id = "editor-1"; application = none }) (some " Checked ") cache reviewed
      review refl

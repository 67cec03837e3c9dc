-- ===== src/Observations/Provider.antt =====
-- src/news-observations/provider.ts: the queries of a provider, and the provider of fixtures.
pub mod Limit
pub mod Pages
use mayday_dispatch.Prelude.{
  ℕ, ◌+◌, String, Bool, true, false, not, ◌&&◌, ◌||◌, Option, none, some, List, [], ◌∷◌, ◌==◌, ltb,
  leb, if◌then◌else◌, keep, find, take, drop, length, includes, or_else,
}
use mayday_dispatch.Prelude.Sort.{sort}
use mayday_dispatch.Prelude.Text.Number.{print, read, is_digits}
use mayday_dispatch.Domain.Json.{Decimal}
use mayday_dispatch.Gateway.Errors.{Result, ok, err, plain_error, ◌>>=◌, ◌>>◌, forbid}
use mayday_dispatch.Observations.{Platform, Observation}
use mayday_dispatch.Observations.Schema.{is_eligible, is_bad_date, is_reversed}
use mayday_dispatch.Observations.Normal.{PublicObservation, normalize_all, to_public_observation}
use mayday_dispatch.Observations.Cache.{bounded}

pub data Mode : Type 0 where
  fixture live synchronized_current synchronized_stale degraded unavailable : Mode

-- A query as it is sent, and one with its limit checked.
pub record ObservationQuery : Type 0 where
  pub cursor : Option String
  pub limit : Option Decimal
  pub topic : Option String
  pub from : Option String
  pub to : Option String

pub record ValidQuery : Type 0 where
  pub cursor : Option String
  pub limit : ℕ
  pub topic : Option String
  pub from : Option String
  pub to : Option String

pub record ObservationPage : Type 0 where
  pub observations : List PublicObservation
  pub next_cursor : Option String
  pub mode : Mode

-- `DEFAULT_LIMIT`
abbrev pub default_limit : Decimal
default_limit = record { negative = false; mantissa = 8; scale = 0 }

-- `MAX_LIMIT`
abbrev pub max_limit : ℕ
max_limit = 20

-- `topic && …`: an empty text of a query counts as none.
abbrev pub present_text : Option String → Option String
present_text none = none
present_text (some s) = if s == "" then none else some s

module _ (p : Platform) where
  unfoldable pub validate_observation_query : ObservationQuery → ℕ → Result ValidQuery
  unfolding bounded is_bad_date is_reversed
  validate_observation_query q maximum_limit = do
    limit ← bounded maximum_limit (or_else q.limit default_limit)
    forbid (is_bad_date p q.from || is_bad_date p q.to || is_reversed p q.from q.to) plain_error
    ok (record { cursor = q.cursor; limit = limit; topic = q.topic; from = q.from; to = q.to })

unfoldable pub parse_numeric_cursor : Option String → Result ℕ
unfolding is_digits read
parse_numeric_cursor none = ok 0
parse_numeric_cursor (some s) =
    if s == "" then ok 0 else if is_digits s then ok (read s) else err plain_error

-- `Date.parse(at) >= from`, for a bound that is given
abbrev pub not_before : (bound at : Option ℕ) → Bool
not_before none at = true
not_before (some b) none = false
not_before (some b) (some a) = leb b a

abbrev pub not_after : (bound at : Option ℕ) → Bool
not_after none at = true
not_after (some b) none = false
not_after (some b) (some a) = leb a b

abbrev pub has_topic : Option String → List String → Bool
has_topic none topics = true
has_topic (some t) topics = includes t topics

module _ (p : Platform) where
  abbrev pub date_of : Option String → Option ℕ
  date_of q = elim (present_text q) [ none ↦ none | some s ↦ p.date_parse s ]

  -- The filter of `list`.
  unfoldable pub matches : ValidQuery → Observation → Bool
  matches q o =
      is_eligible o.public_feed.eligibility
      && has_topic (present_text q.topic) o.topics.identifiers
      && not_before (date_of q.from) (p.date_parse o.temporal.updated_at)
      && not_after (date_of q.to) (p.date_parse o.temporal.updated_at)

  -- `compareNewest(a, b) <= 0`
  unfoldable pub newest_first : Observation → Observation → Bool
  newest_first a b =
      p.before b.temporal.updated_at a.temporal.updated_at
      && (not (p.before a.temporal.updated_at b.temporal.updated_at)
          || p.before a.identity.observation_id b.identity.observation_id)

  -- The constructor of `FixtureNewsObservationProvider`.
  unfoldable pub fixture_observations : List Observation → Result (List Observation)
  unfolding normalize_all newest_first sort
  fixture_observations items = do
    observations ← normalize_all p items
    ok (sort newest_first observations)

unfoldable pub to_public_each : List Observation → Result (List PublicObservation)
unfolding to_public_observation
to_public_each [] = ok []
to_public_each (o ∷ os) = do
  first ← to_public_observation o
  rest ← to_public_each os
  ok (first ∷ rest)

-- `nextOffset < filtered.length ? String(nextOffset) : undefined`
unfoldable pub cursor_at : ℕ → List Observation → Option String
unfolding print
cursor_at offset filtered = if ltb offset (length filtered) then some (print offset) else none

unfoldable pub page_at : ℕ → ℕ → List Observation → Result ObservationPage
unfolding to_public_each cursor_at
page_at offset limit filtered = do
  observations ← to_public_each (take limit (drop offset filtered))
  ok (record {
    observations = observations;
    next_cursor = cursor_at (offset + length observations) filtered;
    mode = fixture;
  })

module _ (p : Platform) where
  -- `list`, of the observations that the constructor kept
  unfoldable pub list_fixture : List Observation → ObservationQuery → Result ObservationPage
  unfolding validate_observation_query matches parse_numeric_cursor page_at
  list_fixture observations query = do
    q ← validate_observation_query p query max_limit
    offset ← parse_numeric_cursor q.cursor
    page_at offset q.limit (keep (matches p q) observations)

-- `get`
unfoldable pub get_fixture : List Observation → String → Result (Option PublicObservation)
unfolding to_public_observation
get_fixture observations id =
    elim (find (λ (o : Observation). o.identity.observation_id == id) observations) [
      | none ↦ ok none
      | some o ↦
          if is_eligible o.public_feed.eligibility
          then (do shown ← to_public_observation o; ok (some shown))
          else ok none
    ]

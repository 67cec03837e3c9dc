-- ===== src/Observations/Consumer/Requests.antt =====
-- src/news-observations/live-consumer.ts: the requests of the live provider, and what it accepts of
-- the answers.
use mayday_dispatch.Prelude.{
  ℕ, zero, suc, String, Bool, true, false, not, ◌&&◌, ◌||◌, Option, none, some, List, [], ◌∷◌, ◌++◌,
  ◌==◌, eqb, leb, if◌then◌else◌, keep, length, is_some, all,
}
use mayday_dispatch.Prelude.Text.{codes, utf16_length}
use mayday_dispatch.Domain.Patterns.{is_letter, is_digit}
use mayday_dispatch.Gateway.Errors.{
  Result, ok, err, Failure, capability_incompatible, service_unavailable, invalid_response,
  live_consumer_error, ◌>>=◌, ◌>>◌, require, forbid,
}
use mayday_dispatch.Observations.{Platform, Observation}
use mayday_dispatch.Observations.Schema.{is_eligible}
use mayday_dispatch.Observations.Normal.{
  PublicObservation, normalize, normalize_all, to_public_observation,
}
use mayday_dispatch.Observations.Sync.{SourcePage, is_absent, min}
use mayday_dispatch.Observations.Provider.{
  ObservationQuery, ValidQuery, ObservationPage, live, degraded, present_text,
  validate_observation_query, to_public_each,
}
use mayday_dispatch.Observations.Consumer.{
  Capabilities, Terms, terms_of, Credentials, Answer, Health, healthy, RawPage, Transport,
  capability_negotiated, capability_rejected, malformed_observation_rejected, Status, Consumer,
  live_status, ConsumerOptions, Action, audited, with_retries,
}

-- `withinResponseLimit`
unfoldable pub is_within_bytes : ℕ → Option ℕ → Bool
is_within_bytes maximum none = false
is_within_bytes maximum (some n) = leb n maximum

abbrev pub invalid : Failure
invalid = live_consumer_error invalid_response

is_cursor_code : ℕ → Bool
unfolding is_letter is_digit
is_cursor_code c = is_letter c || is_digit c || eqb c b'.' || eqb c b'_' || eqb c b':' || eqb c b'-'

-- `z.string().min(1).max(500).regex(/^[A-Za-z0-9._:-]+$/).optional()`
unfoldable pub is_cursor : Option String → Bool
unfolding is_cursor_code
is_cursor none = true
is_cursor (some s) = not (s == "") && leb (utf16_length s) 500 && all is_cursor_code (codes s)

-- The checks of an answer before its observations are read.
unfoldable pub accepted_page : ℕ → ℕ → Answer RawPage → Result RawPage
unfolding is_within_bytes is_cursor
accepted_page limit maximum_bytes answer = do
  require (is_within_bytes maximum_bytes answer.bytes) invalid
  elim answer.body [
    | none ↦ err invalid
    | some page ↦ do
      require (leb (length page.observations) limit && is_cursor page.next_cursor) invalid
      ok page
  ]

abbrev pub if_ok :
    {S A B : Type 0} → Result A × Consumer S → (A → Action S B) → Result B × Consumer S
if_ok (ok a, c) k = k a c
if_ok (err e, c) k = (err e, c)

-- An exception of the observations of a page is audited, and becomes an invalid response.
unfoldable pub or_malformed : {S A : Type 0} → Result A → Action S A
or_malformed (ok a) c = (ok a, record c { status = live_status })
or_malformed (err e) c = (err invalid, audited malformed_observation_rejected none c)

module _ (p : Platform) where
  -- The observations that `parsePage` shows.
  unfoldable pub shown_page : RawPage → Result ObservationPage
  unfolding normalize_all to_public_each
  shown_page page = do
    observations ← normalize_all p page.observations
    shown ←
        to_public_each
          (keep (λ (o : Observation). is_eligible o.public_feed.eligibility) observations)
    ok (record { observations = shown; next_cursor = page.next_cursor; mode = live })

  -- The page of `listForSynchronization`, with all observations.
  unfoldable pub source_page : RawPage → Result SourcePage
  unfolding normalize_all
  source_page page = do
    observations ← normalize_all p page.observations
    ok (record { observations = observations; next_cursor = page.next_cursor })

-- `this.options.transport.…(…)` and a check of its answer
abbrev pub asked : {S A B : Type 0} → (S → Result A × S) → (A → Result B) → Action S B
asked call check c =
    let (result, remote) = call c.remote in (result >>= check, record c { remote = remote })

module _ (p : Platform) (now : ℕ) {S : Type 0} (o : ConsumerOptions) (t : Transport S) where
  -- A `LiveConsumerError` of the discovery is thrown on; any other error is an incompatibility.
  unfoldable pub negotiated : Result (Option Capabilities) → Action S Terms
  unfolding terms_of
  negotiated (err (live_consumer_error code)) c = (err (live_consumer_error code), c)
  negotiated (err e) c =
      (err (live_consumer_error capability_incompatible), audited capability_rejected none c)
  negotiated (ok none) c =
      (err (live_consumer_error capability_incompatible), audited capability_rejected none c)
  negotiated (ok (some document)) c = elim (terms_of document) [
    | none ↦ (err (live_consumer_error capability_incompatible), audited capability_rejected none c)
    | some terms ↦ (
      ok terms,
      audited capability_negotiated (some terms.service_id)
          (record c { terms = some terms; status = live_status }),
    )
  ]

  -- `negotiate`
  unfoldable pub negotiate : Action S Terms
  unfolding with_retries negotiated
  negotiate c = elim c.terms [
    | some terms ↦ (ok terms, c)
    | none ↦
        with_retries p now o
          (λ k d.
            let (result, remote) = t.discover_capabilities k d.remote in
            negotiated result (record d { remote = remote }))
          c
  ]

  -- The query of `list`: no topic that the service cannot filter by, and a limit within both bounds.
  unfoldable pub checked_query : ObservationQuery → Terms → Result ValidQuery
  unfolding validate_observation_query
  checked_query q terms = do
    forbid (is_some (present_text q.topic) && not terms.filters_topic) invalid
    validate_observation_query p q (min o.max_page_size terms.maximum_page_size)

  -- One attempt to read a page.
  unfoldable pub fetch :
      {A : Type 0} → (RawPage → Result A) → ValidQuery → Terms → Credentials → Action S A
  unfolding accepted_page or_malformed
  fetch parse q terms k c =
      if_ok (asked (t.list_observations q k) (accepted_page q.limit terms.maximum_response_bytes) c)
        (λ page. or_malformed (parse page))

  -- What follows once the terms are known.
  unfoldable pub list_within :
      {A : Type 0} → (RawPage → Result A) → ObservationQuery → Terms → Action S A
  unfolding checked_query with_retries fetch
  list_within parse q terms c = elim (checked_query q terms) [
    | err e ↦ (err e, c)
    | ok valid ↦ with_retries p now o (fetch parse valid terms) c
  ]

  unfoldable pub list_with : {A : Type 0} → (RawPage → Result A) → ObservationQuery → Action S A
  unfolding negotiate list_within
  list_with parse q c = if_ok (negotiate c) (list_within parse q)

  -- `list`
  unfoldable pub list_live : ObservationQuery → Action S ObservationPage
  unfolding list_with shown_page
  list_live = list_with (shown_page p)

  -- `listForSynchronization`
  unfoldable pub list_for_synchronization : ObservationQuery → Action S SourcePage
  unfolding list_with source_page
  list_for_synchronization = list_with (source_page p)

  -- The answer to `health`.
  unfoldable pub checked_health : ℕ → Answer Health → Result Health
  unfolding is_within_bytes
  checked_health maximum_bytes answer = do
    require (is_within_bytes maximum_bytes answer.bytes) invalid
    elim answer.body [ none ↦ err invalid | some h ↦ ok h ]

  abbrev pub health_status : Health → Status
  health_status healthy = live_status
  health_status _ = record { mode = degraded; detail = some service_unavailable }

  -- `health`
  unfoldable pub read_health : Action S Health
  unfolding negotiate with_retries checked_health
  read_health c = if_ok (negotiate c) (λ terms. with_retries p now o (λ k d.
      if_ok (asked (t.get_status k) (checked_health terms.maximum_response_bytes) d)
        (λ h e. (ok h, record e { status = health_status h }))))

  -- What `get` makes of an answer.
  unfoldable pub shown_one : ℕ → Option (Answer Observation) → Action S (Option PublicObservation)
  unfolding is_within_bytes normalize to_public_observation
  shown_one maximum_bytes none c = (ok none, c)
  shown_one maximum_bytes (some answer) c =
      if not (is_within_bytes maximum_bytes answer.bytes)
      then (err invalid, c)
      else elim answer.body [
        | none ↦ (err invalid, audited malformed_observation_rejected none c)
        | some body ↦ elim (normalize p body) [
          | err e ↦ (err invalid, audited malformed_observation_rejected none c)
          | ok observation ↦
              if is_eligible observation.public_feed.eligibility
              then (to_public_observation observation >>= (λ shown. ok (some shown)), c)
              else (ok none, c)
        ]
      ]

  -- `get`
  unfoldable pub get_live : String → Action S (Option PublicObservation)
  unfolding negotiate with_retries shown_one
  get_live id c = if_ok (negotiate c) (λ terms d.
      if not terms.gets_observation || not t.has_get_observation
      then (ok none, d)
      else with_retries p now o
          (λ k e.
            let (result, remote) = t.get_observation id k e.remote in
            if_ok (result, record e { remote = remote })
              (λ answer. shown_one terms.maximum_response_bytes answer))
          d)

  -- The loop of `listBounded`, on the pages that may still be read; after them a cursor that is left
  -- is an error.
  unfoldable pub list_pages :
      ℕ → ObservationQuery → List ObservationPage → Action S (List ObservationPage)
  unfolding list_live
  list_pages zero q pages c = (err invalid, c)
  list_pages (suc n) q pages c =
      let (result, d) = list_live q c in
      elim result [
        | err e ↦ (err e, d)
        | ok page ↦ elim (is_absent page.next_cursor) [
          | true ↦ (ok (pages ++ page ∷ []), d)
          | false ↦ list_pages n (record q { cursor = page.next_cursor }) (pages ++ page ∷ []) d
        ]
      ]

  -- `listBounded`
  unfoldable pub list_bounded : ObservationQuery → Action S (List ObservationPage)
  unfolding list_pages
  list_bounded q = list_pages o.max_pages_per_operation q []

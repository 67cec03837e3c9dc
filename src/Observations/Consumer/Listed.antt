-- ===== src/Observations/Consumer/Listed.antt =====
-- What `list` of src/news-observations/live-consumer.ts returns.
use mayday_dispatch.Prelude.{
  is_some, not, ℕ, ◌≤◌, ◌≡◌, refl, sym, ap, ◌∙◌, subst, inl, inr, true, arith, Option, none, some,
  Option-cases, length, ◌&&◌, not, is_some,
}
use mayday_dispatch.Gateway.Errors.{
  live_consumer_error, Result, ok, err, Failure, Outcome-cases, ok-injective, >>=-eq-ok,
  forbid-eq-ok, ◌>>=◌,
}
use mayday_dispatch.Observations.{Platform}
use mayday_dispatch.Observations.Provider.Limit.{validate-range}
use mayday_dispatch.Observations.Provider.{
  present_text, ObservationPage, ObservationQuery, ValidQuery, validate_observation_query,
}
use mayday_dispatch.Observations.Consumer.{
  terms_of, Capabilities, Terms, Credentials, Transport, Consumer, ConsumerOptions, live_status,
  note_failure, error_code,
}
use mayday_dispatch.Observations.Consumer.Requests.{
  list_within, shown_page, accepted_page, is_cursor, negotiated, negotiate, fetch, list_live,
  list_with, checked_query,
}
use mayday_dispatch.Observations.Consumer.Retries.{with_retries-ok}
use mayday_dispatch.Observations.Sync.{min}
use mayday_dispatch.Observations.Consumer.Accepted.{accepted_page-ok, if_ok-ok, length-shown_page}

module _ (p : Platform) (now : ℕ) {S : Type 0} (o : ConsumerOptions) (t : Transport S) where
  -- What `list` returns: a page within the bounds of the consumer and of the service.
  pub record Listed (page : ObservationPage) (c : Consumer S) : Type 0 where
    pub terms : Terms
    pub negotiated_terms : c.terms ≡ some terms
    pub few : length page.observations ≤ o.max_page_size
    pub offered : length page.observations ≤ terms.maximum_page_size
    pub cursor : is_cursor page.next_cursor ≡ true
    pub status : c.status ≡ live_status

  abbrev HasTerms : Terms → Consumer S → Type 0
  HasTerms terms c = c.terms ≡ some terms

  negotiated-HasTerms :
      (x : Result (Option Capabilities)) (c : Consumer S) (terms : Terms)
      → (negotiated p now o t x c).0 ≡ ok terms
      → HasTerms terms (negotiated p now o t x c).1
  unfolding negotiated
  negotiated-HasTerms (ok none) c terms h = absurd (cc h)
  negotiated-HasTerms (ok (some document)) c terms h = elim (Option-cases (terms_of document)) [
    | inl e ↦ absurd (cc (rw (negotiated, e) at h))
    | inr (offered, e) ↦
        let same : ok offered ≡ ok terms = rw (negotiated, e) at h in
        rw (negotiated, e) (ap some (ok-injective same))
  ]
  negotiated-HasTerms (err (live_consumer_error code)) c terms h = absurd (cc h)
  negotiated-HasTerms (err _) c terms h = absurd (cc h)

  negotiate-HasTerms :
      (c : Consumer S) (terms : Terms)
      → (negotiate p now o t c).0 ≡ ok terms
      → HasTerms terms (negotiate p now o t c).1
  unfolding negotiate
  negotiate-HasTerms c terms h = elim (Option-cases c.terms) [
    | inr (old, e) ↦
        let same : ok old ≡ ok terms = rw (negotiate, e) at h in
        rw (negotiate, e) (e ∙ ap some (ok-injective same))
    | inl e ↦
        rw (negotiate, e)
          (with_retries-ok p now o
            (λ k d.
              let (result, remote) = t.discover_capabilities k d.remote in
              negotiated p now o t result (record d { remote = remote }))
            c (λ d. Unit {0}) HasTerms (λ k d x f g. tt)
            (λ k d a f g.
              negotiated-HasTerms (t.discover_capabilities k d.remote).0
                (record d { remote = (t.discover_capabilities k d.remote).1 }) a f)
            tt terms (rw (negotiate, e) at h))
  ]

  -- One attempt to read a page that succeeds.
  fetch-Listed :
      (q : ValidQuery) (terms : Terms) (k : Credentials) (c : Consumer S) (page : ObservationPage)
      → q.limit ≤ o.max_page_size
      → q.limit ≤ terms.maximum_page_size
      → (fetch p now o t (shown_page p) q terms k c).0 ≡ ok page
      → HasTerms terms c
      → Listed page (fetch p now o t (shown_page p) q terms k c).1
  unfolding fetch
  fetch-Listed q terms k c page few offered h has =
      let answered = (t.list_observations q k c.remote).0 in
      let check = accepted_page q.limit terms.maximum_response_bytes in
      elim (Outcome-cases (answered >>= check)) [
        | inr (x, e) ↦ absurd (cc (rw (fetch, e) at h))
        | inl (raw, e) ↦ elim (Outcome-cases (shown_page p raw)) [
          | inr (x, f) ↦ absurd (cc (rw (fetch, e, f) at h))
          | inl (shown, f) ↦
              let same : ok shown ≡ ok page = rw (fetch, e, f) at h in
              let (answer, _, accepted) = >>=-eq-ok answered check e in
              let (short, form) =
                accepted_page-ok q.limit terms.maximum_response_bytes answer raw accepted in
              let (shorter, next) = length-shown_page p raw shown f in
              rw (fetch, e, f, ← ok-injective same)
                (record {
                  terms = terms;
                  negotiated_terms = has;
                  few = omega (arith, short, shorter, few);
                  offered = omega (arith, short, shorter, offered);
                  cursor = ap is_cursor next ∙ form;
                  status = refl;
                })
        ]
      ]

  fetch-kept :
      (q : ValidQuery) (terms : Terms) (k : Credentials) (c : Consumer S) (e : Failure)
      → (fetch p now o t (shown_page p) q terms k c).0 ≡ err e
      → HasTerms terms c
      → HasTerms terms (note_failure (error_code e) (fetch p now o t (shown_page p) q terms k c).1)
  unfolding fetch note_failure
  fetch-kept q terms k c e h has =
      elim (Outcome-cases (
        (t.list_observations q k c.remote).0
        >>= accepted_page q.limit terms.maximum_response_bytes)) [
          | inr (x, g) ↦ rw (fetch, g) has
          | inl (raw, g) ↦ elim (Outcome-cases (shown_page p raw)) [
            | inr (x, f) ↦ rw (fetch, g, f) has
            | inl (shown, f) ↦ rw (fetch, g, f) has
          ]
        ]

  checked_query-limit :
      (q : ObservationQuery) (terms : Terms) (valid : ValidQuery)
      → checked_query p now o t q terms ≡ ok valid
      → (valid.limit ≤ o.max_page_size) × (valid.limit ≤ terms.maximum_page_size)
  unfolding checked_query validate_observation_query
  checked_query-limit q terms valid h =
      let (_, h1) =
        forbid-eq-ok (is_some (present_text q.topic) && not terms.filters_topic) _ _ h in
      let (_, small) = validate-range p q (min o.max_page_size terms.maximum_page_size) valid h1 in
      (ground (arith, small), ground (arith, small))

  list_within-Listed :
      (q : ObservationQuery) (terms : Terms) (c : Consumer S) (page : ObservationPage)
      → HasTerms terms c
      → (list_within p now o t (shown_page p) q terms c).0 ≡ ok page
      → Listed page (list_within p now o t (shown_page p) q terms c).1
  unfolding list_within
  list_within-Listed q terms c page has h = elim (Outcome-cases (checked_query p now o t q terms)) [
    | inr (x, f) ↦ absurd (cc (rw (list_within, f) at h))
    | inl (valid, f) ↦
        let (few, offered) = checked_query-limit q terms valid f in
        rw (list_within, f)
          (with_retries-ok p now o (fetch p now o t (shown_page p) valid terms) c (HasTerms terms)
            Listed (λ k d x. fetch-kept valid terms k d x)
            (λ k d a. fetch-Listed valid terms k d a few offered) has page
            (rw (list_within, f) at h))
  ]

  -- A page that `list` returns holds no more observations than the consumer's bound and the one that
  -- the service stated, and its cursor has the form that is asked for; the consumer is live then,
  -- and keeps the terms of the service.
  pub list_live-Listed :
      (q : ObservationQuery) (c : Consumer S) (page : ObservationPage)
      → (list_live p now o t q c).0 ≡ ok page
      → Listed page (list_live p now o t q c).1
  unfolding list_live list_with
  list_live-Listed q c page h =
      let (terms, e, same) =
        if_ok-ok (negotiate p now o t c) (list_within p now o t (shown_page p) q) page h in
      subst (λ (x : Result ObservationPage × Consumer S). Listed page x.1) (sym same)
        (list_within-Listed q terms (negotiate p now o t c).1 page (negotiate-HasTerms c terms e)
          (ap (λ (x : Result ObservationPage × Consumer S). x.0) (sym same) ∙ h))

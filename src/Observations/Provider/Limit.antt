-- ===== src/Observations/Provider/Limit.antt =====
-- The limit that `validateObservationQuery` of src/news-observations/provider.ts lets pass.
use mayday_dispatch.Prelude.{
  ℕ, ◌≤◌, ◌≡◌, ◌≢◌, inl, inr, ◌||◌, arith, leb, or_else, Bool-cases, Option-cases,
}
use mayday_dispatch.Domain.Json.{Decimal, positive_int, positive_int-ne}
use mayday_dispatch.Gateway.Errors.{ok, >>=-eq-ok, forbid-eq-ok, ok-injective}
use mayday_dispatch.Observations.{Platform}
use mayday_dispatch.Observations.Schema.{is_bad_date, is_reversed}
use mayday_dispatch.Observations.Cache.{bounded}
use mayday_dispatch.Observations.Provider.{
  ObservationQuery, ValidQuery, default_limit, validate_observation_query,
}

bounded-range :
    (maximum : ℕ) (d : Decimal) (n : ℕ) → bounded maximum d ≡ ok n → (n ≢ 0) × (n ≤ maximum)
unfolding bounded
bounded-range maximum d n h = elim (Option-cases (positive_int d)) [
  | inl e ↦ absurd (cc (rw (bounded, e) at h))
  | inr (m, e) ↦ elim (Bool-cases (leb m maximum)) [
    | inl f ↦
        let same : ok m ≡ ok n = rw (bounded, e, f) at h in
        rw (← ok-injective same) (positive_int-ne d m e, ground arith)
    | inr f ↦ absurd (cc (rw (bounded, e, f) at h))
  ]
]

-- The limit of a valid query is at least 1 and at most the maximum.
pub validate-range :
    (p : Platform) (query : ObservationQuery) (maximum : ℕ) (q : ValidQuery)
    → validate_observation_query p query maximum ≡ ok q
    → (q.limit ≢ 0) × (q.limit ≤ maximum)
unfolding validate_observation_query
validate-range p query maximum q h =
    let (limit, e, h1) = >>=-eq-ok (bounded maximum (or_else query.limit default_limit)) _ h in
    let (_, h2) =
      forbid-eq-ok
        (is_bad_date p query.from || is_bad_date p query.to || is_reversed p query.from query.to) _
        _ h1 in
    rw (← ok-injective h2) (bounded-range maximum (or_else query.limit default_limit) limit e)

-- ===== src/Observations/Provider/Pages.antt =====
-- Following the cursors of src/news-observations/provider.ts from page to page.
use mathlib.Core.List.{map}
use mayday_dispatch.Prelude.{
  ℕ, zero, suc, ◌+◌, ◌≤◌, ◌<◌, String, ◌≡◌, refl, sym, ap, ◌∙◌, inl, inr, true, false, ◌||◌, Option,
  none, some, List, [], ◌∷◌, ◌++◌, arith, Bool-cases, keep, take, drop, length, All, ltb, leb,
  or_else, ◌≢◌, subst,
}
use mayday_dispatch.Prelude.Text.Number.{print_laws, print}
use mayday_dispatch.Gateway.Errors.{
  Result, ok, err, plain_error, ◌>>=◌, >>=-eq-ok, forbid-eq-ok, ok-injective,
}
use mayday_dispatch.Observations.{Platform, Observation}
use mayday_dispatch.Observations.Schema.{is_eligible, is_bad_date, is_reversed}
use mayday_dispatch.Observations.Normal.{
  PublicObservation, shown_observation, to_public_observation,
}
use mayday_dispatch.Observations.Cache.{bounded}
use mayday_dispatch.Observations.Provider.Limit.{validate-range}
use mayday_dispatch.Observations.Provider.{
  ObservationQuery, ValidQuery, default_limit, max_limit, fixture, matches,
  validate_observation_query, parse_numeric_cursor, to_public_each, cursor_at, page_at,
  list_fixture,
}
use mayday_dispatch.Prelude.Parts.{
  drop-drop, length-drop, length-map, length-take_all, length-take_part, map-append,
  take-append-drop,
}

-- The pages from a query on, each fetched with the cursor of the one before it.
pub follow : ℕ → Platform → List Observation → ObservationQuery → Result (List PublicObservation)
follow zero p observations query = err plain_error
follow (suc n) p observations query = do
  page ← list_fixture p observations query
  elim page.next_cursor [
    | none ↦ ok page.observations
    | some c ↦ do
      rest ← follow n p observations (record query { cursor = some c })
      ok (page.observations ++ rest)
  ]

abbrev IsEligible : Observation → Type 0
IsEligible o = is_eligible o.public_feed.eligibility ≡ true

to_public_each-ok :
    (os : List Observation) → All IsEligible os → to_public_each os ≡ ok (map shown_observation os)
unfolding to_public_each to_public_observation
to_public_each-ok [] h = refl
to_public_each-ok (o ∷ os) (h, hs) = rw (h, to_public_each-ok os hs) refl

All-take : (n : ℕ) (os : List Observation) → All IsEligible os → All IsEligible (take n os)
All-take zero os h = tt
All-take (suc n) [] h = tt
All-take (suc n) (o ∷ os) (h, hs) = (h, All-take n os hs)

All-drop : (n : ℕ) (os : List Observation) → All IsEligible os → All IsEligible (drop n os)
All-drop zero os h = h
All-drop (suc n) [] h = tt
All-drop (suc n) (o ∷ os) (h, hs) = All-drop n os hs

module _ (p : Platform) where
  All-keep : (q : ValidQuery) (os : List Observation) → All IsEligible (keep (matches p q) os)
  unfolding matches
  All-keep q [] = tt
  All-keep q (o ∷ os) = elim (Bool-cases (matches p q o)) [
    | inl e ↦ rw (matches, e) (ground arith, All-keep q os)
    | inr e ↦ rw (matches, e) (All-keep q os)
  ]

  -- The query with another cursor is valid as well.
  validate-cursor :
      (query : ObservationQuery) (q : ValidQuery) (c : Option String)
      → validate_observation_query p query max_limit ≡ ok q
      → validate_observation_query p (record query { cursor = c }) max_limit
        ≡ ok (record q { cursor = c })
  unfolding validate_observation_query
  validate-cursor query q c h =
      let (limit, e, h1) = >>=-eq-ok (bounded max_limit (or_else query.limit default_limit)) _ h in
      let (f, h2) =
        forbid-eq-ok
          (is_bad_date p query.from || is_bad_date p query.to || is_reversed p query.from query.to)
          _ _ h1 in
      rw (validate_observation_query, e, f)
        (ap (λ (x : ValidQuery). ok (record x { cursor = c })) (ok-injective h2))

  page_at-ok :
      (k limit : ℕ) (fs : List Observation)
      → All IsEligible fs
      → page_at k limit fs
        ≡ ok (record {
          observations = map shown_observation (take limit (drop k fs));
          next_cursor = cursor_at (k + length (take limit (drop k fs))) fs;
          mode = fixture;
        })
  unfolding page_at
  page_at-ok k limit fs h =
      rw
        (
          page_at,
          to_public_each-ok (take limit (drop k fs)) (All-take limit (drop k fs) (All-drop k fs h)),
          length-map shown_observation (take limit (drop k fs)),
        )
        refl

  parse-print : (m : ℕ) → parse_numeric_cursor (some (print m)) ≡ ok m
  unfolding parse_numeric_cursor
  parse-print m = simp (parse_numeric_cursor, print_laws)

  list_fixture-ok :
      (observations : List Observation) (query : ObservationQuery) (q : ValidQuery)
      (c : Option String) (k : ℕ)
      → validate_observation_query p query max_limit ≡ ok q
      → parse_numeric_cursor c ≡ ok k
      → list_fixture p observations (record query { cursor = c })
        ≡ page_at k q.limit (keep (matches p q) observations)
  unfolding list_fixture matches
  list_fixture-ok observations query q c k v e =
      rw (list_fixture, validate-cursor query q c v, e) refl

  next_page :
      (k limit : ℕ) (fs : List Observation)
      → limit ≢ 0
      → ltb (k + length (take limit (drop k fs))) (length fs) ≡ true
      → (length (take limit (drop k fs)) ≡ limit) × (k + limit < length fs)
  next_page k limit fs h e = elim (Bool-cases (leb limit (length (drop k fs)))) [
    | inl f ↦
        let full = length-take_part limit (drop k fs) (ground arith) in (full, ground (arith, full))
    | inr f ↦
        let whole = length-take_all limit (drop k fs) (ground arith) in
        absurd (ground (arith, length-drop k fs, ap length whole))
  ]

  last_page :
      (k limit : ℕ) (fs : List Observation)
      → ltb (k + length (take limit (drop k fs))) (length fs) ≡ false
      → take limit (drop k fs) ≡ drop k fs
  last_page k limit fs e = elim (Bool-cases (leb (length (drop k fs)) limit)) [
    | inl f ↦ length-take_all limit (drop k fs) (ground arith)
    | inr f ↦
        let full = length-take_part limit (drop k fs) (ground arith) in
        absurd (ground (arith, full, length-drop k fs))
  ]

  module _ (observations : List Observation) (query : ObservationQuery) (q : ValidQuery)
      (valid : validate_observation_query p query max_limit ≡ ok q) where
    abbrev matching : List Observation
    matching = keep (matches p q) observations

    follow-next :
        (n k : ℕ) (c : Option String)
        → parse_numeric_cursor c ≡ ok k
        → ltb (k + length (take q.limit (drop k matching))) (length matching) ≡ true
        → follow n p observations
            (record query { cursor = some (print (k + length (take q.limit (drop k matching)))) })
          ≡ ok (map shown_observation (drop (k + q.limit) matching))
        → follow (suc n) p observations (record query { cursor = c })
          ≡ ok (map shown_observation (drop k matching))
    unfolding follow cursor_at
    follow-next n k c e more rest =
        rw
          (
            follow,
            list_fixture-ok observations query q c k valid e,
            page_at-ok k q.limit matching (All-keep q observations),
            cursor_at,
            more,
            rest,
          )
          (ap ok (
            sym (
              map-append shown_observation (take q.limit (drop k matching))
                (drop (k + q.limit) matching))
            ∙ ap (map shown_observation) (
                ap (λ t. take q.limit (drop k matching) ++ t) (sym (drop-drop k q.limit matching))
                ∙ take-append-drop q.limit (drop k matching))))

    follow-last :
        (n k : ℕ) (c : Option String)
        → parse_numeric_cursor c ≡ ok k
        → ltb (k + length (take q.limit (drop k matching))) (length matching) ≡ false
        → follow (suc n) p observations (record query { cursor = c })
          ≡ ok (map shown_observation (drop k matching))
    unfolding follow cursor_at
    follow-last n k c e end =
        rw
          (
            follow,
            list_fixture-ok observations query q c k valid e,
            page_at-ok k q.limit matching (All-keep q observations),
            cursor_at,
            end,
            last_page k q.limit matching end,
          )
          refl

    follow_from :
        (n k : ℕ) (c : Option String)
        → parse_numeric_cursor c ≡ ok k
        → length matching < n + k
        → (k ≤ length matching)
        → follow n p observations (record query { cursor = c })
          ≡ ok (map shown_observation (drop k matching))
    follow_from zero k c e enough inside = absurd (omega arith)
    follow_from (suc n) k c e enough inside =
        elim (Bool-cases (ltb (k + length (take q.limit (drop k matching))) (length matching))) [
          | inr end ↦ follow-last n k c e end
          | inl more ↦
              let (some_left, _) = validate-range p query max_limit q valid in
              let (full, room) = next_page k q.limit matching some_left more in
              let next : parse_numeric_cursor
                    (some (print (k + length (take q.limit (drop k matching)))))
                  ≡ ok (k + q.limit) =
                parse-print (k + length (take q.limit (drop k matching)))
                ∙ ap (λ m. ok (k + m)) full in
              follow-next n k c e more
                (follow_from n (k + q.limit) _ next (ground (arith, some_left)) (omega arith))
        ]

    -- Following the cursors of the fixture provider from the first page of a valid query returns,
    -- after at most one page more than there are matching observations, exactly what matches the
    -- query: each matching observation once, in the order of the provider.
    pub follow-all :
        query.cursor ≡ none
        → follow (suc (length matching)) p observations query ≡ ok (map shown_observation matching)
    unfolding parse_numeric_cursor
    follow-all first =
        subst
          (λ c.
            follow (suc (length matching)) p observations (record query { cursor = c })
            ≡ ok (map shown_observation matching))
          (sym first) (follow_from (suc (length matching)) 0 none refl (omega arith) (omega arith))

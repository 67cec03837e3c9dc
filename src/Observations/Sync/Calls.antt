-- ===== src/Observations/Sync/Calls.antt =====
-- How often a synchronization of src/news-observations/synchronized-cache.ts calls its provider.
use mayday_dispatch.Prelude.{
  ℕ, ◌+◌, ◌≤◌, String, ◌≡◌, ◌≢◌, refl, inl, inr, ◌⊎◌, true, false, ◌||◌, Option, arith, ltb, leb,
  Option-cases,
}
use mayday_dispatch.Domain.Json.{Decimal, positive_int, positive_int-ne}
use mayday_dispatch.Gateway.Errors.{
  Result, ok, >>=-eq-ok, require-eq-ok, forbid-eq-ok, ok-injective,
}
use mayday_dispatch.Observations.{Platform, Observation}
use mayday_dispatch.Observations.Cache.{Cache, OperationType}
use mayday_dispatch.Observations.Sync.{
  SynchronizationBounds, SynchronizationResult, Limits, PageQuery, SourcePage, Progress, start,
  result_of, take_page, is_last, rounds, synchronize, assert_bounds, is_absent, positive,
  is_bad_date, is_reversed,
}
use mayday_dispatch.Observations.Sync.Bounded.{take_page-pages, rounds_rule}

-- The provider, with a counter of its calls.
abbrev pub counting :
    {S : Type 0}
    → (PageQuery → S → Result SourcePage × S)
    → PageQuery
    → ℕ × S
    → Result SourcePage × (ℕ × S)
counting provider q (k, s) = let (answer, s') = provider q s in (answer, (k + 1, s'))

positive-ne : (d : Decimal) (n : ℕ) → positive d ≡ ok n → n ≢ 0
unfolding positive
positive-ne d n h = elim (Option-cases (positive_int d)) [
  | inl e ↦ absurd (cc (rw (positive, e) at h))
  | inr (m, e) ↦
      let same : ok m ≡ ok n = rw (positive, e) at h in
      rw (← ok-injective same) (positive_int-ne d m e)
]

module _ {S : Type 0} (provider : PageQuery → S → Result SourcePage × S)
    (fingerprint : Observation → String) (time : ℕ → String) where
  -- At the head of the loop the counter of pages is that of the calls. The cursor is present, or
  -- a round is still to come.
  abbrev Counted : Limits → ℕ → Progress → ℕ × S → Cache → Type 0
  Counted l n t s c =
      (t.pages_processed ≡ s.0)
      × (t.pages_processed + n ≡ l.maximum_pages)
      × ((is_absent t.cursor ≡ false) ⊎ ((n ≢ 0) × (ltb t.accepted l.maximum_accepted ≡ true)))

  -- No more calls than pages; and one more than the counter says when no cursor is left.
  pub record Called (l : Limits) (x : Result SynchronizationResult × (ℕ × S) × Cache) : Type 0 where
    pub few : x.1.0 ≤ l.maximum_pages
    pub one_more :
        (r : SynchronizationResult)
        → x.0 ≡ ok r
        → is_absent r.next_cursor ≡ true
        → x.1.0 ≡ r.pages_processed + 1

  not_last :
      (l : Limits) (page : SourcePage) (t : Progress)
      → is_last l page t ≡ false
      → is_absent page.next_cursor ≡ false
  unfolding is_last
  not_last l page t h = ground arith

  take_page-cursor :
      (op : OperationType) (l : Limits) (page : SourcePage) (t : Progress) (c : Cache)
      → (take_page fingerprint time op l page t c).0.cursor ≡ page.next_cursor
  unfolding take_page
  take_page-cursor op l page t c = refl

  rounds-Called :
      (op : OperationType) (l : Limits) (n : ℕ) (t : Progress) (s : ℕ × S) (c : Cache)
      → Counted l n t s c
      → Called l (rounds (counting provider) fingerprint time n op l t s c)
  rounds-Called op l =
      rounds_rule (counting provider) fingerprint time op l (Counted l) (Called l)
        (λ t s c h. record { few = omega (arith, h.0, h.1); one_more = λ r e f. ground (arith, h) })
        (λ n t s c h e. record {
          few = omega (arith, h.0, h.1);
          one_more = λ r f g. ground (arith, h, e);
        })
        (λ n t s c x h e. record { few = omega (arith, h.0, h.1); one_more = λ r f. absurd (cc f) })
        (λ n t s c page h e.
          let pages = take_page-pages fingerprint time op l page t c in
          record {
            few = omega (arith, h.0, h.1);
            one_more = λ r f g.
                let same : result_of (take_page fingerprint time op l page t c).0 ≡ r = cc f in
                rw (← same) (omega (arith, h.0, pages));
          })
        (λ n t s c page h e f.
          let pages = take_page-pages fingerprint time op l page t c in
          (
            omega (arith, h.0, pages),
            omega (arith, h.1, pages),
            inl (rw (take_page-cursor op l page t c) (not_last l page t f)),
          ))

  -- The limits that pass are positive.
  assert_bounds-positive :
      (p : Platform) (b : SynchronizationBounds) (l : Limits)
      → assert_bounds p b ≡ ok l
      → (l.maximum_pages ≢ 0) × (ltb 0 l.maximum_accepted ≡ true)
  unfolding assert_bounds
  assert_bounds-positive p b l h =
      let (size, _, h1) = >>=-eq-ok (positive b.page_size) _ h in
      let (_, h2) = require-eq-ok (leb size 100) _ _ h1 in
      let (pages, e, h3) = >>=-eq-ok (positive b.maximum_pages) _ h2 in
      let (accepted, f, h4) = >>=-eq-ok (positive b.maximum_accepted) _ h3 in
      let (_, h5) =
        forbid-eq-ok (is_bad_date p b.from || is_bad_date p b.to || is_reversed p b.from b.to) _ _
          h4 in
      let same = ok-injective h5 in
      ground (
        arith,
        positive-ne b.maximum_pages pages e,
        positive-ne b.maximum_accepted accepted f,
        same,
      )

  -- A synchronization calls its provider at most as often as the maximum of pages. When it returns a
  -- result without a cursor, so that no page is left, the number of pages that it reports is one less
  -- than that of the calls which it made.
  pub synchronize_calls :
      (p : Platform) (op : OperationType) (b : SynchronizationBounds) (cursor : Option String)
      (s : S) (c : Cache) (l : Limits)
      → assert_bounds p b ≡ ok l
      → Called l (synchronize (counting provider) fingerprint time p op b cursor (0, s) c)
  unfolding synchronize
  synchronize_calls p op b cursor s c l valid =
      let (pages, accepted) = assert_bounds-positive p b l valid in
      rw (synchronize, valid)
        (rounds-Called op l l.maximum_pages (start cursor) (0, s) c
          (refl, omega arith, inr (pages, accepted)))

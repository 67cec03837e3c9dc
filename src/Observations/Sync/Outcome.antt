-- ===== src/Observations/Sync/Outcome.antt =====
-- What a synchronization of src/news-observations/synchronized-cache.ts comes to.
use mayday_dispatch.Prelude.{
  take, ℕ, suc, ◌+◌, ◌-◌, ◌≤◌, String, ◌≡◌, inl, inr, Option, some, arith, length,
}
use mayday_dispatch.Gateway.Errors.{Result, ok, Outcome-cases}
use mayday_dispatch.Observations.{Platform, Observation}
use mayday_dispatch.Observations.Cache.{Cache, Row, OperationType, find_row}
use mayday_dispatch.Observations.Cache.Kept.{Kept, apply_page-Kept, Kept-trans, Kept-refl}
use mayday_dispatch.Observations.Sync.{
  SynchronizationBounds, SynchronizationResult, Limits, PageQuery, SourcePage, Progress, start,
  result_of, query_of, take_page, rounds, synchronize, assert_bounds,
}
use mayday_dispatch.Observations.Sync.Bounded.{
  Within, take_page-Within, take_page-pages, rounds_rule,
}

-- The result of a synchronization within limits, for a cache that had `size` rows before.
pub record Bounded (l : Limits) (size : ℕ) (r : SynchronizationResult) (c : Cache) : Type 0 where
  pub accepted : r.accepted ≤ l.maximum_accepted
  pub pages : r.pages_processed ≤ l.maximum_pages
  pub counted : r.duplicates + r.revision_updates + length c.rows ≡ r.accepted + size

module _ {S : Type 0} (provider : PageQuery → S → Result SourcePage × S)
    (fingerprint : Observation → String) (time : ℕ → String) where
  abbrev Going : Limits → ℕ → ℕ → Progress → S → Cache → Type 0
  Going l size n t s c = Within l size t c × (t.pages_processed + n ≡ l.maximum_pages)

  abbrev Ends : Limits → ℕ → Result SynchronizationResult × S × Cache → Type 0
  Ends l size x = (r : SynchronizationResult) → x.0 ≡ ok r → Bounded l size r x.2

  Going-Bounded :
      (l : Limits) (size n : ℕ) (t : Progress) (s : S) (c : Cache)
      → Going l size n t s c
      → Bounded l size (result_of t) c
  Going-Bounded l size n t s c (w, e) = record {
    accepted = w.accepted;
    pages = omega arith;
    counted = w.counted;
  }

  Going-Ends :
      (l : Limits) (size n : ℕ) (t : Progress) (s : S) (c : Cache)
      → Going l size n t s c
      → Ends l size (ok (result_of t), s, c)
  Going-Ends l size n t s c g r e =
      let same : result_of t ≡ r = cc e in rw (← same) (Going-Bounded l size n t s c g)

  rounds-Bounded :
      (op : OperationType) (l : Limits) (size n : ℕ) (t : Progress) (s : S) (c : Cache)
      → Going l size n t s c
      → Ends l size (rounds provider fingerprint time n op l t s c)
  rounds-Bounded op l size =
      rounds_rule provider fingerprint time op l (Going l size) (Ends l size)
        (λ t s c g. Going-Ends l size 0 t s c g) (λ n t s c g e. Going-Ends l size (suc n) t s c g)
        (λ n t s c x g e r f. cc f)
        (λ n t s c page g e.
          Going-Ends l size (suc n) (take_page fingerprint time op l page t c).0
            (provider (query_of l t) s).1 (take_page fingerprint time op l page t c).1
            (
              take_page-Within fingerprint time op l page t c size g.0,
              omega (arith, g.1, take_page-pages fingerprint time op l page t c),
            ))
        (λ n t s c page g e f.
          let w = take_page-Within fingerprint time op l page t c size g.0 in
          (
            record { accepted = w.accepted; counted = w.counted },
            omega (arith, g.1, take_page-pages fingerprint time op l page t c),
          ))

  -- A synchronization that returns a result stayed within its bounds: it accepted no more than the
  -- maximum, counted no more pages than the maximum, and every observation that it accepted is
  -- counted as a duplicate or as an update, or added one row to the cache.
  pub synchronize-Bounded :
      (p : Platform) (op : OperationType) (b : SynchronizationBounds) (cursor : Option String)
      (s : S) (c : Cache) (l : Limits) (r : SynchronizationResult)
      → assert_bounds p b ≡ ok l
      → (synchronize provider fingerprint time p op b cursor s c).0 ≡ ok r
      → Bounded l (length c.rows) r (synchronize provider fingerprint time p op b cursor s c).2
  unfolding synchronize
  synchronize-Bounded p op b cursor s c l r valid h =
      let start_holds : Going l (length c.rows) l.maximum_pages (start cursor) s c =
        (record { accepted = omega arith; counted = omega arith }, omega arith) in
      rw (synchronize, valid)
        (rounds-Bounded op l (length c.rows) l.maximum_pages (start cursor) s c start_holds r
          (rw (synchronize, valid) at h))

  abbrev Stays : String → Row → Cache → Type 0
  Stays id old c = (new : Row) × (find_row id c.rows ≡ some new) × Kept old new

  take_page-Stays :
      (op : OperationType) (l : Limits) (page : SourcePage) (t : Progress) (c : Cache) (id : String)
      (old : Row)
      → Stays id old c
      → Stays id old (take_page fingerprint time op l page t c).1
  unfolding take_page
  take_page-Stays op l page t c id old (mid, found, kept) =
      let (new, found', kept') =
        apply_page-Kept fingerprint (time t.pages_processed) op
          (take (l.maximum_accepted - t.accepted) page.observations) page.next_cursor c id mid
          found in
      (new, found', Kept-trans kept kept')

  rounds-Stays :
      (op : OperationType) (l : Limits) (id : String) (old : Row) (n : ℕ) (t : Progress) (s : S)
      (c : Cache)
      → Stays id old c
      → Stays id old (rounds provider fingerprint time n op l t s c).2
  rounds-Stays op l id old =
      rounds_rule provider fingerprint time op l (λ n t s c. Stays id old c) (λ x. Stays id old x.2)
        (λ t s c h. h) (λ n t s c h e. h) (λ n t s c x h e. h)
        (λ n t s c page h e. take_page-Stays op l page t c id old h)
        (λ n t s c page h e f. take_page-Stays op l page t c id old h)

  -- What is stored about a document stays through a whole synchronization, whether it returns a
  -- result or throws after some pages: the eligibility, a review's decision too, and the time at
  -- which it came first.
  pub synchronize-Kept :
      (p : Platform) (op : OperationType) (b : SynchronizationBounds) (cursor : Option String)
      (s : S) (c : Cache) (id : String) (old : Row)
      → find_row id c.rows ≡ some old
      → (new : Row) × (find_row id (synchronize provider fingerprint time p op b cursor s c).2.rows
          ≡ some new)
        × Kept old new
  unfolding synchronize
  synchronize-Kept p op b cursor s c id old h = elim (Outcome-cases (assert_bounds p b)) [
    | inr (e, bad) ↦ rw (synchronize, bad) (old, h, Kept-refl old)
    | inl (l, valid) ↦
        rw (synchronize, valid)
          (rounds-Stays op l id old l.maximum_pages (start cursor) s c (old, h, Kept-refl old))
  ]

-- ===== src/Observations/Sync/Bounded.antt =====
-- `ManualIntelligenceSynchronizer` of src/news-observations/synchronized-cache.ts stays within its
-- bounds, whatever the provider answers.
use mayday_dispatch.Prelude.{
  ℕ, zero, suc, ◌+◌, ◌-◌, ◌≤◌, String, ◌≡◌, refl, List, [], ◌∷◌, arith, length, take, inl, inr,
  false, ltb, Bool-cases,
}
use mayday_dispatch.Observations.{Observation}
use mayday_dispatch.Observations.Cache.{Cache, OperationType}
use mayday_dispatch.Observations.Cache.Pages.{apply_page_counts}
use mayday_dispatch.Observations.Sync.{
  Limits, SourcePage, Progress, take_page, PageQuery, SynchronizationResult, result_of, query_of,
  is_last, rounds,
}
use mayday_dispatch.Gateway.Errors.{Result, ok, err, Failure, Outcome-cases}

length-take : {A : Type 0} (n : ℕ) (xs : List A) → length (take n xs) ≤ n
length-take zero xs = omega arith
length-take (suc n) [] = omega arith
length-take (suc n) (x ∷ xs) = omega (arith, length-take n xs)

-- What holds of the counters and the cache, for a cache that had `size` rows at the start.
pub record Within (l : Limits) (size : ℕ) (t : Progress) (c : Cache) : Type 0 where
  pub accepted : t.accepted ≤ l.maximum_accepted
  pub counted : t.duplicates + t.revision_updates + length c.rows ≡ t.accepted + size

module _ (fingerprint : Observation → String) (time : ℕ → String) where
  pub take_page-Within :
      (op : OperationType) (l : Limits) (page : SourcePage) (t : Progress) (c : Cache) (size : ℕ)
      → Within l size t c
      → let r = take_page fingerprint time op l page t c in Within l size r.0 r.1
  unfolding take_page
  take_page-Within op l page t c size w =
      let records = take (l.maximum_accepted - t.accepted) page.observations in
      let counts =
        apply_page_counts fingerprint (time t.pages_processed) op records page.next_cursor c in
      record {
        accepted =
            omega
              (arith, w.accepted, length-take (l.maximum_accepted - t.accepted) page.observations);
        counted = omega (arith, w.counted, counts);
      }

  pub take_page-pages :
      (op : OperationType) (l : Limits) (page : SourcePage) (t : Progress) (c : Cache)
      → (take_page fingerprint time op l page t c).0.pages_processed ≡ t.pages_processed
  unfolding take_page
  take_page-pages op l page t c = refl

-- The rule of the loop: what every round keeps, and what follows from it at each exit.
module _ {S : Type 0} (provider : PageQuery → S → Result SourcePage × S)
    (fingerprint : Observation → String) (time : ℕ → String) (op : OperationType) (l : Limits)
    (P : ℕ → Progress → S → Cache → Type 0) (Q : Result SynchronizationResult × S × Cache → Type 0)
    (spent : (t : Progress) (s : S) (c : Cache) → P 0 t s c → Q (ok (result_of t), s, c))
    (full : (n : ℕ) (t : Progress) (s : S) (c : Cache)
      → P (suc n) t s c
      → ltb t.accepted l.maximum_accepted ≡ false
      → Q (ok (result_of t), s, c))
    (failed : (n : ℕ) (t : Progress) (s : S) (c : Cache) (e : Failure)
      → P (suc n) t s c
      → (provider (query_of l t) s).0 ≡ err e
      → Q (err e, (provider (query_of l t) s).1, c))
    (last : (n : ℕ) (t : Progress) (s : S) (c : Cache) (page : SourcePage)
      → P (suc n) t s c
      → (provider (query_of l t) s).0 ≡ ok page
      → let r = take_page fingerprint time op l page t c in
        Q (ok (result_of r.0), (provider (query_of l t) s).1, r.1))
    (more : (n : ℕ) (t : Progress) (s : S) (c : Cache) (page : SourcePage)
      → P (suc n) t s c
      → (provider (query_of l t) s).0 ≡ ok page
      → is_last l page t ≡ false
      → let r = take_page fingerprint time op l page t c in
        P n
          (record r.0 { pages_processed = r.0.pages_processed + 1 })
          (provider (query_of l t) s).1
          r.1) where
  pub rounds_rule :
      (n : ℕ) (t : Progress) (s : S) (c : Cache)
      → P n t s c
      → Q (rounds provider fingerprint time n op l t s c)
  unfolding rounds
  rounds_rule zero t s c h = spent t s c h
  rounds_rule (suc n) t s c h = elim (Bool-cases (ltb t.accepted l.maximum_accepted)) [
    | inr e ↦ rw (rounds, e) (full n t s c h e)
    | inl e ↦ elim (Outcome-cases (provider (query_of l t) s).0) [
      | inr (x, f) ↦ rw (rounds, e, f) (failed n t s c x h f)
      | inl (page, f) ↦ elim (Bool-cases (is_last l page t)) [
        | inl g ↦ rw (rounds, e, f, g) (last n t s c page h f)
        | inr g ↦
            let r = take_page fingerprint time op l page t c in
            rw (rounds, e, f, g)
              (rounds_rule n (record r.0 { pages_processed = r.0.pages_processed + 1 })
                (provider (query_of l t) s).1 r.1 (more n t s c page h f g))
      ]
    ]
  ]

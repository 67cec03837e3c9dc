-- ===== src/Observations/Sync.antt =====
-- src/news-observations/synchronized-cache.ts: `ManualIntelligenceSynchronizer`, which reads pages
-- from a provider into the cache within given bounds.
pub mod Bounded
pub mod Outcome
pub mod Calls
use mayday_dispatch.Prelude.{
  ℕ, zero, suc, ◌+◌, ◌-◌, String, Bool, true, false, not, ◌&&◌, ◌||◌, Option, none, some, List,
  ◌==◌, leb, ltb, if◌then◌else◌, take, is_empty, length, is_some, ◌≤◌, ◌<◌, ◌≡◌, refl, sym, ap, ◌∙◌,
  subst, ◌≢◌, ◌↔◌, ◌⊎◌, inl, inr, [], ◌∷◌, ◌++◌, map, Memᴰ, arith, eq_iff, eqb, Bool-cases,
  &&-eq-true, ||-eq-true, not-eq-true, eqb→eq, eqb_refl, ne→eqb, eq_text, ne_text, Option-cases,
  or_else, or_option, optionally, same_text?, any, all, keep, find, includes, All, All-mem, all-any,
  find-true, eq_refl,
}
use mayday_dispatch.Domain.Json.{Decimal, positive_int}
use mayday_dispatch.Gateway.Errors.{Result, ok, err, plain_error, ◌>>=◌, ◌>>◌, require, forbid}
use mayday_dispatch.Observations.{Platform, Observation}
use mayday_dispatch.Observations.Schema.{is_later, is_bad_date, is_reversed}
use mayday_dispatch.Observations.Cache.{Cache, OperationType, backfill, incremental, checkpoint}
use mayday_dispatch.Observations.Cache.Apply.{apply_page}

pub record SynchronizationBounds : Type 0 where
  pub page_size : Decimal
  pub maximum_pages : Decimal
  pub maximum_accepted : Decimal
  pub from : Option String
  pub to : Option String

-- The bounds that `assertBounds` lets pass, as natural numbers.
pub record Limits : Type 0 where
  pub page_size : ℕ
  pub maximum_pages : ℕ
  pub maximum_accepted : ℕ
  pub from : Option String
  pub to : Option String

pub record SynchronizationResult : Type 0 where
  pub pages_processed : ℕ
  pub accepted : ℕ
  pub rejected : ℕ
  pub duplicates : ℕ
  pub revision_updates : ℕ
  pub next_cursor : Option String

-- What is asked of the provider, and what it answers with.
pub record PageQuery : Type 0 where
  pub cursor : Option String
  pub limit : ℕ
  pub from : Option String
  pub to : Option String

pub record SourcePage : Type 0 where
  pub observations : List Observation
  pub next_cursor : Option String

-- `!cursor`: the empty text counts as none.
abbrev pub is_absent : Option String → Bool
is_absent none = true
is_absent (some s) = s == ""

-- `Number.isInteger(n) && n >= 1`, with the number
unfoldable pub positive : Decimal → Result ℕ
unfolding positive_int
positive d = elim (positive_int d) [ none ↦ err plain_error | some n ↦ ok n ]

module _ (p : Platform) where
  -- `assertBounds`
  unfoldable pub assert_bounds : SynchronizationBounds → Result Limits
  unfolding positive is_bad_date is_reversed
  assert_bounds b = do
    page_size ← positive b.page_size
    require (leb page_size 100) plain_error
    maximum_pages ← positive b.maximum_pages
    maximum_accepted ← positive b.maximum_accepted
    forbid (is_bad_date p b.from || is_bad_date p b.to || is_reversed p b.from b.to) plain_error
    ok (record {
      page_size = page_size;
      maximum_pages = maximum_pages;
      maximum_accepted = maximum_accepted;
      from = b.from;
      to = b.to;
    })

-- The variables of the loop.
pub record Progress : Type 0 where
  pub cursor : Option String
  pub pages_processed : ℕ
  pub accepted : ℕ
  pub duplicates : ℕ
  pub revision_updates : ℕ

abbrev pub start : Option String → Progress
start cursor = record {
  cursor = cursor;
  pages_processed = 0;
  accepted = 0;
  duplicates = 0;
  revision_updates = 0;
}

abbrev pub result_of : Progress → SynchronizationResult
result_of t = record {
  pages_processed = t.pages_processed;
  accepted = t.accepted;
  rejected = 0;
  duplicates = t.duplicates;
  revision_updates = t.revision_updates;
  next_cursor = t.cursor;
}

abbrev pub min : ℕ → ℕ → ℕ
min a b = if leb a b then a else b

abbrev pub query_of : Limits → Progress → PageQuery
query_of l t = record {
  cursor = t.cursor;
  limit = min l.page_size (l.maximum_accepted - t.accepted);
  from = l.from;
  to = l.to;
}

-- `!cursor || records.length === 0`
unfoldable pub is_last : Limits → SourcePage → Progress → Bool
is_last l page t =
    is_absent page.next_cursor
    || is_empty (take (l.maximum_accepted - t.accepted) page.observations)

-- `fingerprint` is the platform's digest of an observation, and `time k` is the time at which page
-- `k` is applied.
module _ (fingerprint : Observation → String) (time : ℕ → String) where
  -- The page's share of one round: what is kept of the page, and the counters after it.
  unfoldable pub take_page :
      OperationType → Limits → SourcePage → Progress → Cache → Progress × Cache
  unfolding apply_page
  take_page op l page t c =
      let records = take (l.maximum_accepted - t.accepted) page.observations in
      let (counts, c') =
        apply_page fingerprint (time t.pages_processed) op records page.next_cursor c in
      (
        record t {
          cursor = page.next_cursor;
          accepted = t.accepted + length records;
          duplicates = t.duplicates + counts.duplicates;
          revision_updates = t.revision_updates + counts.revision_updates;
        },
        c',
      )

-- The provider has a state `S`.
module _ {S : Type 0} (list_for_synchronization : PageQuery → S → Result SourcePage × S)
    (fingerprint : Observation → String) (time : ℕ → String) where
  -- The loop of `synchronize`, by recursion on the rounds that `maximumPages` leaves. The counter
  -- of pages is raised only when a further round begins, as the source does.
  unfoldable pub rounds :
      ℕ → OperationType → Limits → Progress → S → Cache → Result SynchronizationResult × S × Cache
  unfolding take_page is_last
  rounds zero op l t s c = (ok (result_of t), s, c)
  rounds (suc n) op l t s c = elim (ltb t.accepted l.maximum_accepted) [
    | false ↦ (ok (result_of t), s, c)
    | true ↦
        let (answer, s') = list_for_synchronization (query_of l t) s in
        elim answer [
          | err e ↦ (err e, s', c)
          | ok page ↦
              let (t', c') = take_page fingerprint time op l page t c in
              elim (is_last l page t) [
                | true ↦ (ok (result_of t'), s', c')
                | false ↦
                    rounds n op l (record t' { pages_processed = t'.pages_processed + 1 }) s' c'
              ]
        ]
  ]

  -- `synchronize`
  unfoldable pub synchronize :
      Platform
      → OperationType
      → SynchronizationBounds
      → Option String
      → S
      → Cache
      → Result SynchronizationResult × S × Cache
  unfolding assert_bounds rounds
  synchronize p op b cursor s c = elim (assert_bounds p b) [
    | err e ↦ (err e, s, c)
    | ok l ↦ rounds l.maximum_pages op l (start cursor) s c
  ]

  -- `backfill`
  unfoldable pub backfill_observations :
      Platform → SynchronizationBounds → S → Cache → Result SynchronizationResult × S × Cache
  unfolding synchronize
  backfill_observations p b s c = synchronize p backfill b none s c

  -- `incrementallySynchronize`
  unfoldable pub incrementally_synchronize :
      Platform
      → (page_size maximum_pages maximum_accepted : Decimal) → S
      → Cache
      → Result SynchronizationResult × S × Cache
  unfolding synchronize checkpoint
  incrementally_synchronize p page_size maximum_pages maximum_accepted s c =
      synchronize p incremental
        (record {
          page_size = page_size;
          maximum_pages = maximum_pages;
          maximum_accepted = maximum_accepted;
          from = none;
          to = none;
        })
        (checkpoint incremental c) s c

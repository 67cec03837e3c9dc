-- ===== src/Observations/Worker/Runs.antt =====
-- What one run of the worker in src/news-observations/sync-worker.ts comes to.
use mayday_dispatch.Prelude.{
  ℕ, zero, suc, ◌+◌, ◌≤◌, String, ◌≡◌, refl, ◌∙◌, inl, inr, Bool, true, false, not, ◌&&◌, Option,
  none, some, Bool-cases,
}
use mayday_dispatch.Gateway.Errors.{Result, ok, err, Failure, Outcome-cases}
use mayday_dispatch.Observations.Sync.{SynchronizationResult}
use mayday_dispatch.Observations.Worker.{
  Worker, WorkerConfig, RunTimes, current, begin_run, end_success, end_failure, failed_status,
  attempt, run_once, record_event, is_transient, category, retry,
}

-- A synchronization, with a counter of its calls.
abbrev pub counted :
    {S : Type 0}
    → (S → Result SynchronizationResult × S)
    → ℕ × S
    → Result SynchronizationResult × (ℕ × S)
counted sync (k, s) = let (result, s') = sync s in (result, (k + 1, s'))

-- The row after a run that had a result or threw, from a row that counted `failures` before.
pub record Ended (id : String) (config : WorkerConfig) (failures : ℕ) (before after : Worker)
    (succeeded : Type 0) (threw : Failure → Type 0) : Type 0 where
  pub on_success : succeeded → (after.row.status ≡ current) × (after.row.consecutive_failures ≡ 0)
  pub on_failure :
      (e : Failure)
      → threw e
      → (after.row.status ≡ failed_status id config (failures + 1) e)
        × (after.row.consecutive_failures ≡ failures + 1)
  pub lease : after.lease ≡ before.lease
  pub is_paused : after.row.is_paused ≡ before.row.is_paused

module _ (id : String) {S : Type 0} (sync : S → Result SynchronizationResult × S)
    (config : WorkerConfig) (times : RunTimes) where
  abbrev Went : ℕ → Worker → Result SynchronizationResult → Worker → Type 0
  Went failures w x after =
      Ended id config failures w after ((r : SynchronizationResult) × (x ≡ ok r)) (λ e. x ≡ err e)

  abbrev Attempted : ℕ → ℕ × S → Worker → Result SynchronizationResult × (ℕ × S) × Worker → Type 0
  Attempted n s w x = (x.1.0 ≤ s.0 + n + 1) × Went w.row.consecutive_failures w x.0 x.2

  -- A run that begins calls the synchronization at most once more than there are retries. When it has
  -- a result the worker is current and counts no failures; when it throws, one more failure is counted
  -- and the status is the one of that error, or degraded at the threshold of failures.
  pub record Ran (s : ℕ × S) (w : Worker)
      (x : Result (Option SynchronizationResult) × (ℕ × S) × Worker) : Type 0 where
    pub few : x.1.0 ≤ s.0 + config.max_retries + 1
    pub ended :
        Ended id config w.row.consecutive_failures w x.2
          ((r : SynchronizationResult) × (x.0 ≡ ok (some r)))
          (λ e. x.0 ≡ err e)

  begun :
      (manual : Bool) (w : Worker)
      → let b = begin_run id manual times w in
        (b.row.consecutive_failures ≡ w.row.consecutive_failures)
        × (b.lease ≡ w.lease)
        × (b.row.is_paused ≡ w.row.is_paused)
  unfolding begin_run record_event
  begun true w = (refl, refl, refl)
  begun false w = (refl, refl, refl)

  end-lease :
      (n : ℕ) (retried : Bool) (s : S) (w : Worker)
      → (attempt id sync config times n retried s w).2.lease ≡ w.lease
  unfolding attempt end_success end_failure record_event
  end-lease zero retried s w = elim (Outcome-cases (sync s).0) [
    | inl (r, e) ↦ rw (attempt, e) refl
    | inr (x, e) ↦ rw (attempt, e) refl
  ]
  end-lease (suc n) retried s w = elim (Outcome-cases (sync s).0) [
    | inl (r, e) ↦ rw (attempt, e) refl
    | inr (x, e) ↦ elim (Bool-cases (is_transient x)) [
      | inr f ↦ rw (attempt, e, f) refl
      | inl f ↦
          rw (attempt, e, f)
            (end-lease n true (sync s).1 (record_event id retry (some (category x)) none w))
    ]
  ]

  -- A run keeps the lease.
  pub run_once-lease :
      (manual : Bool) (s : S) (w : Worker)
      → (run_once id sync config times manual s w).2.lease ≡ w.lease
  unfolding run_once
  run_once-lease manual s w = elim (Bool-cases (w.row.is_paused && not manual)) [
    | inl e ↦ rw (run_once, e) refl
    | inr e ↦
        let b = begin_run id manual times w in
        let x = attempt id sync config times config.max_retries false s b in
        let kept = end-lease config.max_retries false s b ∙ (begun manual w).1 in
        elim (Outcome-cases x.0) [
          | inl (r, f) ↦ rw (run_once, e, f) kept
          | inr (x', f) ↦ rw (run_once, e, f) kept
        ]
  ]

-- ===== src/Observations/Worker.antt =====
-- src/news-observations/sync-worker.ts: the worker that synchronizes at intervals. Its tables are
-- the lease, the one row of its state, and its audit events. The column `updated_at` is left out, and
-- so is the field `stopped`, which nothing reads.
pub mod Runs
pub mod Lease
use mayday_dispatch.Prelude.{
  ℕ, zero, suc, ◌+◌, String, Bool, true, false, not, ◌&&◌, Option, none, some, List, [], ◌∷◌, ◌++◌,
  ◌==◌, leb, if◌then◌else◌, is_some,
}
use mayday_dispatch.Gateway.Errors.{
  Result, ok, err, Failure, LiveErrorCode, live_consumer_error, plain_error,
}
use mayday_dispatch.Observations.Sync.{SynchronizationResult}

pub data WorkerStatus : Type 0 where
  starting current stale degraded unavailable authentication_failed contract_error paused stopped :
      WorkerStatus

pub data WorkerEvent : Type 0 where
  worker_start worker_stop manual_sync_request sync_start sync_success recovery retry sync_failure
        entered_degraded pause resume :
      WorkerEvent

pub record AuditRow : Type 0 where
  pub event : WorkerEvent
  pub instance_id : String
  pub actor : Option String
  pub detail : Option String

pub record WorkerRow : Type 0 where
  pub status : WorkerStatus
  pub instance_id : Option String
  pub last_run_started_at : Option String
  pub last_run_completed_at : Option String
  pub last_successful_sync_at : Option String
  pub last_failure_at : Option String
  pub failure_category : Option String
  pub consecutive_failures : ℕ
  pub next_run_at : Option String
  pub is_paused : Bool
  pub latest_pages : ℕ
  pub latest_accepted : ℕ
  pub latest_duplicates : ℕ
  pub latest_rejected : ℕ

pub record Worker : Type 0 where
  -- who holds the lease
  pub lease : Option String
  pub row : WorkerRow
  pub audits : List AuditRow

pub record WorkerConfig : Type 0 where
  pub degraded_after_failures : ℕ
  pub max_retries : ℕ

-- The times of a run, as texts: its start, the end of the attempts, and when the next one is due.
pub record RunTimes : Type 0 where
  pub started_at : String
  pub completed_at : String
  pub next_at : String

-- `integer`, on the number that the text of a variable denotes; an empty text counts as none, and a
-- text that denotes no natural number is refused as the bounds do, none of which is negative.
unfoldable pub integer :
    (parse : String → Option ℕ) → Option String → (fallback minimum maximum : ℕ) → Result ℕ
integer parse none fallback minimum maximum = ok fallback
integer parse (some s) fallback minimum maximum = if s == "" then ok fallback else elim (parse s) [
  | none ↦ err plain_error
  | some n ↦ if leb minimum n && leb n maximum then ok n else err plain_error
]

-- `codeFor`
unfoldable pub code_for : Failure → WorkerStatus
code_for (live_consumer_error LiveErrorCode.authentication_failed) =
    WorkerStatus.authentication_failed
code_for (live_consumer_error LiveErrorCode.invalid_response) = contract_error
code_for (live_consumer_error LiveErrorCode.capability_incompatible) = contract_error
code_for _ = WorkerStatus.unavailable

-- `transient`
unfoldable pub is_transient : Failure → Bool
is_transient (live_consumer_error LiveErrorCode.timeout) = true
is_transient (live_consumer_error LiveErrorCode.service_unavailable) = true
is_transient (live_consumer_error LiveErrorCode.rate_limited) = true
is_transient _ = false

-- `error.code`, or "unknown"
unfoldable pub category : Failure → String
category (live_consumer_error LiveErrorCode.authentication_failed) = "authentication-failed"
category (live_consumer_error LiveErrorCode.capability_incompatible) = "capability-incompatible"
category (live_consumer_error LiveErrorCode.rate_limited) = "rate-limited"
category (live_consumer_error LiveErrorCode.service_unavailable) = "service-unavailable"
category (live_consumer_error LiveErrorCode.timeout) = "timeout"
category (live_consumer_error LiveErrorCode.invalid_response) = "invalid-response"
category _ = "unknown"

module _ (instance_id : String) where
  -- `audit`
  unfoldable pub record_event : WorkerEvent → Option String → Option String → Worker → Worker
  record_event event detail actor w = record w {
    audits =
        w.audits
        ++ record { event = event; instance_id = instance_id; actor = actor; detail = detail } ∷ [];
  }

  -- `transition` with no further columns
  unfoldable pub transition : WorkerStatus → Worker → Worker
  transition status w = record w {
    row = record w.row { status = status; instance_id = some instance_id };
  }

  -- `acquire`: the lease is inserted unless there is one; then the transaction is rolled back.
  unfoldable pub acquire : Worker → Result (Unit {0}) × Worker
  unfolding transition record_event
  acquire w = if is_some w.lease then (err plain_error, w) else (
    ok tt,
    record_event worker_start none none
        (transition starting (record w { lease = some instance_id })),
  )

  abbrev pub is_held_by : Option String → Bool
  is_held_by none = false
  is_held_by (some holder) = holder == instance_id

  -- `release`: only a lease of this instance is deleted, and the state becomes stopped in any case.
  unfoldable pub release : Worker → Worker
  unfolding transition record_event
  release w =
      record_event worker_stop none none
        (transition stopped (record w { lease = if is_held_by w.lease then none else w.lease }))

  -- `setPause`
  unfoldable pub set_pause : Bool → Option String → Worker → Worker
  unfolding record_event
  set_pause paused? actor w =
      record_event (if paused? then pause else resume) none actor (record w {
        row = record w.row {
          is_paused = paused?;
          status = if paused? then paused else starting;
          next_run_at = none;
        };
      })

  -- The columns that a run begins with.
  unfoldable pub begin_run : Bool → RunTimes → Worker → Worker
  unfolding record_event transition
  begin_run manual times w =
      let requested = if manual then record_event manual_sync_request none none w else w in
      let begun = transition starting requested in
      record_event sync_start none none (record begun {
        row = record begun.row { last_run_started_at = some times.started_at; next_run_at = none };
      })

  -- After an attempt that succeeded; `retried` tells whether it was not the first.
  unfoldable pub end_success : Bool → RunTimes → SynchronizationResult → Worker → Worker
  unfolding record_event transition
  end_success retried times r w =
      let now_current = transition current w in
      record_event (if retried then recovery else sync_success) none none (record now_current {
        row = record now_current.row {
          last_run_completed_at = some times.completed_at;
          last_successful_sync_at = some times.completed_at;
          last_failure_at = none;
          failure_category = none;
          consecutive_failures = 0;
          latest_pages = r.pages_processed;
          latest_accepted = r.accepted;
          latest_duplicates = r.duplicates;
          latest_rejected = r.rejected;
          next_run_at = some times.next_at;
        };
      })

  abbrev pub is_unavailable : WorkerStatus → Bool
  is_unavailable WorkerStatus.unavailable = true
  is_unavailable _ = false

  abbrev pub failed_status : WorkerConfig → ℕ → Failure → WorkerStatus
  failed_status config failures e =
      if leb config.degraded_after_failures failures && is_unavailable (code_for e)
      then WorkerStatus.degraded
      else code_for e

  abbrev pub is_degraded : WorkerStatus → Bool
  is_degraded WorkerStatus.degraded = true
  is_degraded _ = false

  -- After the last attempt failed.
  unfoldable pub end_failure : WorkerConfig → RunTimes → Failure → Worker → Worker
  unfolding record_event transition code_for category
  end_failure config times e w =
      let failures = w.row.consecutive_failures + 1 in
      let next = failed_status config failures e in
      let failed = transition next w in
      record_event (if is_degraded next then entered_degraded else sync_failure) (some (category e))
        none
        (record failed {
          row = record failed.row {
            last_run_completed_at = some times.completed_at;
            last_failure_at = some times.completed_at;
            failure_category = some (category e);
            consecutive_failures = failures;
            next_run_at = some times.next_at;
          };
        })

  -- `sync` is one call of `incrementallySynchronize`, raced with the time limit of a run: when that
  -- passes first, the result is a timeout.
  module _ {S : Type 0} (sync : S → Result SynchronizationResult × S) (config : WorkerConfig)
      (times : RunTimes) where
    -- The loop over the attempts, on the retries that are left.
    unfoldable pub attempt : ℕ → Bool → S → Worker → Result SynchronizationResult × S × Worker
    unfolding end_success end_failure is_transient record_event category
    attempt zero retried s w =
        let (result, s') = sync s in
        elim result [
          | ok r ↦ (ok r, s', end_success retried times r w)
          | err e ↦ (err e, s', end_failure config times e w)
        ]
    attempt (suc n) retried s w =
        let (result, s') = sync s in
        elim result [
          | ok r ↦ (ok r, s', end_success retried times r w)
          | err e ↦ elim (is_transient e) [
            | false ↦ (err e, s', end_failure config times e w)
            | true ↦ attempt n true s' (record_event retry (some (category e)) none w)
          ]
        ]

    -- `runOnce`; none stands for a run that is paused.
    unfoldable pub run_once : Bool → S → Worker → Result (Option SynchronizationResult) × S × Worker
    unfolding begin_run attempt
    run_once manual s w =
        if w.row.is_paused && not manual
        then (ok none, s, w)
        else let (result, s', w') = attempt config.max_retries false s (begin_run manual times w) in
          elim result [ ok r ↦ (ok (some r), s', w') | err e ↦ (err e, s', w') ]

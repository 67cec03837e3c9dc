-- ===== src/Tests/Worker.antt =====
-- The worker of the synchronization, at sample data.
use mayday_dispatch.Prelude.{◌≡◌, refl, true, false, none, [], ℕ, leb, if◌then◌else◌}
use mayday_dispatch.Gateway.Errors.{
  Result, ok, err, plain_error, live_consumer_error, LiveErrorCode,
}
use mayday_dispatch.Observations.Sync.{SynchronizationResult}
use mayday_dispatch.Observations.Worker.{
  Worker, WorkerConfig, RunTimes, acquire, release, set_pause, stopped,
}
use mayday_dispatch.Observations.Worker.Lease.{Meanwhile, acquire-exclusive}

abbrev worker : Worker
worker = record {
  lease = none;
  row = record {
    status = stopped;
    instance_id = none;
    last_run_started_at = none;
    last_run_completed_at = none;
    last_successful_sync_at = none;
    last_failure_at = none;
    failure_category = none;
    consecutive_failures = 0;
    next_run_at = none;
    is_paused = false;
    latest_pages = 0;
    latest_accepted = 0;
    latest_duplicates = 0;
    latest_rejected = 0;
  };
  audits = [];
}

abbrev config : WorkerConfig
config = record { degraded_after_failures = 3; max_retries = 2 }

abbrev times : RunTimes
times = record { started_at = "10:00"; completed_at = "10:01"; next_at = "10:05" }

abbrev result : SynchronizationResult
result = record {
  pages_processed = 0;
  accepted = 1;
  rejected = 0;
  duplicates = 0;
  revision_updates = 0;
  next_cursor = none;
}

-- It times out once, and then it has a result.
abbrev flaky : ℕ → Result SynchronizationResult × ℕ
flaky n = if leb n 0 then (err (live_consumer_error LiveErrorCode.timeout), 1) else (ok result, 2)

abbrev holding_lease : Worker
holding_lease = (acquire "worker-1" worker).1

meanwhile :
    Meanwhile "worker-1" holding_lease
      (release "worker-2" (set_pause "worker-2" true none holding_lease))
meanwhile =
    Meanwhile.releases "worker-2" refl (Meanwhile.pauses "worker-2" true none Meanwhile.nothing)

acquire-exclusive_example :
    acquire "worker-2" (release "worker-2" (set_pause "worker-2" true none holding_lease))
    ≡ (err plain_error, release "worker-2" (set_pause "worker-2" true none holding_lease))
unfolding acquire
acquire-exclusive_example =
    acquire-exclusive "worker-1" "worker-2" worker holding_lease _ refl meanwhile

-- ===== src/Observations/Worker/Lease.antt =====
-- The lease of the worker in src/news-observations/sync-worker.ts.
use mayday_dispatch.Prelude.{
  String, ◌≡◌, refl, sym, ◌∙◌, ap, Bool, false, Option, some, ◌==◌, inl, inr, Option-cases,
}
use mayday_dispatch.Gateway.Errors.{Result, ok, err, plain_error}
use mayday_dispatch.Observations.Sync.{SynchronizationResult}
use mayday_dispatch.Observations.Worker.{
  Worker, WorkerConfig, RunTimes, acquire, release, set_pause, run_once, record_event,
}
use mayday_dispatch.Observations.Worker.Runs.{run_once-lease}

-- What the instances of the worker do, in any order, until `holder` releases the lease.
pub data Meanwhile (holder : String) (w : Worker) : Worker → Type 1 where
  nothing : Meanwhile holder w w
  acquires :
      {v : Worker} (other : String) → Meanwhile holder w v → Meanwhile holder w (acquire other v).1
  releases :
      {v : Worker} (other : String)
      → (holder == other) ≡ false
      → Meanwhile holder w v
      → Meanwhile holder w (release other v)
  pauses :
      {v : Worker} (other : String) (paused? : Bool) (actor : Option String)
      → Meanwhile holder w v
      → Meanwhile holder w (set_pause other paused? actor v)
  runs :
      {v : Worker} {S : Type 0} (other : String) (sync : S → Result SynchronizationResult × S)
      (config : WorkerConfig) (times : RunTimes) (manual : Bool) (s : S)
      → Meanwhile holder w v
      → Meanwhile holder w (run_once other sync config times manual s v).2

held_acquire :
    (holder other : String) (w : Worker)
    → w.lease ≡ some holder
    → acquire other w ≡ (err plain_error, w)
unfolding acquire
held_acquire holder other w h = rw (acquire, h) refl

held_release :
    (holder other : String) (w : Worker)
    → (holder == other) ≡ false
    → w.lease ≡ some holder
    → (release other w).lease ≡ some holder
unfolding release record_event
held_release holder other w e h = rw (release, h, e) refl

held_pause :
    (other : String) (paused? : Bool) (actor : Option String) (w : Worker)
    → (set_pause other paused? actor w).lease ≡ w.lease
unfolding set_pause record_event
held_pause other paused? actor w = refl

Meanwhile-lease :
    (holder : String) (w v : Worker)
    → w.lease ≡ some holder
    → Meanwhile holder w v
    → v.lease ≡ some holder
Meanwhile-lease holder w _ h nothing = h
Meanwhile-lease holder w _ h (acquires {v} other m) =
    let before = Meanwhile-lease holder w v h m in
    ap (λ (t : Result (Unit {0}) × Worker). t.1.lease) (held_acquire holder other v before) ∙ before
Meanwhile-lease holder w _ h (releases {v} other e m) =
    held_release holder other v e (Meanwhile-lease holder w v h m)
Meanwhile-lease holder w _ h (pauses {v} other paused? actor m) =
    held_pause other paused? actor v ∙ Meanwhile-lease holder w v h m
Meanwhile-lease holder w _ h (runs {v} other sync config times manual s m) =
    run_once-lease other sync config times manual s v ∙ Meanwhile-lease holder w v h m

acquired :
    (holder : String) (w w' : Worker) → acquire holder w ≡ (ok tt, w') → w'.lease ≡ some holder
unfolding acquire record_event
acquired holder w w' h = elim (Option-cases w.lease) [
  | inl e ↦
      let result = rw (acquire, e) at h in
      ap (λ (t : Result (Unit {0}) × Worker). t.1.lease) (sym result)
  | inr (other, e) ↦
      let result = rw (acquire, e) at h in
      absurd (cc (ap (λ (t : Result (Unit {0}) × Worker). t.0) result))
]

-- Once an instance has the lease, no other gets it, nor the same one again, before it releases it:
-- whatever the instances do meanwhile, an attempt to acquire it throws and changes nothing.
pub acquire-exclusive :
    (holder other : String) (w w' v : Worker)
    → acquire holder w ≡ (ok tt, w')
    → Meanwhile holder w' v
    → acquire other v ≡ (err plain_error, v)
acquire-exclusive holder other w w' v h m =
    held_acquire holder other v (Meanwhile-lease holder w' v (acquired holder w w' h) m)

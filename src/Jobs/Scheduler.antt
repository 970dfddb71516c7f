-- ===== src/Jobs/Scheduler.antt =====
-- jobs/scheduler.go: which schedules a tick enqueues. Run ticks once a second; a tick is called at
-- a time, and an enqueue's clock is the tick's.
pub mod Laws
use trails.Base.{
  ℕ, Bool, true, false, Option, none, some, List, [], ◌∷◌, if◌then◌else◌, ltb_ℤ, ℤ, pos, ◌+ℤ◌, Text,
  Table, lookup, insert, Result,
}
use trails.Jobs.Enqueue.{Schedule, Enqueued, JobType, JobError, enqueue}

abbrev pub waits : ℕ → Option ℤ → Bool
waits now none = false
waits now (some next) = ltb_ℤ (pos now) next

-- Whether the schedule is due, and the times of the next runs thereafter.
unfoldable pub due : {J : Type 0} → Schedule J → ℕ → Table ℤ → Table ℤ × Bool
due sched now next_run =
    if waits now (lookup sched.name next_run)
    then (next_run, false)
    else (insert sched.name (pos now +ℤ sched.interval) next_run, true)

module _ {J W E : Type 0} (K : JobType J W E)
    (b : Enqueued → W → W × Result (JobError E) (Unit {0})) where
  -- An error of the backend is logged, and the tick goes on.
  abbrev enqueue_due : Bool → Schedule J → ℕ → W → W
  enqueue_due false sched now w = w
  enqueue_due true sched now w = (enqueue K b sched.factory sched.options now w).0

  unfoldable pub tick : List (Schedule J) → ℕ → Table ℤ → W → Table ℤ × W
  unfolding due enqueue
  tick [] now next_run w = (next_run, w)
  tick (sched ∷ scheds) now next_run w =
      let d = due sched now next_run in tick scheds now d.0 (enqueue_due d.1 sched now w)

  -- Several ticks, at the given times.
  unfoldable pub run : List (Schedule J) → List ℕ → Table ℤ → W → Table ℤ × W
  unfolding tick
  run scheds [] next_run w = (next_run, w)
  run scheds (now ∷ times) next_run w =
      let t = tick scheds now next_run w in run scheds times t.0 t.1

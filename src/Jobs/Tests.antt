-- ===== src/Jobs/Tests.antt =====
-- A key with a limit of one job, and a scheduler with two schedules.
use trails.Base.{
  none, List, Result, ok, inl, inr, ◌+ℤ◌, ◌≤◌, ◌<◌, ◌≡◌, ◌↔◌, refl, arith, true, some, [], ◌∷◌,
  Text, codes, pos, lookup, insert, ◌===◌,
}
use trails.Jobs.Enqueue.{Enqueued, JobError, JobType, Schedule, has_name}
use trails.Jobs.Scheduler.{due, tick, run}
use trails.Jobs.Scheduler.Laws.{due-run}
use trails.Jobs.{Slots, try_acquire, release}
use trails.Jobs.Steps.{Pool, starts, Reachable, start, next, acquisition}
use trails.Jobs.Laws.{running_bounded, acquires_iff, release_expired}

abbrev key : Text
key = codes "mail"

abbrev empty : Pool
empty = record { slots = []; running = 0; clock = 5 }

abbrev busy : Pool
busy = record { slots = (acquisition key 1 10 6 empty).0; running = 1; clock = 6 }

busy-Reachable : Reachable key 1 busy
unfolding try_acquire lookup
busy-Reachable = next empty busy (start 5) (starts empty 10 6 (omega arith) tt refl)

running_bounded_example : busy.running ≤ 1
running_bounded_example = running_bounded key 1 (omega arith) busy busy-Reachable

acquires_iff_example : ((acquisition key 1 10 7 busy).1 ≡ true) ↔ (busy.running < 1)
unfolding try_acquire lookup insert codes ◌===◌
acquires_iff_example = acquires_iff key 1 busy 10 7 (omega arith) busy-Reachable refl

abbrev stale : Slots
stale = (key, record { count = 1; expires_at = some 16 }) ∷ []

release_expired_example :
    let second = try_acquire key (pos 1) 10 20 stale in
    (second.1 ≡ true) × ((try_acquire key (pos 1) 10 21 (release key second.0)).1 ≡ true)
unfolding lookup codes ◌===◌
release_expired_example =
    release_expired key stale (record { count = 1; expires_at = some 16 }) 10 20 10 21 refl refl

-- A job is the text of its arguments, and a backend keeps the envelopes.
abbrev texts : JobType Text (List Enqueued) Text
texts = record {
  kind = λ j. codes "mail";
  marshal = λ j. some j;
  unmarshal = λ args fresh. some args;
  concurrency = λ j. none;
  perform = λ j w. (w, ok tt);
}

abbrev keep : Enqueued → List Enqueued → List Enqueued × Result (JobError Text) (Unit {0})
keep e es = (e ∷ es, ok tt)

abbrev hourly : Schedule Text
hourly = record { name = codes "h"; interval = pos 60; factory = codes "x"; options = [] }

abbrev daily : Schedule Text
daily = record { name = codes "d"; interval = pos 1440; factory = codes "y"; options = [] }

due-run_example :
    let k = tick texts keep (daily ∷ hourly ∷ []) 100 [] [] in
    let later = run texts keep (daily ∷ hourly ∷ []) (120 ∷ 140 ∷ []) k.0 k.1 in
    (due hourly 160 later.0).1 ≡ true
unfolding due lookup codes ◌===◌ has_name ◌+ℤ◌
due-run_example =
    due-run texts keep (daily ∷ hourly ∷ []) hourly 100 [] [] (120 ∷ 140 ∷ []) 160
      (refl, (refl, tt)) (inr (inl refl)) refl (refl, (refl, tt))

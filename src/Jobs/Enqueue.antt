-- ===== src/Jobs/Enqueue.antt =====
-- jobs/enqueue.go and jobs/registry.go: envelopes of jobs, the registry that runs them, and the
-- backend of jobs/backend/inline. What a job is, its JSON codec and its `Perform` are parameters;
-- W is the state of the backend and of what jobs act on.
use trails.Base.{
  ℕ, zero, suc, Bool, true, false, Option, none, some, List, [], ◌∷◌, ◌++◌, if◌then◌else◌, ℤ, pos,
  negsuc, ◌+ℤ◌, Text, ◌===◌, Table, lookup, insert, Result, err,
}

abbrev pub default_max_attempts : ℤ
default_max_attempts = pos 25

-- `none` is the zero time: as soon as possible.
pub record Enqueued : Type 0 where
  pub kind : Text
  pub args : Text
  pub queue : Text
  pub scheduled_at : Option ℤ
  pub max_attempts : ℤ
  pub concurrency_key : Text
  pub concurrency_limit : ℤ
  pub concurrency_duration : ℤ

pub data JobError (E : Type 0) : Type 0 where
  marshaling unmarshaling unknown_kind : Text → JobError E
  failed : E → JobError E

-- The interfaces Job and ConcurrencyLimited; `concurrency` is `none` for a job without the second.
pub record JobType (J W E : Type 0) : Type 0 where
  pub kind : J → Text
  pub marshal : J → Option Text
  pub unmarshal : Text → J → Option J
  pub concurrency : J → Option (Text × ℤ × ℤ)
  pub perform : J → W → W × Result (JobError E) (Unit {0})

-- An option is applied at a time, which WithDelay reads.
abbrev pub EnqueueOption : Type 0
EnqueueOption = ℕ → Enqueued → Enqueued

unfoldable pub with_queue : Text → EnqueueOption
with_queue name now e = record e { queue = name }

unfoldable pub with_delay : ℤ → EnqueueOption
with_delay d now e = record e { scheduled_at = some (pos now +ℤ d) }

unfoldable pub with_max_attempts : ℤ → EnqueueOption
with_max_attempts n now e = record e { max_attempts = n }

abbrev limited : Option (Text × ℤ × ℤ) → Enqueued → Enqueued
limited none e = e
limited (some (key, limit, duration)) e = record e {
  concurrency_key = key;
  concurrency_limit = limit;
  concurrency_duration = duration;
}

apply_options : List EnqueueOption → ℕ → Enqueued → Enqueued
apply_options [] now e = e
apply_options (opt ∷ opts) now e = apply_options opts now (opt now e)

abbrev or_default : ℤ → ℤ
or_default (pos zero) = default_max_attempts
or_default (pos (suc n)) = pos (suc n)
or_default (negsuc n) = negsuc n

pub record Schedule (J : Type 0) : Type 0 where
  pub name : Text
  pub interval : ℤ
  pub factory : J
  pub options : List EnqueueOption

-- A factory builds the same job each time, and stands for it.
pub record Registry (J : Type 0) : Type 0 where
  pub factories : Table J
  pub schedules : List (Schedule J)

module _ {J : Type 0} where
  abbrev pub new_registry : Registry J
  new_registry = record { factories = []; schedules = [] }

  -- `none` is a panic.
  unfoldable pub register : Text → J → Registry J → Option (Registry J)
  register kind factory r = elim (lookup kind r.factories) [
    | some j ↦ none
    | none ↦ some (record r { factories = insert kind factory r.factories })
  ]

  unfoldable pub has_name : Text → List (Schedule J) → Bool
  has_name name [] = false
  has_name name (s ∷ ss) = if s.name === name then true else has_name name ss

  unfoldable pub register_schedule : Schedule J → Registry J → Option (Registry J)
  unfolding has_name
  register_schedule s r =
      if has_name s.name r.schedules
      then none
      else some (record r { schedules = r.schedules ++ s ∷ [] })

module _ {J W E : Type 0} (K : JobType J W E) where
  -- The envelope, with the options applied at `now`.
  unfoldable pub envelope : J → Text → List EnqueueOption → ℕ → Enqueued
  unfolding apply_options
  envelope job args opts now =
      let e = apply_options opts now (
        limited (K.concurrency job) (record {
          kind = K.kind job;
          args = args;
          queue = [];
          scheduled_at = none;
          max_attempts = pos 0;
          concurrency_key = [];
          concurrency_limit = pos 0;
          concurrency_duration = pos 0;
        })) in
      record e { max_attempts = or_default e.max_attempts }

  unfoldable pub enqueue :
      (Enqueued → W → W × Result (JobError E) (Unit {0}))
      → J
      → List EnqueueOption
      → ℕ
      → W
      → W × Result (JobError E) (Unit {0})
  unfolding envelope
  enqueue b job opts now w = elim (K.marshal job) [
    | none ↦ (w, err (marshaling (K.kind job)))
    | some args ↦ b (envelope job args opts now) w
  ]

  perform_decoded : Text → Option J → W → W × Result (JobError E) (Unit {0})
  perform_decoded kind none w = (w, err (unmarshaling kind))
  perform_decoded kind (some job) w = K.perform job w

  -- Without arguments the fresh job runs as it is.
  decode_args : Text → J → Option J
  decode_args [] fresh = some fresh
  decode_args (c ∷ args) fresh = K.unmarshal (c ∷ args) fresh

  unfoldable pub dispatch : Registry J → Enqueued → W → W × Result (JobError E) (Unit {0})
  unfolding perform_decoded decode_args
  dispatch r e w = elim (lookup e.kind r.factories) [
    | none ↦ (w, err (unknown_kind e.kind))
    | some fresh ↦ perform_decoded e.kind (decode_args e.args fresh) w
  ]

  -- The inline backend.
  unfoldable pub enqueue_inline : Registry J → Enqueued → W → W × Result (JobError E) (Unit {0})
  unfolding dispatch
  enqueue_inline r e w = dispatch r e w

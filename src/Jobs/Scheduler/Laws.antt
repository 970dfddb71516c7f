-- ===== src/Jobs/Scheduler/Laws.antt =====
-- When a schedule is due again.
use trails.Base.{
  ℕ, ◌≡◌, ◌⊎◌, subst, refl, sym, ap, ◌∙◌, arith, Bool, true, false, not, Option, none, some, List,
  [], ◌∷◌, ◌++◌, ltb_ℤ, ℤ, pos, ◌+ℤ◌, Text, ◌===◌, ===_iff, ===_refl, Table, lookup, lookup-insert,
  Result, Bool-cases, inl, inr, if-elim,
}
use trails.Jobs.Enqueue.{
  Registry, register_schedule, Schedule, Enqueued, JobType, JobError, has_name,
}
use trails.Jobs.Scheduler.{waits, due, tick, run}

-- No name stands twice, which RegisterSchedule sees to.
abbrev pub HasUniqueNames : {J : Type 0} → List (Schedule J) → Type 0
HasUniqueNames [] = Unit
HasUniqueNames (s ∷ ss) = (has_name s.name ss ≡ false) × HasUniqueNames ss

abbrev pub Has : {J : Type 0} → Schedule J → List (Schedule J) → Type 0
Has s [] = ⊥
Has s (r ∷ rs) = (s ≡ r) ⊎ Has s rs

-- All times are before `next`.
abbrev pub AllBefore : ℤ → List ℕ → Type 0
AllBefore next [] = Unit
AllBefore next (t ∷ ts) = (ltb_ℤ (pos t) next ≡ true) × AllBefore next ts

abbrev schedules_of : {J : Type 0} → Option (Registry J) → List (Schedule J)
schedules_of none = []
schedules_of (some r) = r.schedules

-- A schedule that waits, or has another name, leaves the next run of a name as it is.
due_waiting :
    {J : Type 0} (s : Schedule J) (now : ℕ) (m : Table ℤ) (name : Text) (next : ℤ)
    → lookup name m ≡ some next
    → ltb_ℤ (pos now) next ≡ true
    → lookup name (due s now m).0 ≡ some next
unfolding due
due_waiting s now m name next h l = elim (Bool-cases (s.name === name)) [
  | inl e ↦ let same : s.name ≡ name = (===_iff s.name name).0 e in rw (same, h, l) h
  | inr e ↦
      if-elim (λ (x : Table ℤ × Bool). lookup name x.0 ≡ some next) (waits now (lookup s.name m)) _
        _ h (lookup-insert name s.name (pos now +ℤ s.interval) m ∙ rw e h)
]

due_other :
    {J : Type 0} (s : Schedule J) (now : ℕ) (m : Table ℤ) (name : Text)
    → (s.name === name) ≡ false
    → lookup name (due s now m).0 ≡ lookup name m
unfolding due
due_other s now m name e =
    if-elim (λ (x : Table ℤ × Bool). lookup name x.0 ≡ lookup name m) (waits now (lookup s.name m))
      _ _ refl (lookup-insert name s.name (pos now +ℤ s.interval) m ∙ rw e refl)

waits-due :
    {J : Type 0} (s : Schedule J) (now : ℕ) (m : Table ℤ)
    → (due s now m).1 ≡ not (waits now (lookup s.name m))
unfolding due
waits-due s now m = elim (Bool-cases (waits now (lookup s.name m))) [
  | inl e ↦ rw e refl
  | inr e ↦ rw e refl
]

due_fires :
    {J : Type 0} (s : Schedule J) (now : ℕ) (m : Table ℤ)
    → (due s now m).1 ≡ true
    → lookup s.name (due s now m).0 ≡ some (pos now +ℤ s.interval)
unfolding due
due_fires s now m d = elim (Bool-cases (waits now (lookup s.name m))) [
  | inl e ↦ ground (arith, waits-due s now m, e, d)
  | inr e ↦ rw e (lookup-insert s.name s.name (pos now +ℤ s.interval) m ∙ rw (===_refl s.name) refl)
]

Has-distinct :
    {J : Type 0} (s : Schedule J) (rs : List (Schedule J)) (name : Text)
    → has_name name rs ≡ false
    → Has s rs
    → (s.name === name) ≡ false
unfolding has_name
Has-distinct s [] name u h = elim h [ ]
Has-distinct s (r ∷ rs) name u (inl e) =
    subst (λ (x : Schedule _). (x.name === name) ≡ false) (sym e) (ground (arith, u))
Has-distinct s (r ∷ rs) name u (inr h) = Has-distinct s rs name (ground (arith, u)) h

distinct_sym : (a b : Text) → (a === b) ≡ false → (b === a) ≡ false
distinct_sym a b e = ground (arith, e, ===_iff a b, ===_iff b a)

has_name-append :
    {J : Type 0} (name : Text) (ss : List (Schedule J)) (s : Schedule J)
    → has_name name ss ≡ false
    → (s.name === name) ≡ false
    → has_name name (ss ++ s ∷ []) ≡ false
unfolding has_name
has_name-append name [] s u e = rw e refl
has_name-append name (r ∷ ss) s u e = elim (Bool-cases (r.name === name)) [
  | inl hit ↦ ground (arith, u, hit)
  | inr miss ↦ rw miss (has_name-append name ss s (ground (arith, u, miss)) e)
]

append-HasUniqueNames :
    {J : Type 0} (ss : List (Schedule J)) (s : Schedule J)
    → has_name s.name ss ≡ false
    → HasUniqueNames ss
    → HasUniqueNames (ss ++ s ∷ [])
unfolding has_name
append-HasUniqueNames [] s u us = (refl, tt)
append-HasUniqueNames (r ∷ ss) s u (v, us) = elim (Bool-cases (r.name === s.name)) [
  | inl hit ↦ ground (arith, u, hit)
  | inr miss ↦ (
    has_name-append r.name ss s v (distinct_sym r.name s.name miss),
    append-HasUniqueNames ss s (ground (arith, u, miss)) us,
  )
]

register_schedule-HasUniqueNames :
    {J : Type 0} (s : Schedule J) (r k : Registry J)
    → HasUniqueNames r.schedules
    → register_schedule s r ≡ some k
    → HasUniqueNames k.schedules
unfolding register_schedule
register_schedule-HasUniqueNames s r k u e = elim (Bool-cases (has_name s.name r.schedules)) [
  | inl hit ↦ ground (arith, e, hit)
  | inr miss ↦
      let same : some (record r { schedules = r.schedules ++ s ∷ [] }) ≡ some k =
        sym (rw miss refl) ∙ e in
      subst (λ (o : Option (Registry _)). HasUniqueNames (schedules_of o)) same
        (append-HasUniqueNames r.schedules s miss u)
]

module _ {J W E : Type 0} (K : JobType J W E)
    (b : Enqueued → W → W × Result (JobError E) (Unit {0})) where
  tick_waiting :
      (ss : List (Schedule J)) (now : ℕ) (m : Table ℤ) (w : W) (name : Text) (next : ℤ)
      → lookup name m ≡ some next
      → ltb_ℤ (pos now) next ≡ true
      → lookup name (tick K b ss now m w).0 ≡ some next
  unfolding tick
  tick_waiting [] now m w name next h l = h
  tick_waiting (s ∷ ss) now m w name next h l =
      tick_waiting ss now (due s now m).0 _ name next (due_waiting s now m name next h l) l

  run_waiting :
      (ss : List (Schedule J)) (times : List ℕ) (m : Table ℤ) (w : W) (name : Text) (next : ℤ)
      → lookup name m ≡ some next
      → AllBefore next times
      → lookup name (run K b ss times m w).0 ≡ some next
  unfolding run
  run_waiting ss [] m w name next h u = h
  run_waiting ss (t ∷ ts) m w name next h (l, u) =
      run_waiting ss ts (tick K b ss t m w).0 _ name next (tick_waiting ss t m w name next h l) u

  tick_other :
      (ss : List (Schedule J)) (now : ℕ) (m : Table ℤ) (w : W) (name : Text)
      → has_name name ss ≡ false
      → lookup name (tick K b ss now m w).0 ≡ lookup name m
  unfolding tick has_name
  tick_other [] now m w name h = refl
  tick_other (s ∷ ss) now m w name h = elim (Bool-cases (s.name === name)) [
    | inl e ↦ ground (arith, h, e)
    | inr e ↦
        tick_other ss now (due s now m).0 _ name (ground (arith, h, e)) ∙ due_other s now m name e
  ]

  tick_fires :
      (ss : List (Schedule J)) (s : Schedule J) (now : ℕ) (m : Table ℤ) (w : W)
      → HasUniqueNames ss
      → Has s ss
      → (due s now m).1 ≡ true
      → lookup s.name (tick K b ss now m w).0 ≡ some (pos now +ℤ s.interval)
  unfolding tick
  tick_fires [] s now m w u h d = elim h [ ]
  tick_fires (r ∷ ss) s now m w (u, us) (inl e) d =
      subst
        (λ (x : Schedule J).
          lookup s.name (tick K b (x ∷ ss) now m w).0 ≡ some (pos now +ℤ s.interval))
        e
        (tick_other ss now (due s now m).0 _ s.name
            (subst (λ (x : Schedule J). has_name x.name ss ≡ false) (sym e) u)
          ∙ due_fires s now m d)
  tick_fires (r ∷ ss) s now m w (u, us) (inr h) d =
      let apart = distinct_sym s.name r.name (Has-distinct s ss r.name u h) in
      let same = due_other r now m s.name apart in
      tick_fires ss s now (due r now m).0 _ us h (
        waits-due s now (due r now m).0
        ∙ (ap (λ o. not (waits now o)) same ∙ (sym (waits-due s now m) ∙ d)))

  -- Among schedules with different names, after a tick at which one of them is due, and after any
  -- further ticks before its interval has passed, it is due at a time t exactly if t is at least an
  -- interval after the first tick.
  pub due-run :
      (ss : List (Schedule J)) (s : Schedule J) (now : ℕ) (m : Table ℤ) (w : W) (times : List ℕ)
      (t : ℕ)
      → HasUniqueNames ss
      → Has s ss
      → (due s now m).1 ≡ true
      → AllBefore (pos now +ℤ s.interval) times
      → let k = tick K b ss now m w in
        (due s t (run K b ss times k.0 k.1).0).1 ≡ not (ltb_ℤ (pos t) (pos now +ℤ s.interval))
  due-run ss s now m w times t u h d l =
      let k = tick K b ss now m w in
      waits-due s t (run K b ss times k.0 k.1).0
      ∙ ap (λ o. not (waits t o))
          (run_waiting ss times k.0 k.1 s.name (pos now +ℤ s.interval)
            (tick_fires ss s now m w u h d) l)

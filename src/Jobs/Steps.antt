-- ===== src/Jobs/Steps.antt =====
-- The steps of the jobs of one key, among those of others, and what acquiring and releasing does to
-- the slot of the key.
use trails.Base.{
  ℕ, suc, ◌+◌, ◌-◌, ◌≤◌, ◌<◌, ◌≡◌, ◌⊎◌, inl, inr, ap, ◌∙◌, arith, Bool, true, false, Option, none,
  some, [], leb, ℤ, pos, leb_ℤ, Text, lookup, lookup-insert, lookup-erase, ◌===◌, ===_refl,
  if◌then◌else◌, Option-cases, Bool-cases,
}
use trails.Jobs.{Slot, Slots, has_expired, current_slot, try_acquire, release}

-- The backend's slots, how many jobs of the key run, and the clock.
pub record Pool : Type 0 where
  pub slots : Slots
  pub running : ℕ
  pub clock : ℕ

-- A slot of the key that is still there has not expired.
abbrev pub Unexpired : Text → ℕ → Slots → Type 0
Unexpired key now slots = elim (lookup key slots) [
  | none ↦ Unit {0}
  | some s ↦ has_expired now s ≡ false
]

module _ (key : Text) (limit : ℕ) where
  abbrev pub acquisition : ℕ → ℕ → Pool → Slots × Bool
  acquisition duration now p = try_acquire key (pos limit) duration now p.slots

  pub data Step : Pool → Pool → Type 0 where
    starts :
        (p : Pool) (duration now : ℕ)
        → p.clock ≤ now
        → Unexpired key now p.slots
        → (acquisition duration now p).1 ≡ true
        → Step p (record {
          slots = (acquisition duration now p).0;
          running = suc p.running;
          clock = now;
        })
    waits :
        (p : Pool) (duration now : ℕ)
        → p.clock ≤ now
        → Unexpired key now p.slots
        → (acquisition duration now p).1 ≡ false
        → Step p
            (record { slots = (acquisition duration now p).0; running = p.running; clock = now })
    finishes :
        (p : Pool)
        → 0 < p.running
        → Step p (record { slots = release key p.slots; running = p.running - 1; clock = p.clock })
    starts_other :
        (p : Pool) (other : Text) (l : ℤ) (duration now : ℕ)
        → (key === other) ≡ false
        → (other === key) ≡ false
        → p.clock ≤ now
        → Step p (record p { slots = (try_acquire other l duration now p.slots).0; clock = now })
    finishes_other :
        (p : Pool) (other : Text)
        → (key === other) ≡ false
        → (other === key) ≡ false
        → Step p (record p { slots = release other p.slots })

  pub data Reachable : Pool → Type 0 where
    start : (clock : ℕ) → Reachable (record { slots = []; running = 0; clock = clock })
    next : (p q : Pool) → Reachable p → Step p q → Reachable q

  -- The slot counts the jobs that run, and there is none where none runs.
  abbrev pub Counts : Pool → Type 0
  Counts p =
      (p.running ≤ limit)
      × (((p.running ≡ 0) × (lookup key p.slots ≡ none))
          ⊎ ((0 < p.running)
              × ((x : Option ℕ) × (lookup key p.slots
                    ≡ some (record { count = p.running; expires_at = x })))))

  pub current_slot-Unexpired :
      (now : ℕ) (slots : Slots) (s : Slot)
      → lookup key slots ≡ some s
      → Unexpired key now slots
      → current_slot now (lookup key slots) ≡ s
  unfolding current_slot
  current_slot-Unexpired now slots s e u = ground (arith, e, u)

  pub acquired :
      (duration now : ℕ) (slots : Slots)
      → (try_acquire key (pos limit) duration now slots).1 ≡ true
      → let count = (current_slot now (lookup key slots)).count in
        (count < limit)
        × (lookup key (try_acquire key (pos limit) duration now slots).0
            ≡ some (record { count = count + 1; expires_at = some (now + duration) }))
  unfolding try_acquire
  acquired duration now slots h =
      let s = current_slot now (lookup key slots) in
      let put =
        lookup-insert key key (record { count = s.count + 1; expires_at = some (now + duration) })
          slots in
      elim (Bool-cases (leb_ℤ (pos limit) (pos s.count))) [
        | inl full ↦ ground (arith, full, h)
        | inr room ↦ (ground (arith, room), ground (arith, room, put, ===_refl key))
      ]

  pub refused :
      (duration now : ℕ) (slots : Slots)
      → (try_acquire key (pos limit) duration now slots).1 ≡ false
      → let s = current_slot now (lookup key slots) in
        (limit ≤ s.count) × (lookup key (try_acquire key (pos limit) duration now slots).0 ≡ some s)
  unfolding try_acquire
  refused duration now slots h =
      let s = current_slot now (lookup key slots) in
      elim (Bool-cases (leb_ℤ (pos limit) (pos s.count))) [
        | inl full ↦ (
          ground (arith, full),
          ground (arith, full, lookup-insert key key s slots, ===_refl key),
        )
        | inr room ↦ ground (arith, room, h)
      ]

  pub released :
      (slots : Slots) (s : Slot)
      → lookup key slots ≡ some s
      → lookup key (release key slots)
        ≡ (if leb s.count 1 then none else some (record s { count = s.count - 1 }))
  unfolding release
  released slots s e = ground (
    arith,
    e,
    lookup-insert key key (record s { count = s.count - 1 }) slots,
    lookup-erase key key slots,
    ===_refl key,
  )

  pub try_acquire_other :
      (other : Text) (l : ℤ) (duration now : ℕ) (slots : Slots)
      → (other === key) ≡ false
      → lookup key (try_acquire other l duration now slots).0 ≡ lookup key slots
  unfolding try_acquire
  try_acquire_other other l duration now slots d =
      let s = current_slot now (lookup other slots) in
      ground (
        arith,
        d,
        lookup-insert key other s slots,
        lookup-insert key other (record { count = s.count + 1; expires_at = some (now + duration) })
            slots,
      )

  pub release_other :
      (other : Text) (slots : Slots)
      → (other === key) ≡ false
      → lookup key (release other slots) ≡ lookup key slots
  unfolding release
  release_other other slots d = elim (Option-cases (lookup other slots)) [
    | inl e ↦ ground (arith, e)
    | inr (s, e) ↦ ground (
      arith,
      e,
      d,
      lookup-insert key other (record s { count = s.count - 1 }) slots,
      lookup-erase key other slots,
    )
  ]

  pub started :
      (p : Pool) (duration now : ℕ)
      → lookup key (acquisition duration now p).0
        ≡ some (record {
          count = (current_slot now (lookup key p.slots)).count + 1;
          expires_at = some (now + duration);
        })
      → (current_slot now (lookup key p.slots)).count + 1 ≡ suc p.running
      → suc p.running ≤ limit
      → Counts
          (record { slots = (acquisition duration now p).0; running = suc p.running; clock = now })
  started p duration now put e room =
      let x = some (now + duration) in
      (room, inr (omega arith, (x, put ∙ ap (λ n. some (record { count = n; expires_at = x })) e)))

-- ===== src/Jobs/Laws.antt =====
-- The slots of one key, among those of others: how many of its jobs run at once.
use trails.Base.{
  ℕ, ◌≤◌, ◌<◌, ◌≡◌, ◌↔◌, inl, inr, refl, ap, sym, ◌∙◌, arith, true, none, some, leb, pos, Text,
  lookup, Bool-cases,
}
use trails.Jobs.{Slot, Slots, has_expired, current_slot, try_acquire, release}
use trails.Jobs.Steps.{
  Pool, Unexpired, acquisition, Step, starts, waits, finishes, starts_other, finishes_other, start,
  next, Reachable, Counts, current_slot-Unexpired, acquired, refused, released, try_acquire_other,
  release_other, started,
}

module _ (key : Text) (limit : ℕ) where
  Step-Counts :
      0 < limit → (p q : Pool) → Step key limit p q → Counts key limit p → Counts key limit q
  unfolding current_slot
  Step-Counts l _ _ (starts p duration now o u h) (b, inl (z, e)) =
      let (room, put) = acquired key limit duration now p.slots h in
      let none_before : (current_slot now (lookup key p.slots)).count ≡ 0 =
        ap (λ o. (current_slot now o).count) e in
      started key limit p duration now put (omega (arith, none_before, z))
        (omega (arith, room, none_before, z))
  Step-Counts l _ _ (starts p duration now o u h) (b, inr (r, (x, e))) =
      let (room, put) = acquired key limit duration now p.slots h in
      let same = current_slot-Unexpired key limit now p.slots _ e u in
      let before : (current_slot now (lookup key p.slots)).count ≡ p.running =
        ap (λ (s : Slot). s.count) same in
      started key limit p duration now put (omega (arith, before)) (omega (arith, room, before))
  Step-Counts l _ _ (waits p duration now o u h) (b, inl (z, e)) =
      let (full, put) = refused key limit duration now p.slots h in
      let none_before : (current_slot now (lookup key p.slots)).count ≡ 0 =
        ap (λ o. (current_slot now o).count) e in
      absurd (omega (arith, full, none_before, l))
  Step-Counts l _ _ (waits p duration now o u h) (b, inr (r, (x, e))) =
      let (full, put) = refused key limit duration now p.slots h in
      let same = current_slot-Unexpired key limit now p.slots _ e u in
      (b, inr (r, (x, put ∙ ap some same)))
  Step-Counts l _ _ (finishes p r) (b, inl (z, e)) = absurd (omega arith)
  Step-Counts l _ _ (finishes p r) (b, inr (r', (x, e))) =
      let rel = released key limit p.slots _ e in
      elim (Bool-cases (leb p.running 1)) [
        | inl last ↦ (omega arith, inl (ground (arith, last), ground (arith, rel, last)))
        | inr more ↦ (omega arith, inr (ground (arith, more), (x, ground (arith, rel, more))))
      ]
  Step-Counts l _ _ (starts_other p other m duration now d d' o) c =
      rw (try_acquire_other key limit other m duration now p.slots d') c
  Step-Counts l _ _ (finishes_other p other d d') c =
      rw (release_other key limit other p.slots d') c

  Reachable-Counts : 0 < limit → (p : Pool) → Reachable key limit p → Counts key limit p
  unfolding lookup
  Reachable-Counts l _ (start clock) = (omega arith, inl (refl, refl))
  Reachable-Counts l _ (next p q r s) = Step-Counts l p q s (Reachable-Counts l p r)

  -- With a positive limit, while no slot of the key expires under a job, at most `limit` of the
  -- key's jobs run at once, however the steps of other keys come between.
  pub running_bounded : 0 < limit → (p : Pool) → Reachable key limit p → p.running ≤ limit
  running_bounded l p r = (Reachable-Counts l p r).0

  -- With a positive limit, in a state that can be reached and with no expired slot of the key, a
  -- job of the key may start exactly if fewer than `limit` of them run.
  pub acquires_iff :
      (p : Pool) (duration now : ℕ)
      → 0 < limit
      → Reachable key limit p
      → Unexpired key now p.slots
      → ((acquisition key limit duration now p).1 ≡ true) ↔ (p.running < limit)
  unfolding current_slot
  acquires_iff p duration now l r u =
      let count : (current_slot now (lookup key p.slots)).count ≡ p.running =
        elim (Reachable-Counts l p r).1 [
          | inl (z, e) ↦ ap (λ o. (current_slot now o).count) e ∙ sym z
          | inr (r', (x, e)) ↦
              ap (λ (s : Slot). s.count) (current_slot-Unexpired key limit now p.slots _ e u)
        ] in
      (
        λ h.
            let (room, put) = acquired key limit duration now p.slots h in
            omega (arith, room, count),
        λ room. elim (Bool-cases (acquisition key limit duration now p).1) [
          | inl taken ↦ taken
          | inr full_now ↦
              let (full, put) = refused key limit duration now p.slots full_now in
              absurd (omega (arith, full, count, room))
        ],
      )

-- A fresh slot lets a job start.
fresh-acquires :
    (key : Text) (slots : Slots) (duration now : ℕ)
    → (current_slot now (lookup key slots)).count ≡ 0
    → (try_acquire key (pos 1) duration now slots).1 ≡ true
unfolding try_acquire
fresh-acquires key slots duration now e = ground (arith, e)

-- Where the slot of a running job has expired and a second job has taken the key, limited to one
-- job, the end of the first job frees the key: a third job may start at any later time, although the
-- second has not ended.
pub release_expired :
    (key : Text) (slots : Slots) (s : Slot) (duration now later_duration later : ℕ)
    → lookup key slots ≡ some s
    → has_expired now s ≡ true
    → let second = try_acquire key (pos 1) duration now slots in
      (second.1 ≡ true)
      × ((try_acquire key (pos 1) later_duration later (release key second.0)).1 ≡ true)
unfolding current_slot
release_expired key slots s duration now later_duration later e x =
    let fresh : (current_slot now (lookup key slots)).count ≡ 0 = ground (arith, e, x) in
    let first = fresh-acquires key slots duration now fresh in
    let held = try_acquire key (pos 1) duration now slots in
    let (room, put) = acquired key 1 duration now slots first in
    let freed : lookup key (release key held.0) ≡ none =
      ground (arith, released key 1 held.0 _ put, fresh) in
    (
      first,
      fresh-acquires key (release key held.0) later_duration later
          (ap (λ o. (current_slot later o).count) freed),
    )

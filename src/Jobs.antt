-- ===== src/Jobs.antt =====
-- jobs/backend/async/async.go: the concurrency slots of the in-process backend. Each of the two
-- methods runs under the mutex; `time.Now()` is an argument.
pub mod Steps
pub mod Laws
pub mod Enqueue
pub mod Scheduler
mod Tests
use trails.Base.{
  ℕ, ◌+◌, ◌-◌, Bool, true, false, Option, none, some, if◌then◌else◌, ltb, leb, ℤ, pos, leb_ℤ, Text,
  Table, lookup, insert, erase,
}

-- `none` is the zero time, in which a new slot stands.
pub record Slot : Type 0 where
  pub count : ℕ
  pub expires_at : Option ℕ

abbrev pub Slots : Type 0
Slots = Table Slot

abbrev pub has_expired : ℕ → Slot → Bool
has_expired now s = elim s.expires_at [ none ↦ true | some t ↦ ltb t now ]

abbrev pub new_slot : Slot
new_slot = record { count = 0; expires_at = none }

-- The slot that counts at `now`: a missing or expired one is replaced.
unfoldable pub current_slot : ℕ → Option Slot → Slot
current_slot now none = new_slot
current_slot now (some s) = if has_expired now s then new_slot else s

unfoldable pub try_acquire : Text → ℤ → ℕ → ℕ → Slots → Slots × Bool
unfolding lookup insert current_slot
try_acquire key limit duration now slots =
    let s = current_slot now (lookup key slots) in
    if leb_ℤ limit (pos s.count) then (insert key s slots, false) else (
      insert key (record { count = s.count + 1; expires_at = some (now + duration) }) slots,
      true,
    )

unfoldable pub release : Text → Slots → Slots
unfolding lookup insert erase
release key slots = elim (lookup key slots) [
  | none ↦ slots
  | some s ↦
      if leb s.count 1 then erase key slots else insert key (record s { count = s.count - 1 }) slots
]

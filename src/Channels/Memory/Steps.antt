-- ===== src/Channels/Memory/Steps.antt =====
-- The broadcaster between any two holds of its mutex.
use trails.Base.{ℕ, ◌≡◌, ◌≤◌, ◌<◌, true, false, Text, member}
use trails.Channels.Memory.{
  Phase, idle, leaving, finished, Backend, publish, subscribe, leave, close_channel, close_locked,
  members,
}

-- How often a channel is closed by then.
abbrev pub closed_times : Phase → ℕ
closed_times idle = 0
closed_times leaving = 0
closed_times finished = 1

pub record Wf (b : Backend) : Type 0 where
  pub counted : (p : ℕ) → b.closes p ≡ closed_times (b.phase p)
  pub listed : (t : Text) (p : ℕ) → member p (members t b) ≡ true → b.phase p ≡ idle
  pub placed : (t : Text) (p : ℕ) → member p (members t b) ≡ true → b.topic_of p ≡ t
  pub fresh : (p : ℕ) → b.next ≤ p → b.phase p ≡ idle
  pub unlisted : (t : Text) (p : ℕ) → b.next ≤ p → member p (members t b) ≡ false

-- One hold of the mutex, or the close of a channel behind it; `once` lets a subscription go through
-- both once.
pub data Step : Backend → Backend → Type 0 where
  publishes : (topic payload : Text) (b : Backend) → Step b (publish topic payload b).1
  subscribes : (topic : Text) (b : Backend) → Step b (subscribe topic b).1
  leaves : (p : ℕ) (b : Backend) → b.phase p ≡ idle → p < b.next → Step b (leave p b)
  closes_channel : (p : ℕ) (b : Backend) → b.phase p ≡ leaving → Step b (close_channel p b)
  closes : (b : Backend) → Step b (close_locked b).1

pub data Reachable : Backend → Backend → Type 0 where
  start : (b : Backend) → Reachable b b
  next : (a b c : Backend) → Reachable a b → Step b c → Reachable a c

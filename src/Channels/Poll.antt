-- ===== src/Channels/Poll.antt =====
-- channels/backend/database/run.go: the poll of the broadcaster that keeps messages in a table, while
-- the table stays as it is. `rows` is the table in the order of its ids, which the query asks for.
pub mod Laws
use trails.Base.{
  ℕ, zero, suc, ◌<◌, Bool, true, false, Option, none, some, List, [], ◌∷◌, ◌++◌, if◌then◌else◌, ltb,
  Text, Table, lookup, length, take, keep, All, update,
}
use trails.Channels.Memory.{push_each, members_of}

pub record Row : Type 0 where
  pub id : ℕ
  pub topic : Text
  pub payload : Text

-- The part of the backend that polling works on.
pub record Poller : Type 0 where
  pub subs : Table (List ℕ)
  pub buffer : ℕ → List Text
  pub cursor : ℕ

unfoldable pub deliver : List Row → Poller → Poller
unfolding lookup push_each
deliver [] b = b
deliver (r ∷ rs) b =
    deliver rs
      (record b { buffer = push_each (members_of (lookup r.topic b.subs)) r.payload b.buffer })

-- rows[len(rows)-1].ID, and `c` if there are none.
abbrev pub last_id : ℕ → List Row → ℕ
last_id c [] = c
last_id c (r ∷ rs) = last_id r.id rs

-- WHERE id > cursor ORDER BY id.
abbrev pub pending : ℕ → List Row → List Row
pending cursor rows = keep (λ (r : Row). ltb cursor r.id) rows

abbrev pub delivered : List Row → Poller → Poller
delivered batch b = record (deliver batch b) { cursor = last_id b.cursor batch }

module _ (batch_size : ℕ) (rows : List Row) where
  unfoldable pub find : ℕ → List Row
  find cursor = take batch_size (pending cursor rows)

  -- On the batch of a round; `later` is what the rounds behind it make of the backend.
  abbrev pub poll_round : List Row → Option Poller → Poller → Option Poller
  poll_round [] later b = some b
  poll_round (r ∷ rs) later b =
      if ltb (length (r ∷ rs)) batch_size then some (delivered (r ∷ rs) b) else later

  -- `fuel` bounds the rounds of the loop.
  unfoldable pub poll : ℕ → Poller → Option Poller
  unfolding find deliver
  poll zero b = none
  poll (suc fuel) b =
      let batch = find b.cursor in poll_round batch (poll fuel (delivered batch b)) b

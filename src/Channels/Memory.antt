-- ===== src/Channels/Memory.antt =====
-- channels/backend/memory/memory.go: the in-process broadcaster. What runs under one hold of the
-- mutex is one function; a subscription has an address.
pub mod Steps
pub mod Joining
pub mod Laws
pub mod Accounts
use trails.Base.{
  ℕ, suc, ◌+◌, Bool, true, false, Option, none, some, List, [], ◌∷◌, ◌++◌, if◌then◌else◌, ltb, Text,
  Table, lookup, insert, erase, length, Result, ok, err, member, add_member, remove, update,
}
use trails.Channels.Hub.{Broadcaster}

abbrev pub default_subscription_buffer : ℕ
default_subscription_buffer = 16

-- How far `once.Do` has come: not called, out of the topics, the channel closed.
pub data Phase : Type 0 where
  idle leaving finished : Phase

-- `closes` counts how often a channel was closed: Go panics at the second time.
pub record Backend : Type 0 where
  pub topics : Table (List ℕ)
  pub closed : Bool
  pub topic_of : ℕ → Text
  pub buffer : ℕ → List Text
  pub phase : ℕ → Phase
  pub closes : ℕ → ℕ
  pub next : ℕ

pub data Failure : Type 0 where
  closed_error : Failure

unfoldable pub new : Backend
new = record {
  topics = [];
  closed = false;
  topic_of = λ p. [];
  buffer = λ p. [];
  phase = λ p. idle;
  closes = λ p. 0;
  next = 0;
}

abbrev pub members_of : Option (List ℕ) → List ℕ
members_of none = []
members_of (some ps) = ps

unfoldable pub members : Text → Backend → List ℕ
unfolding lookup
members t b = members_of (lookup t b.topics)

-- A send that is dropped where the buffer is full.
abbrev push : Text → List Text → List Text
push payload ms = if ltb (length ms) default_subscription_buffer then ms ++ payload ∷ [] else ms

unfoldable pub push_each : List ℕ → Text → (ℕ → List Text) → ℕ → List Text
unfolding update
push_each [] payload f = f
push_each (p ∷ ps) payload f = push_each ps payload (update p (push payload (f p)) f)

unfoldable pub publish : Text → Text → Backend → Option Failure × Backend
unfolding members push_each
publish topic payload b =
    if b.closed
    then (some closed_error, b)
    else (none, record b { buffer = push_each (members topic b) payload b.buffer })

abbrev pub add_subscription : Text → Backend → Backend
add_subscription topic b = record b {
  topics = insert topic (add_member b.next (members topic b)) b.topics;
  topic_of = update b.next topic b.topic_of;
  buffer = update b.next [] b.buffer;
  next = suc b.next;
}

unfoldable pub subscribe : Text → Backend → Result Failure ℕ × Backend
unfolding members insert add_member update
subscribe topic b =
    if b.closed then (err closed_error, b) else (ok b.next, add_subscription topic b)

abbrev pub without : Text → List ℕ → Table (List ℕ) → Table (List ℕ)
without topic [] m = erase topic m
without topic (p ∷ ps) m = insert topic (p ∷ ps) m

abbrev pub take_out : ℕ → Text → Option (List ℕ) → Table (List ℕ) → Table (List ℕ)
take_out p topic none m = m
take_out p topic (some ps) m = without topic (remove p ps) m

-- The locked part of Unsubscribe, in `once.Do`.
unfoldable pub leave : ℕ → Backend → Backend
unfolding lookup insert erase remove update
leave p b = record b {
  topics = take_out p (b.topic_of p) (lookup (b.topic_of p) b.topics) b.topics;
  phase = update p leaving b.phase;
}

-- `close(s.messages)`, the end of `once.Do`.
unfoldable pub close_channel : ℕ → Backend → Backend
unfolding update
close_channel p b = record b {
  phase = update p finished b.phase;
  closes = update p (suc (b.closes p)) b.closes;
}

abbrev unsubscribe_in : Phase → ℕ → Backend → Backend
unsubscribe_in idle p b = close_channel p (leave p b)
unsubscribe_in leaving p b = b
unsubscribe_in finished p b = b

unfoldable pub unsubscribe : ℕ → Backend → Backend
unfolding leave close_channel
unsubscribe p b = unsubscribe_in (b.phase p) p b

abbrev all_members : Table (List ℕ) → List ℕ
all_members [] = []
all_members ((t, ps) ∷ m) = ps ++ all_members m

-- The locked part of Close: the subscriptions to end.
unfoldable pub close_locked : Backend → List ℕ × Backend
close_locked b =
    if b.closed then ([], b) else (all_members b.topics, record b { closed = true; topics = [] })

unfoldable pub unsubscribe_each : List ℕ → Backend → Backend
unfolding unsubscribe
unsubscribe_each [] b = b
unsubscribe_each (p ∷ ps) b = unsubscribe_each ps (unsubscribe p b)

unfoldable pub close : Backend → Backend
unfolding close_locked unsubscribe_each
close b = let (ps, b') = close_locked b in unsubscribe_each ps b'

abbrev pub memory_broadcaster : Broadcaster
memory_broadcaster = record {
  State = Backend;
  Subscription = ℕ;
  Failure = Failure;
  publish = publish;
  subscribe = subscribe;
  unsubscribe = unsubscribe;
}

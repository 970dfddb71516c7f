-- ===== src/Channels/Steps.antt =====
-- The hub between any two holds of its mutex: its invariant, and the steps of all goroutines in any
-- order.
use trails.Base.{ℕ, ◌≡◌, ◌≤◌, ◌<◌, none, [], Text, Table, lookup, length, member, has_text}
use trails.Channels.Hub.{
  Broadcaster, Hub, connect, disconnect_locked, untrack_topics, stream_from, send, take_message,
  broadcast, recipients, default_outbox_size,
}
use trails.Channels.Api.{add_subscriber, drop_sub}
use trails.Channels.Untrack.{NoEmptyFanout}

module _ {B : Broadcaster} {C : Type 0} where
  pub record Wf (h : Hub B C) : Type 0 where
    -- A topic that nobody streams from has no fan-out.
    pub no_empty : NoEmptyFanout h
    -- The fan-out of a topic and the topics of a subscriber agree.
    pub agree : (t : Text) (p : ℕ) → member p (recipients t h) ≡ has_text t (h.sub_at p).topics
    -- An address not yet given out holds no topics.
    pub fresh : (p : ℕ) → h.next ≤ p → (h.sub_at p).topics ≡ []
    -- An outbox holds no more than its capacity.
    pub room : (c : ℕ) → length (h.conn_at c).outbox ≤ default_outbox_size

  -- One hold of the mutex, one receive from an outbox, or one send to an outbox. `p` and `c` are
  -- addresses of any objects, also of connections that are gone.
  pub data Step : Hub B C → Hub B C → Type 0 where
    connects : (id : Text) (h : Hub B C) → Step h (connect id h).1
    disconnects : (id : Text) (h : Hub B C) → Step h (disconnect_locked id h).1
    registers :
        (c : ℕ) (name : Text) (ch : C) (params : Table Text) (h : Hub B C)
        → lookup name (h.conn_at c).subs ≡ none
        → Step h (add_subscriber c name ch params h).1
    drops : (c : ℕ) (name : Text) (h : Hub B C) → Step h (drop_sub c name h)
    streams : (p : ℕ) (topic : Text) (h : Hub B C) → p < h.next → Step h (stream_from p topic h).1
    untracks : (p : ℕ) (h : Hub B C) → Step h (untrack_topics p h)
    sends : (p : ℕ) (payload : Text) (h : Hub B C) → Step h (send p payload h)
    takes : (c : ℕ) (h : Hub B C) → Step h (take_message c h).1
    broadcasts : (topic payload : Text) (h : Hub B C) → Step h (broadcast topic payload h).1

  pub data Reachable : Hub B C → Hub B C → Type 0 where
    start : (h : Hub B C) → Reachable h h
    next : (h k l : Hub B C) → Reachable h k → Step k l → Reachable h l

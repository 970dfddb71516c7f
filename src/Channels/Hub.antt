-- ===== src/Channels/Hub.antt =====
-- channels/hub.go, conn.go and channel.go. Connections and subscribers are objects with an address;
-- what runs under one hold of the mutex is one function here, and the methods compose these.
use trails.Base.{
  ℕ, suc, Option, none, some, List, [], ◌∷◌, ◌++◌, if◌then◌else◌, ltb, Text, Table, lookup, insert,
  erase, length, Result, ok, err, add_member, remove, add_text, update,
}

-- channels/backend.go: the interface Broadcaster, with the methods of its subscriptions.
pub record Broadcaster : Type 1 where
  pub State : Type 0
  pub Subscription : Type 0
  pub Failure : Type 0
  pub publish : Text → Text → State → Option Failure × State
  pub subscribe : Text → State → Result Failure Subscription × State
  pub unsubscribe : Subscription → State → State

abbrev pub default_outbox_size : ℕ
default_outbox_size = 16

pub record Message : Type 0 where
  pub channel : Text
  pub payload : Text

-- `subs` maps channel names to addresses of subscribers.
pub record Conn : Type 0 where
  pub id : Text
  pub outbox : List Message
  pub subs : Table ℕ

-- `C` is what an app's channel is.
pub record Subscriber (C : Type 0) : Type 0 where
  pub conn : ℕ
  pub channel : C
  pub name : Text
  pub params : Table Text
  pub topics : List Text

pub record Fanout (S : Type 0) : Type 0 where
  pub sub : S
  pub subscribers : List ℕ

module _ (B : Broadcaster) (C : Type 0) where
  -- `next` is an address that no object has.
  pub record Hub : Type 0 where
    pub broadcaster : B.State
    pub conns : Table ℕ
    pub topics : Table (Fanout B.Subscription)
    pub conn_at : ℕ → Conn
    pub sub_at : ℕ → Subscriber C
    pub next : ℕ

  pub data HubError : Type 0 where
    unknown_connection already_subscribed not_subscribed unknown_channel : Text → HubError
    topic_failed : Text → B.Failure → HubError
    channel_failed : Text → HubError

  -- The app's channels: the factories of the registry, and the methods of a channel, which work on
  -- the hub through its API.
  pub record Channels : Type 0 where
    pub factory : Text → Option C
    pub subscribed : C → ℕ → Table Text → Hub → Option HubError × Hub
    pub unsubscribed : C → ℕ → Hub → Hub
    pub receive : C → ℕ → Text → Hub → Option HubError × Hub

abbrev pub addresses : Table ℕ → List ℕ
addresses [] = []
addresses ((name, p) ∷ m) = p ∷ addresses m

abbrev pub recipients_of : {S : Type 0} → Option (Fanout S) → List ℕ
recipients_of none = []
recipients_of (some tf) = tf.subscribers

module _ {B : Broadcaster} {C : Type 0} where
  abbrev pub set_conn : ℕ → Conn → Hub B C → Hub B C
  set_conn p c h = record h { conn_at = update p c h.conn_at }

  abbrev pub set_sub : ℕ → Subscriber C → Hub B C → Hub B C
  set_sub p s h = record h { sub_at = update p s h.sub_at }

  -- `id` is what newConnID drew.
  unfoldable pub connect : Text → Hub B C → ℕ × Hub B C
  unfolding insert update
  connect id h = (
    h.next,
    record h {
      conns = insert id h.next h.conns;
      conn_at = update h.next (record { id = id; outbox = []; subs = [] }) h.conn_at;
      next = suc h.next;
    },
  )

  abbrev pub detach : Text → Option ℕ → Hub B C → List ℕ × Hub B C
  detach id none h = ([], h)
  detach id (some c) h = (
    addresses (h.conn_at c).subs,
    record h {
      conns = erase id h.conns;
      conn_at = update c (record (h.conn_at c) { subs = [] }) h.conn_at;
    },
  )

  -- The locked part of Disconnect: the subscribers to tear down.
  unfoldable pub disconnect_locked : Text → Hub B C → List ℕ × Hub B C
  unfolding lookup erase update
  disconnect_locked id h = detach id (lookup id h.conns) h

  -- The fan-out of a topic without one of its subscribers; the last one ends the subscription.
  abbrev pub leave : ℕ → Text → Fanout B.Subscription → List ℕ → Hub B C → Hub B C
  leave p topic tf [] h = record h {
    topics = erase topic h.topics;
    broadcaster = B.unsubscribe tf.sub h.broadcaster;
  }
  leave p topic tf (q ∷ rest) h = record h {
    topics = insert topic (record tf { subscribers = q ∷ rest }) h.topics;
  }

  abbrev pub leave_topic : ℕ → Text → Option (Fanout B.Subscription) → Hub B C → Hub B C
  leave_topic p topic none h = h
  leave_topic p topic (some tf) h = leave p topic tf (remove p tf.subscribers) h

  unfoldable pub untrack_topic : ℕ → Text → Hub B C → Hub B C
  unfolding lookup insert erase remove
  untrack_topic p topic h = leave_topic p topic (lookup topic h.topics) h

  unfoldable pub untrack_each : ℕ → List Text → Hub B C → Hub B C
  unfolding untrack_topic
  untrack_each p [] h = h
  untrack_each p (t ∷ ts) h = untrack_each p ts (untrack_topic p t h)

  abbrev pub clear_topics : ℕ → Hub B C → Hub B C
  clear_topics p h = set_sub p (record (h.sub_at p) { topics = [] }) h

  unfoldable pub untrack_topics : ℕ → Hub B C → Hub B C
  unfolding untrack_each update
  untrack_topics p h = clear_topics p (untrack_each p (h.sub_at p).topics h)

  abbrev pub join_topic : ℕ → Text → Fanout B.Subscription → Hub B C → Hub B C
  join_topic p topic tf h = record h {
    topics = insert topic (record tf { subscribers = add_member p tf.subscribers }) h.topics;
    sub_at =
        update p (record (h.sub_at p) { topics = add_text topic (h.sub_at p).topics }) h.sub_at;
  }

  abbrev pub open_topic :
      ℕ
      → Text
      → Result B.Failure B.Subscription × B.State
      → Hub B C
      → Option (HubError B C) × Hub B C
  open_topic p topic (err e, b) h = (some (topic_failed topic e), record h { broadcaster = b })
  open_topic p topic (ok s, b) h = (
    none,
    join_topic p topic (record { sub = s; subscribers = [] }) (record h { broadcaster = b }),
  )

  abbrev pub stream_topic :
      ℕ → Text → Option (Fanout B.Subscription) → Hub B C → Option (HubError B C) × Hub B C
  stream_topic p topic (some tf) h = (none, join_topic p topic tf h)
  stream_topic p topic none h = open_topic p topic (B.subscribe topic h.broadcaster) h

  unfoldable pub stream_from : ℕ → Text → Hub B C → Option (HubError B C) × Hub B C
  unfolding lookup insert update add_member add_text
  stream_from p topic h = stream_topic p topic (lookup topic h.topics) h

  -- A send that is dropped where the outbox is full.
  unfoldable pub send : ℕ → Text → Hub B C → Hub B C
  unfolding update
  send p payload h =
      let s = h.sub_at p in
      let c = h.conn_at s.conn in
      if ltb (length c.outbox) default_outbox_size
      then set_conn s.conn
          (record c { outbox = c.outbox ++ (record { channel = s.name; payload = payload }) ∷ [] })
          h
      else h

  unfoldable pub send_each : List ℕ → Text → Hub B C → Hub B C
  unfolding send
  send_each [] payload h = h
  send_each (p ∷ ps) payload h = send_each ps payload (send p payload h)

  unfoldable pub recipients : Text → Hub B C → List ℕ
  unfolding lookup
  recipients topic h = recipients_of (lookup topic h.topics)

  -- One round of `pump`, where nothing comes between the snapshot and the sends.
  unfoldable pub pump : Text → Text → Hub B C → Hub B C
  unfolding recipients send_each
  pump topic payload h = send_each (recipients topic h) payload h

  abbrev pub take_first : ℕ → List Message → Hub B C → Option Message × Hub B C
  take_first c [] h = (none, h)
  take_first c (m ∷ ms) h = (some m, set_conn c (record (h.conn_at c) { outbox = ms }) h)

  -- The handler behind /cable takes the first message.
  unfoldable pub take_message : ℕ → Hub B C → Option Message × Hub B C
  unfolding update
  take_message c h = take_first c (h.conn_at c).outbox h

  unfoldable pub broadcast : Text → Text → Hub B C → Option B.Failure × Hub B C
  broadcast topic payload h =
      let (e, b) = B.publish topic payload h.broadcaster in (e, record h { broadcaster = b })

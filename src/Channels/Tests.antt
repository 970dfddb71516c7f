-- ===== src/Channels/Tests.antt =====
-- A hub over the in-process broadcaster, with one channel that streams from one topic.
use trails.Base.{
  has_text, has_prefix, erase, insert, ◌≡◌, ◌≤◌, refl, arith, true, not, ◌&&◌, ◌==◌, none, some,
  List, [], ◌∷◌, ◌++◌, codes, ◌===◌, lookup, member, take,
}
use trails.Channels.Hub.{
  Subscriber, Hub, unknown_connection, Channels, connect, disconnect_locked, stream_from,
  recipients, pump, untrack_topics, default_outbox_size,
}
use trails.Channels.Api.{add_subscriber, disconnect, unsubscribe}
use trails.Channels.Steps.{Wf, connects, registers, streams, Reachable, start, next}
use trails.Channels.Invariant.{Reachable-Wf}
use trails.Channels.Subscriptions.{IsConsistent, Reachable-IsConsistent}
use trails.Channels.Delivery.{due, pump-due, recipients-untrack_topics}
use trails.Channels.Late.{stream_from_late}
use trails.Channels.Memory
use trails.Channels.Memory.{
  leave, close_channel, Backend, new, publish, members, memory_broadcaster,
}
use trails.Channels.Memory.Steps
use trails.Channels.Memory.Accounts.{memory_accounts, new-IsSound, new-live}
use trails.Channels.Memory.Laws.{closes_behind_send, Reachable-closes}
use trails.Channels.Sse.{write_sse_event}
use trails.Channels.Sse.Laws.{stream_lines, process, read_event, read_event-write_sse_event}
use trails.Channels.Poll.{Row, Poller}

abbrev Cable : Type 0
Cable = Hub memory_broadcaster Unit

abbrev nobody : Subscriber Unit
nobody = record { conn = 0; channel = tt; name = []; params = []; topics = [] }

abbrev empty : Cable
empty = record {
  broadcaster = new;
  conns = [];
  topics = [];
  conn_at = λ c. record { id = []; outbox = []; subs = [] };
  sub_at = λ p. nobody;
  next = 0;
}

empty-Wf : Wf empty
unfolding recipients lookup has_text member
empty-Wf = record {
  no_empty = λ t. tt;
  agree = λ t p. refl;
  fresh = λ p l. refl;
  room = λ c. omega arith;
}

abbrev room : Channels memory_broadcaster Unit
room = record {
  factory = λ name. some tt;
  subscribed = λ ch p params h. stream_from p (codes "news") h;
  unsubscribed = λ ch p h. h;
  receive = λ ch p payload h. (none, h);
}

abbrev connected : Cable
connected = (connect (codes "a") empty).1

abbrev registered : Cable
registered = (add_subscriber 0 (codes "room") tt [] connected).1

abbrev streaming : Cable
streaming = (stream_from 1 (codes "news") registered).1

registered-Reachable : Reachable empty registered
unfolding connect lookup codes
registered-Reachable =
    next empty connected registered
      (next empty empty connected (start empty) (connects (codes "a") empty))
      (registers 0 (codes "room") tt [] connected refl)

streaming-Reachable : Reachable empty streaming
unfolding connect
streaming-Reachable =
    next empty registered streaming registered-Reachable
      (streams 1 (codes "news") registered (omega arith))

empty-IsConsistent : IsConsistent memory_accounts empty
unfolding lookup
empty-IsConsistent = (empty-Wf, record { sound = new-IsSound; holds = new-live })

Reachable-IsConsistent_example : IsConsistent memory_accounts streaming
Reachable-IsConsistent_example =
    Reachable-IsConsistent memory_accounts empty streaming streaming-Reachable empty-IsConsistent

streaming-Wf : Wf streaming
streaming-Wf = Reachable-Wf empty streaming streaming-Reachable empty-Wf

pump-due_example :
    ((pump (codes "news") (codes "hi") streaming).conn_at 0).outbox
    ≡ take default_outbox_size (
        (streaming.conn_at 0).outbox
        ++ due 0 (recipients (codes "news") streaming) (codes "hi") streaming.sub_at)
pump-due_example = pump-due (codes "news") (codes "hi") streaming 0 streaming-Wf

recipients-untrack_topics_example :
    member 1 (recipients (codes "news") (untrack_topics 1 streaming))
    ≡ (not (1 == 1) && member 1 (recipients (codes "news") streaming))
recipients-untrack_topics_example =
    recipients-untrack_topics 1 1 (codes "news") streaming streaming-Wf

-- Disconnected while Subscribed runs.
stream_from_late_example :
    let late = (stream_from 1 (codes "news") (disconnect room (codes "a") registered)).1 in
    (member 1 (disconnect_locked (codes "a") registered).0 ≡ true)
    × ((stream_from 1 (codes "news") (disconnect room (codes "a") registered)).0 ≡ none)
    × (member 1 (recipients (codes "news") late) ≡ true)
    × (disconnect room (codes "a") late ≡ late)
    × (unsubscribe room (codes "a") (codes "room") late
        ≡ (some (unknown_connection (codes "a")), late))
unfolding lookup codes disconnect_locked connect erase ◌===◌ stream_from insert new Memory.subscribe
    disconnect untrack_topics
stream_from_late_example =
    stream_from_late room (codes "a") (codes "room") (codes "news") tt [] 0 connected 0 refl
      (λ ch q k. refl) refl

abbrev subscribed : Backend
subscribed = (Memory.subscribe (codes "news") new).1

abbrev published : Backend
published = (publish (codes "news") (codes "hi") subscribed).1

abbrev left : Backend
left = leave 0 published

abbrev ended : Backend
ended = close_channel 0 left

ended-Reachable : Steps.Reachable new ended
unfolding new Memory.subscribe publish leave
ended-Reachable =
    Steps.next new left ended
      (Steps.next new published left
        (Steps.next new subscribed published
          (Steps.next new new subscribed (Steps.start new) (Steps.subscribes (codes "news") new))
          (Steps.publishes (codes "news") (codes "hi") subscribed))
        (Steps.leaves 0 published refl (omega arith)))
      (Steps.closes_channel 0 left refl)

Reachable-closes_example : (ended.closes 0 ≤ 1) × (closes_behind_send (codes "news") 0 ended ≡ 0)
Reachable-closes_example = Reachable-closes ended (codes "news") 0 ended-Reachable

read_event-write_sse_event_example :
    read_event (write_sse_event (codes "room") (codes "a\nb")) ≡ some (codes "room", codes "a\nb")
unfolding codes
read_event-write_sse_event_example =
    read_event-write_sse_event (codes "room") (codes "a\nb")
      (
        ground arith,
        (
          ground arith,
          (
            ground arith,
            (ground arith, (ground arith, (ground arith, (ground arith, (ground arith, tt))))),
          ),
        ),
      )
      (ground arith, (ground arith, (ground arith, tt)))

-- A payload with a CR is read as two lines, and what is behind it may be a field.
read_event_return :
    read_event (write_sse_event (codes "room") (codes "a\revent: x")) ≡ some (codes "x", codes "a")
unfolding codes read_event write_sse_event stream_lines process has_prefix
read_event_return = refl

abbrev rows : List Row
rows =
    (record { id = 3; topic = codes "news"; payload = codes "old" })
    ∷ (record { id = 5; topic = codes "news"; payload = codes "a" })
    ∷ (record { id = 6; topic = codes "news"; payload = codes "b" })
    ∷ []

abbrev poller : Poller
poller = record { subs = (codes "news", 0 ∷ []) ∷ []; buffer = λ p. []; cursor = 3 }

-- ===== src/Channels/Sse.antt =====
-- channels/sse.go: the frames of the event stream, and the command endpoint.
pub mod Laws
use trails.Base.{
  not, ℕ, Bool, true, false, Option, none, some, List, [], ◌∷◌, ◌++◌, ◌==◌, if◌then◌else◌, Text,
  codes, concat, ◌===◌, Table, Result, ok, err,
}
use trails.Channels.Hub.{
  Message, connect, take_message, Broadcaster, Hub, HubError, unknown_connection,
  already_subscribed, not_subscribed, unknown_channel, topic_failed, channel_failed, Channels,
}
use trails.Channels.Api.{disconnect, subscribe, unsubscribe, receive}

-- bytes.Split(data, "\n").
abbrev push_line : ℕ → List Text → List Text
push_line c [] = (c ∷ []) ∷ []
push_line c (l ∷ ls) = (c ∷ l) ∷ ls

unfoldable pub split_lines : Text → List Text
split_lines [] = [] ∷ []
split_lines (c ∷ s) = let rest = split_lines s in if c == b'\n' then [] ∷ rest else push_line c rest

unfoldable pub data_lines : List Text → Text
unfolding codes
data_lines [] = []
data_lines (l ∷ ls) = codes "data: " ++ (l ++ (b'\n' ∷ data_lines ls))

-- What is written where no write fails.
unfoldable pub write_sse_event : Text → Text → Text
unfolding codes split_lines data_lines
write_sse_event event payload =
    codes "event: " ++ (event ++ (b'\n' ∷ (data_lines (split_lines payload) ++ codes "\n")))

unfoldable pub write_sse_comment : Text → Text
unfolding codes
write_sse_comment comment = codes ": " ++ (comment ++ codes "\n\n")

unfoldable pub welcome : Text → Text
unfolding codes
welcome id =
    write_sse_event (codes "connected")
      (concat (codes "{\"connection_id\":\"" ∷ id ∷ codes "\"}" ∷ []))

-- The select of the stream: the request is over, a message is there, or the heartbeat is due.
pub data Wakeup : Type 0 where
  done : Wakeup
  message tick : Bool → Wakeup

-- Nothing, where another receive has taken the message.
unfoldable pub frame_of : Option Message → Text
unfolding write_sse_event
frame_of none = []
frame_of (some m) = write_sse_event m.channel m.payload

pub record CommandBody : Type 0 where
  pub command : Text
  pub channel : Text
  pub params : Table Text
  pub payload : Text

abbrev pub status_for : {B : Broadcaster} {C : Type 0} → HubError B C → ℕ
status_for (unknown_connection s) = 404
status_for (unknown_channel s) = 404
status_for (not_subscribed s) = 404
status_for (already_subscribed s) = 409
status_for (topic_failed t f) = 500
status_for (channel_failed s) = 500

module _ {B : Broadcaster} {C : Type 0} (A : Channels B C) where
  abbrev outcome_status : Option (HubError B C) × Hub B C → ℕ × Hub B C
  outcome_status (none, h) = (200, h)
  outcome_status (some e, h) = (status_for e, h)

  -- A command of the body that was bound, of a connection; the status of the answer.
  unfoldable pub run_command : Text → CommandBody → Hub B C → ℕ × Hub B C
  unfolding codes ◌===◌ subscribe unsubscribe receive
  run_command id body h =
      if body.command === codes "subscribe"
      then outcome_status (subscribe A id body.channel body.params h)
      else if body.command === codes "unsubscribe"
      then outcome_status (unsubscribe A id body.channel h)
      else if body.command === codes "message"
      then outcome_status (receive A id body.channel body.payload h)
      else (400, h)

  abbrev bound_command : Text → Option CommandBody → Hub B C → ℕ × Hub B C
  bound_command id none h = (400, h)
  bound_command id (some body) h = run_command id body h

  -- `id` is the header's value, and `body` what Bind made of the request.
  unfoldable pub handle_command : Text → Option CommandBody → Hub B C → ℕ × Hub B C
  unfolding run_command
  handle_command [] body h = (400, h)
  handle_command (c ∷ id) body h = bound_command (c ∷ id) body h

  -- What the loop of handleConnect wakes up for; the flag says that its write does not fail.
  unfoldable pub serve : Text → ℕ → List Wakeup → Text → Hub B C → Text × Hub B C
  unfolding take_message write_sse_event write_sse_comment codes disconnect
  serve id c [] out h = (out, h)
  serve id c (done ∷ es) out h = (out, disconnect A id h)
  serve id c (tick w ∷ es) out h =
      let later = serve id c es (out ++ write_sse_comment (codes "ping")) h in
      if w then later else (out, disconnect A id h)
  serve id c (message w ∷ es) out h =
      let (taken, h') = take_message c h in
      let frame = frame_of taken in
      let later = serve id c es (out ++ frame) h' in if w then later else (out, disconnect A id h')

  -- handleConnect: the status, what was written and the hub. `id` is what newConnID drew.
  unfoldable pub handle_connect : Bool → Bool → Text → List Wakeup → Hub B C → ℕ × (Text × Hub B C)
  unfolding welcome serve connect disconnect
  handle_connect flushes welcomed id es h =
      if not flushes
      then (500, ([], h))
      else (let (c, h') = connect id h in
          if not welcomed
          then (200, ([], disconnect A id h'))
          else (200, serve id c es (welcome id) h'))

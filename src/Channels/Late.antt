-- ===== src/Channels/Late.antt =====
-- A channel's Subscribed that goes on after the connection has been disconnected.
use trails.Base.{
  ℕ, ◌≡◌, refl, ap, ◌∙◌, arith, true, List, ◌∷◌, Table, update, lookup-erase, Option, none, some,
  [], ==_refl, Text, ===_refl, lookup, insert, lookup-insert, member, add_member, member-add_member,
  Result, ok, err,
}
use trails.Channels.Hub.{
  Broadcaster, Fanout, Hub, unknown_connection, Channels, stream_from, stream_topic, open_topic,
  join_topic, recipients, recipients_of, disconnect_locked, detach, untrack_topics, addresses,
}
use trails.Channels.Untrack.{untrack_each-SameObjects}
use trails.Channels.Api.{
  add_subscriber, teardown, disconnect, unsubscribe, find_sub, find_conn, teardown_each,
}

member-addresses :
    (p : ℕ) (name : Text) (m : Table ℕ) → member p (addresses (insert name p m)) ≡ true
unfolding insert member
member-addresses p name [] = rw (==_refl p) refl
member-addresses p name ((j, q) ∷ m) = ground (arith, ==_refl p, member-addresses p name m)

module _ {B : Broadcaster} {C : Type 0} where
  -- `k` goes on as `h` did, and the subscriber is in the fan-out of the topic.
  abbrev Joined : ℕ → Text → Hub B C → Hub B C → Type 0
  Joined p topic h k = (member p (recipients topic k) ≡ true) × (k.conns ≡ h.conns)

  join_topic-Joined :
      (p : ℕ) (topic : Text) (tf : Fanout B.Subscription) (h : Hub B C)
      → Joined p topic h (join_topic p topic tf h)
  unfolding recipients
  join_topic-Joined p topic tf h =
      let joined : Fanout B.Subscription = record tf {
        subscribers = add_member p tf.subscribers;
      } in
      let at : lookup topic (insert topic joined h.topics) ≡ some joined =
        lookup-insert topic topic joined h.topics ∙ rw (===_refl topic) refl in
      (
        ap (λ o. member p (recipients_of o)) at
            ∙ (member-add_member p p tf.subscribers ∙ rw (==_refl p) refl),
        refl,
      )

  open_topic-Joined :
      (p : ℕ) (topic : Text) (opened : Result B.Failure B.Subscription × B.State) (h : Hub B C)
      → (open_topic p topic opened h).0 ≡ none
      → Joined p topic h (open_topic p topic opened h).1
  open_topic-Joined p topic (err x, b) h e = absurd (cc)
  open_topic-Joined p topic (ok s, b) h e =
      join_topic-Joined p topic (record { sub = s; subscribers = [] })
        (record h { broadcaster = b })

  stream_topic-Joined :
      (p : ℕ) (topic : Text) (found : Option (Fanout B.Subscription)) (h : Hub B C)
      → (stream_topic p topic found h).0 ≡ none
      → Joined p topic h (stream_topic p topic found h).1
  stream_topic-Joined p topic (some tf) h e = join_topic-Joined p topic tf h
  stream_topic-Joined p topic none h e =
      open_topic-Joined p topic (B.subscribe topic h.broadcaster) h e

  disconnect_gone :
      (A : Channels B C) (id : Text) (h : Hub B C)
      → lookup id h.conns ≡ none
      → disconnect A id h ≡ h
  unfolding disconnect disconnect_locked teardown_each
  disconnect_gone A id h e = ap (λ o. let (ps, k) = detach id o h in teardown_each A ps k) e

  unsubscribe_gone :
      (A : Channels B C) (id name : Text) (h : Hub B C)
      → lookup id h.conns ≡ none
      → unsubscribe A id name h ≡ (some (unknown_connection id), h)
  unfolding unsubscribe find_sub find_conn
  unsubscribe_gone A id name h e = rw e refl

  -- Nothing that takes subscribers out of their topics touches the connections.
  teardown_each-conns :
      (A : Channels B C) (ps : List ℕ) (h : Hub B C)
      → ((ch : C) (q : ℕ) (k : Hub B C) → (A.unsubscribed ch q k).conns ≡ k.conns)
      → (teardown_each A ps h).conns ≡ h.conns
  unfolding teardown_each teardown untrack_topics
  teardown_each-conns A [] h quiet = refl
  teardown_each-conns A (p ∷ ps) h quiet =
      let k = A.unsubscribed (h.sub_at p).channel p h in
      teardown_each-conns A ps (teardown A p h) quiet
      ∙ ((untrack_each-SameObjects p (k.sub_at p).topics k).same_conns
          ∙ quiet (h.sub_at p).channel p h)

  detach-conns :
      (id : Text) (found : Option ℕ) (h : Hub B C)
      → lookup id h.conns ≡ found
      → lookup id (detach id found h).1.conns ≡ none
  detach-conns id none h e = e
  detach-conns id (some c) h e = lookup-erase id id h.conns ∙ rw (===_refl id) refl

  disconnect-conns :
      (A : Channels B C) (id : Text) (h : Hub B C)
      → ((ch : C) (q : ℕ) (k : Hub B C) → (A.unsubscribed ch q k).conns ≡ k.conns)
      → lookup id (disconnect A id h).conns ≡ none
  unfolding disconnect disconnect_locked
  disconnect-conns A id h quiet =
      let d = detach id (lookup id h.conns) h in
      ap (lookup id) (teardown_each-conns A d.0 d.1 quiet)
      ∙ detach-conns id (lookup id h.conns) h refl

  added_is_torn :
      (id name : Text) (ch : C) (params : Table Text) (c : ℕ) (h : Hub B C)
      → lookup id h.conns ≡ some c
      → member h.next (disconnect_locked id (add_subscriber c name ch params h).1).0 ≡ true
  unfolding disconnect_locked update
  added_is_torn id name ch params c h e =
      rw (e, ==_refl c) (member-addresses h.next name (h.conn_at c).subs)

  open_topic_opens :
      (p : ℕ) (topic : Text) (opened : Result B.Failure B.Subscription × B.State) (h : Hub B C)
      (s : B.Subscription)
      → opened.0 ≡ ok s
      → (open_topic p topic opened h).0 ≡ none
  open_topic_opens p topic (err x, b) h s e = absurd (cc)
  open_topic_opens p topic (ok r, b) h s e = refl

  stream_topic_opens :
      (p : ℕ) (topic : Text) (found : Option (Fanout B.Subscription)) (h : Hub B C)
      (s : B.Subscription)
      → (B.subscribe topic h.broadcaster).0 ≡ ok s
      → (stream_topic p topic found h).0 ≡ none
  stream_topic_opens p topic (some tf) h s e = refl
  stream_topic_opens p topic none h s e =
      open_topic_opens p topic (B.subscribe topic h.broadcaster) h s e

  -- A channel's Subscribed that runs on behind a Disconnect. Subscribe has registered a new
  -- subscriber with a live connection; then the connection is disconnected, and the subscriber is
  -- among those that this tears down; then Subscribed streams from a topic, to which the Broadcaster
  -- would accept a subscription. It succeeds: the subscriber is in the topic's fan-out, and neither
  -- another Disconnect nor an Unsubscribe of that connection takes it out, as they change nothing.
  -- The app's Unsubscribed is assumed to leave the connections as they are.
  pub stream_from_late :
      (A : Channels B C) (id name topic : Text) (ch : C) (params : Table Text) (c : ℕ) (h : Hub B C)
      (s : B.Subscription)
      → lookup id h.conns ≡ some c
      → ((ch' : C) (q : ℕ) (k : Hub B C) → (A.unsubscribed ch' q k).conns ≡ k.conns)
      → (B.subscribe topic (disconnect A id (add_subscriber c name ch params h).1).broadcaster).0
        ≡ ok s
      → let (p, registered) = add_subscriber c name ch params h in
        let (refused, late) = stream_from p topic (disconnect A id registered) in
        (member p (disconnect_locked id registered).0 ≡ true)
        × (refused ≡ none)
        × (member p (recipients topic late) ≡ true)
        × (disconnect A id late ≡ late)
        × (unsubscribe A id name late ≡ (some (unknown_connection id), late))
  unfolding stream_from
  stream_from_late A id name topic ch params c h s live quiet opens =
      let p = h.next in
      let gone = disconnect A id (add_subscriber c name ch params h).1 in
      let late = (stream_topic p topic (lookup topic gone.topics) gone).1 in
      let accepted = stream_topic_opens p topic (lookup topic gone.topics) gone s opens in
      let (found, same) = stream_topic-Joined p topic (lookup topic gone.topics) gone accepted in
      let still_gone : lookup id late.conns ≡ none =
        ap (lookup id) same ∙ disconnect-conns A id (add_subscriber c name ch params h).1 quiet in
      (
        added_is_torn id name ch params c h live,
        accepted,
        found,
        disconnect_gone A id late still_gone,
        unsubscribe_gone A id name late still_gone,
      )

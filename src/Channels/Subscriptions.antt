-- ===== src/Channels/Subscriptions.antt =====
-- What the hub of channels/hub.go holds at its Broadcaster: for each topic with a fan-out the one
-- subscription of that fan-out, and nothing else.
use trails.Base.{
  ℕ, ◌≡◌, refl, sym, ap, ◌∙◌, arith, Option, none, some, List, [], ◌∷◌, ltb, length, Text, lookup,
  lookup-erase, remove, add_member, Result, ok, err, subst, if-elim,
}
use trails.Channels.Hub.{
  Broadcaster, Fanout, Hub, Message, connect, detach, disconnect_locked, leave, leave_topic,
  untrack_topic, untrack_each, untrack_topics, join_topic, open_topic, stream_topic, stream_from,
  send, take_first, take_message, broadcast, default_outbox_size,
}
use trails.Channels.Steps.{
  Wf, Step, connects, disconnects, registers, drops, streams, untracks, sends, takes, broadcasts,
  Reachable, start, next,
}
use trails.Channels.Invariant.{Reachable-Wf}
use trails.Channels.Accounts.{Accounts, held, held-insert, kept, added}

module _ {B : Broadcaster} (A : Accounts B) {C : Type 0} where
  pub record IsAccounted (h : Hub B C) : Type 0 where
    pub sound : A.IsSound h.broadcaster
    pub holds : (t : Text) → A.live h.broadcaster t ≡ held (lookup t h.topics)

  unchanged :
      (h k : Hub B C)
      → k.broadcaster ≡ h.broadcaster
      → k.topics ≡ h.topics
      → IsAccounted h
      → IsAccounted k
  unchanged h k e f a = record {
    sound = subst A.IsSound (sym e) a.sound;
    holds = λ t. ap (λ b. A.live b t) e ∙ (a.holds t ∙ ap (λ m. held (lookup t m)) (sym f));
  }

  leave-IsAccounted :
      (p : ℕ) (topic : Text) (tf : Fanout B.Subscription) (rest : List ℕ) (h : Hub B C)
      → lookup topic h.topics ≡ some tf
      → IsAccounted h
      → IsAccounted (leave p topic tf rest h)
  leave-IsAccounted p topic tf [] h e a =
      let only : A.live h.broadcaster topic ≡ tf.sub ∷ [] = a.holds topic ∙ ap held e in
      record {
        sound = A.unsubscribe-IsSound tf.sub topic h.broadcaster a.sound only;
        holds = λ t. ground (
          arith,
          A.unsubscribe_ends tf.sub topic h.broadcaster t a.sound only,
          lookup-erase t topic h.topics,
          a.holds t,
        );
      }
  leave-IsAccounted p topic tf (q ∷ rest) h e a = record {
    sound = a.sound;
    holds = λ t.
        kept A topic t tf.sub h.broadcaster h.topics (a.holds topic ∙ ap held e) (a.holds t)
        ∙ sym (held-insert topic t (record tf { subscribers = q ∷ rest }) h.topics);
  }

  leave_topic-IsAccounted :
      (p : ℕ) (topic : Text) (found : Option (Fanout B.Subscription)) (h : Hub B C)
      → lookup topic h.topics ≡ found
      → IsAccounted h
      → IsAccounted (leave_topic p topic found h)
  leave_topic-IsAccounted p topic none h e a = a
  leave_topic-IsAccounted p topic (some tf) h e a =
      leave-IsAccounted p topic tf (remove p tf.subscribers) h e a

  untrack_each-IsAccounted :
      (p : ℕ) (ts : List Text) (h : Hub B C) → IsAccounted h → IsAccounted (untrack_each p ts h)
  unfolding untrack_each untrack_topic
  untrack_each-IsAccounted p [] h a = a
  untrack_each-IsAccounted p (t ∷ ts) h a =
      untrack_each-IsAccounted p ts (untrack_topic p t h)
        (leave_topic-IsAccounted p t (lookup t h.topics) h refl a)

  untrack_topics-IsAccounted :
      (p : ℕ) (h : Hub B C) → IsAccounted h → IsAccounted (untrack_topics p h)
  unfolding untrack_topics
  untrack_topics-IsAccounted p h a =
      unchanged (untrack_each p (h.sub_at p).topics h) (untrack_topics p h) refl refl
        (untrack_each-IsAccounted p (h.sub_at p).topics h a)

  join-IsAccounted :
      (p : ℕ) (topic : Text) (tf : Fanout B.Subscription) (h : Hub B C)
      → lookup topic h.topics ≡ some tf
      → IsAccounted h
      → IsAccounted (join_topic p topic tf h)
  join-IsAccounted p topic tf h e a = record {
    sound = a.sound;
    holds = λ t.
        kept A topic t tf.sub h.broadcaster h.topics (a.holds topic ∙ ap held e) (a.holds t)
        ∙ sym (
            held-insert topic t (record tf { subscribers = add_member p tf.subscribers }) h.topics);
  }

  open-IsAccounted :
      (p : ℕ) (topic : Text) (opened : Result B.Failure B.Subscription × B.State) (h : Hub B C)
      → lookup topic h.topics ≡ none
      → B.subscribe topic h.broadcaster ≡ opened
      → IsAccounted h
      → IsAccounted (open_topic p topic opened h).1
  open-IsAccounted p topic (err x, b) h e o a = record {
    sound = subst A.IsSound (ap (λ r. r.1) o) (A.subscribe-IsSound topic h.broadcaster a.sound);
    holds = λ t.
        ap (λ r. A.live r.1 t) (sym o)
        ∙ (A.subscribe_refused topic h.broadcaster x t a.sound (ap (λ r. r.0) o) ∙ a.holds t);
  }
  open-IsAccounted p topic (ok s, b) h e o a = record {
    sound = subst A.IsSound (ap (λ r. r.1) o) (A.subscribe-IsSound topic h.broadcaster a.sound);
    holds = λ t.
        ap (λ r. A.live r.1 t) (sym o)
        ∙ (A.subscribe_adds topic h.broadcaster s t a.sound (ap (λ r. r.0) o)
            ∙ (added A topic t s h.topics e (a.holds t)
                ∙ sym (
                    held-insert topic t (record { sub = s; subscribers = add_member p [] })
                      h.topics)));
  }

  stream_topic-IsAccounted :
      (p : ℕ) (topic : Text) (found : Option (Fanout B.Subscription)) (h : Hub B C)
      → lookup topic h.topics ≡ found
      → IsAccounted h
      → IsAccounted (stream_topic p topic found h).1
  stream_topic-IsAccounted p topic (some tf) h e a = join-IsAccounted p topic tf h e a
  stream_topic-IsAccounted p topic none h e a =
      open-IsAccounted p topic (B.subscribe topic h.broadcaster) h e refl a

  broadcast-IsAccounted :
      (topic payload : Text) (h : Hub B C)
      → IsAccounted h
      → IsAccounted (broadcast topic payload h).1
  unfolding broadcast
  broadcast-IsAccounted topic payload h a = record {
    sound = A.publish-IsSound topic payload h.broadcaster a.sound;
    holds = λ t. A.publish_keeps topic payload h.broadcaster t ∙ a.holds t;
  }

  detach-IsAccounted :
      (id : Text) (found : Option ℕ) (h : Hub B C)
      → IsAccounted h
      → IsAccounted (detach id found h).1
  detach-IsAccounted id none h a = a
  detach-IsAccounted id (some c) h a = unchanged h (detach id (some c) h).1 refl refl a

  send-IsAccounted :
      (p : ℕ) (payload : Text) (h : Hub B C) → IsAccounted h → IsAccounted (send p payload h)
  unfolding send
  send-IsAccounted p payload h a =
      if-elim (λ (k : Hub B C). IsAccounted k)
        (ltb (length (h.conn_at (h.sub_at p).conn).outbox) default_outbox_size) _ _
        (unchanged h _ refl refl a) a

  taken-IsAccounted :
      (c : ℕ) (ms : List Message) (h : Hub B C) → IsAccounted h → IsAccounted (take_first c ms h).1
  taken-IsAccounted c [] h a = a
  taken-IsAccounted c (m ∷ ms) h a = unchanged h (take_first c (m ∷ ms) h).1 refl refl a

  Step-IsAccounted : (h k : Hub B C) → Step h k → IsAccounted h → IsAccounted k
  unfolding connect disconnect_locked stream_from take_message
  Step-IsAccounted _ k (connects id h) a = unchanged h k refl refl a
  Step-IsAccounted _ _ (disconnects id h) a = detach-IsAccounted id (lookup id h.conns) h a
  Step-IsAccounted _ k (registers c name ch params h e) a = unchanged h k refl refl a
  Step-IsAccounted _ k (drops c name h) a = unchanged h k refl refl a
  Step-IsAccounted _ _ (streams p topic h l) a =
      stream_topic-IsAccounted p topic (lookup topic h.topics) h refl a
  Step-IsAccounted _ _ (untracks p h) a = untrack_topics-IsAccounted p h a
  Step-IsAccounted _ _ (sends p payload h) a = send-IsAccounted p payload h a
  Step-IsAccounted _ _ (takes c h) a = taken-IsAccounted c (h.conn_at c).outbox h a
  Step-IsAccounted _ _ (broadcasts topic payload h) a = broadcast-IsAccounted topic payload h a

  Reachable-IsAccounted : (h k : Hub B C) → Reachable h k → IsAccounted h → IsAccounted k
  Reachable-IsAccounted h _ (start _) a = a
  Reachable-IsAccounted h _ (next _ k l r s) a =
      Step-IsAccounted k l s (Reachable-IsAccounted h k r a)

  abbrev pub IsConsistent : Hub B C → Type 0
  IsConsistent h = Wf h × IsAccounted h

  -- However the steps of all goroutines come between each other, over a Broadcaster that keeps the
  -- contract of subscriptions, from a consistent hub only consistent ones are reached: the fan-outs
  -- and the topics of the subscribers agree, and no fan-out is empty; the Broadcaster has for each
  -- topic with a fan-out the one subscription of that fan-out, and for any other topic none; no
  -- subscriber whose address is not given out yet has topics, and no outbox holds more messages than
  -- its capacity.
  pub Reachable-IsConsistent : (h k : Hub B C) → Reachable h k → IsConsistent h → IsConsistent k
  Reachable-IsConsistent h k r (w, a) = (Reachable-Wf h k r w, Reachable-IsAccounted h k r a)

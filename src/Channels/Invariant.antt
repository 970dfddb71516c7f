-- ===== src/Channels/Invariant.antt =====
-- Every step keeps the invariant.
use trails.Base.{
  ℕ, ◌≡◌, ◌≤◌, refl, sym, ap, ◌∙◌, arith, Bool, true, false, not, ◌&&◌, Option, none, some, List,
  [], ◌∷◌, ◌++◌, ◌==◌, ==_iff, ltb, Text, Table, lookup, member, has_text, length, length-append,
  update, Bool-cases, inl, inr, subst,
}
use trails.Channels.Hub.{
  Broadcaster, Conn, Subscriber, Hub, Message, connect, detach, disconnect_locked, untrack_each,
  untrack_topics, stream_from, send, take_message, take_first, broadcast, recipients,
  default_outbox_size, set_conn,
}
use trails.Channels.Api.{add_subscriber, drop_sub}
use trails.Channels.Untrack.{
  untrack_each-SameObjects, untrack_each-NoEmptyFanout, recipients-untrack_each,
}
use trails.Channels.Joined.{stream_topic-Wf}
use trails.Channels.Steps.{
  Wf, Step, connects, disconnects, registers, drops, streams, untracks, sends, takes, broadcasts,
  Reachable, start, next,
}

update-All :
    {A : Type 0} (P : A → Type 0) (p : ℕ) (a : A) (f : ℕ → A) (q : ℕ)
    → P a
    → P (f q)
    → P (update p a f q)
unfolding update
update-All P p a f q x y = elim (Bool-cases (p == q)) [ inl e ↦ rw e x | inr e ↦ rw e y ]

abbrev HasRoom : Conn → Type 0
HasRoom c = length c.outbox ≤ default_outbox_size

off : (b : Bool) → (not (b && true) && b) ≡ false
off b = ground arith

still : (b m : Bool) → (not (b && false) && m) ≡ m
still b m = ground arith

pushed-HasRoom :
    (ms : List Message) (m : Message)
    → ltb (length ms) default_outbox_size ≡ true
    → length (ms ++ m ∷ []) ≤ default_outbox_size
pushed-HasRoom ms m e = ground (arith, e, length-append ms (m ∷ []))

module _ {B : Broadcaster} {C : Type 0} where
  connect-Wf : (id : Text) (h : Hub B C) → Wf h → Wf (connect id h).1
  unfolding connect recipients
  connect-Wf id h w = record {
    no_empty = w.no_empty;
    agree = w.agree;
    fresh = λ p l. w.fresh p (omega (arith, l));
    room = λ c. update-All HasRoom h.next _ h.conn_at c (omega arith) (w.room c);
  }

  detach-Wf : (id : Text) (found : Option ℕ) (h : Hub B C) → Wf h → Wf (detach id found h).1
  unfolding recipients
  detach-Wf id none h w = w
  detach-Wf id (some a) h w = record {
    no_empty = w.no_empty;
    agree = w.agree;
    fresh = w.fresh;
    room = λ c. update-All HasRoom a _ h.conn_at c (w.room a) (w.room c);
  }

  drop_sub-Wf : (a : ℕ) (name : Text) (h : Hub B C) → Wf h → Wf (drop_sub a name h)
  unfolding recipients
  drop_sub-Wf a name h w = record {
    no_empty = w.no_empty;
    agree = w.agree;
    fresh = w.fresh;
    room = λ c. update-All HasRoom a _ h.conn_at c (w.room a) (w.room c);
  }

  broadcast-Wf : (topic payload : Text) (h : Hub B C) → Wf h → Wf (broadcast topic payload h).1
  unfolding broadcast recipients
  broadcast-Wf topic payload h w = record {
    no_empty = w.no_empty;
    agree = w.agree;
    fresh = w.fresh;
    room = w.room;
  }

  -- Only one connection differs, and its outbox has room.
  set_conn-Wf : (a : ℕ) (n : Conn) (h : Hub B C) → HasRoom n → Wf h → Wf (set_conn a n h)
  unfolding recipients
  set_conn-Wf a n h r w = record {
    no_empty = w.no_empty;
    agree = w.agree;
    fresh = w.fresh;
    room = λ c. update-All HasRoom a n h.conn_at c r (w.room c);
  }

  send-Wf : (p : ℕ) (payload : Text) (h : Hub B C) → Wf h → Wf (send p payload h)
  unfolding send
  send-Wf p payload h w =
      let c = h.conn_at (h.sub_at p).conn in
      elim (Bool-cases (ltb (length c.outbox) default_outbox_size)) [
        | inl e ↦ rw e (set_conn-Wf (h.sub_at p).conn _ h (pushed-HasRoom c.outbox _ e) w)
        | inr e ↦ rw e w
      ]

  untrack_topics-agree :
      (q : ℕ) (h : Hub B C)
      → Wf h
      → (t : Text) (p : ℕ)
      → member p (recipients t (untrack_topics q h))
        ≡ has_text t ((untrack_topics q h).sub_at p).topics
  unfolding untrack_topics recipients update has_text
  untrack_topics-agree q h w t p =
      let ts = (h.sub_at q).topics in
      let k = untrack_each q ts h in
      recipients-untrack_each q ts t p h ∙ elim (Bool-cases (q == p)) [
        | inl hit ↦
            let same : q ≡ p = (==_iff q p).0 hit in
            let held : member p (recipients t h) ≡ has_text t ts =
              w.agree t p ∙ ap (λ (x : ℕ). has_text t (h.sub_at x).topics) (sym same) in
            rw hit (rw held (off (has_text t ts)))
        | inr miss ↦
            let kept : has_text t (k.sub_at p).topics ≡ has_text t (h.sub_at p).topics =
              ap (λ (f : ℕ → Subscriber C). has_text t (f p).topics)
                (untrack_each-SameObjects q ts h).same_sub_at in
            rw miss (still (has_text t ts) _ ∙ (w.agree t p ∙ sym kept))
      ]

  untrack_topics-fresh :
      (q : ℕ) (h : Hub B C)
      → Wf h
      → (p : ℕ) → (untrack_topics q h).next ≤ p
      → ((untrack_topics q h).sub_at p).topics ≡ []
  unfolding untrack_topics update
  untrack_topics-fresh q h w p l =
      let same = untrack_each-SameObjects q (h.sub_at q).topics h in
      elim (Bool-cases (q == p)) [
        | inl hit ↦ rw hit refl
        | inr miss ↦ rw miss (
            ap (λ (f : ℕ → Subscriber C). (f p).topics) same.same_sub_at
            ∙ w.fresh p (omega (arith, l, same.same_next)))
      ]

  untrack_topics-Wf : (q : ℕ) (h : Hub B C) → Wf h → Wf (untrack_topics q h)
  unfolding untrack_topics
  untrack_topics-Wf q h w =
      let ts = (h.sub_at q).topics in
      record {
        no_empty = untrack_each-NoEmptyFanout q ts h w.no_empty;
        agree = untrack_topics-agree q h w;
        fresh = untrack_topics-fresh q h w;
        room = λ c.
            subst (λ (f : ℕ → Conn). HasRoom (f c))
              (sym (untrack_each-SameObjects q ts h).same_conn_at) (w.room c);
      }

  taken-Wf :
      (c : ℕ) (ms : List Message) (h : Hub B C)
      → length ms ≤ default_outbox_size
      → Wf h
      → Wf (take_first c ms h).1
  taken-Wf c [] h l w = w
  taken-Wf c (m ∷ ms) h l w = set_conn-Wf c _ h (omega (arith, l)) w

  add_subscriber-agree :
      (a : ℕ) (name : Text) (ch : C) (params : Table Text) (h : Hub B C)
      → Wf h
      → (t : Text) (p : ℕ)
      → let k = (add_subscriber a name ch params h).1 in
        member p (recipients t k) ≡ has_text t (k.sub_at p).topics
  unfolding recipients update has_text
  add_subscriber-agree a name ch params h w t p = elim (Bool-cases (h.next == p)) [
    | inl hit ↦
        let free : (h.sub_at p).topics ≡ [] = w.fresh p (omega (arith, (==_iff h.next p).0 hit)) in
        rw hit (w.agree t p ∙ ap (has_text t) free)
    | inr miss ↦ rw miss (w.agree t p)
  ]

  add_subscriber-Wf :
      (a : ℕ) (name : Text) (ch : C) (params : Table Text) (h : Hub B C)
      → Wf h
      → Wf (add_subscriber a name ch params h).1
  unfolding update
  add_subscriber-Wf a name ch params h w = record {
    no_empty = w.no_empty;
    agree = add_subscriber-agree a name ch params h w;
    fresh = λ p l. elim (Bool-cases (h.next == p)) [
      | inl hit ↦ rw hit refl
      | inr miss ↦ rw miss (w.fresh p (omega (arith, l)))
    ];
    room = λ c. update-All HasRoom a _ h.conn_at c (w.room a) (w.room c);
  }

  pub Step-Wf : (h k : Hub B C) → Step h k → Wf h → Wf k
  unfolding disconnect_locked stream_from take_message
  Step-Wf _ _ (connects id h) w = connect-Wf id h w
  Step-Wf _ _ (disconnects id h) w = detach-Wf id (lookup id h.conns) h w
  Step-Wf _ _ (registers c name ch params h e) w = add_subscriber-Wf c name ch params h w
  Step-Wf _ _ (drops c name h) w = drop_sub-Wf c name h w
  Step-Wf _ _ (streams p topic h l) w = stream_topic-Wf p topic (lookup topic h.topics) h l refl w
  Step-Wf _ _ (untracks p h) w = untrack_topics-Wf p h w
  Step-Wf _ _ (sends p payload h) w = send-Wf p payload h w
  Step-Wf _ _ (takes c h) w = taken-Wf c (h.conn_at c).outbox h (w.room c) w
  Step-Wf _ _ (broadcasts topic payload h) w = broadcast-Wf topic payload h w

  pub Reachable-Wf : (h k : Hub B C) → Reachable h k → Wf h → Wf k
  Reachable-Wf h _ (start _) w = w
  Reachable-Wf h _ (next _ k l r s) w = Step-Wf k l s (Reachable-Wf h k r w)

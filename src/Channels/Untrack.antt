-- ===== src/Channels/Untrack.antt =====
-- What leaving topics does to the fan-outs.
use trails.Base.{
  ℕ, ◌≡◌, refl, sym, ap, ◌∙◌, arith, Bool, true, false, not, ◌&&◌, ◌||◌, Option, none, some, List,
  [], ◌∷◌, ◌==◌, if◌then◌else◌, Text, ◌===◌, ===_iff, lookup, lookup-insert, lookup-erase, member,
  remove, member-remove, has_text, Bool-cases, inl, inr,
}
use trails.Channels.Hub.{
  Broadcaster, Fanout, Hub, leave, leave_topic, untrack_topic, untrack_each, recipients,
  recipients_of,
}

abbrev pub is_nil : List ℕ → Bool
is_nil [] = true
is_nil (p ∷ ps) = false

-- A fan-out has a subscriber.
abbrev pub HasSubscriber : {S : Type 0} → Option (Fanout S) → Type 0
HasSubscriber none = Unit
HasSubscriber (some tf) = is_nil tf.subscribers ≡ false

both : (x y z m : Bool) → (not (x && z) && (not (y && z) && m)) ≡ (not ((y || x) && z) && m)
both x y z m = ground arith

module _ {B : Broadcaster} {C : Type 0} where
  -- No topic is kept without a subscriber.
  abbrev pub NoEmptyFanout : Hub B C → Type 0
  NoEmptyFanout h = (t : Text) → HasSubscriber (lookup t h.topics)

  -- Only the topics and the broadcaster's state differ.
  pub record SameObjects (h k : Hub B C) : Type 0 where
    pub same_conns : k.conns ≡ h.conns
    pub same_conn_at : k.conn_at ≡ h.conn_at
    pub same_sub_at : k.sub_at ≡ h.sub_at
    pub same_next : k.next ≡ h.next

  leave-recipients :
      (q : ℕ) (topic t : Text) (tf : Fanout B.Subscription) (rest : List ℕ) (h : Hub B C)
      → recipients_of (lookup t (leave q topic tf rest h).topics)
        ≡ (if topic === t then rest else recipients_of (lookup t h.topics))
  leave-recipients q topic t tf [] h = ground (arith, lookup-erase t topic h.topics)
  leave-recipients q topic t tf (r ∷ rest) h =
      ground (arith, lookup-insert t topic (record tf { subscribers = r ∷ rest }) h.topics)

  leave-HasSubscriber :
      (q : ℕ) (topic t : Text) (tf : Fanout B.Subscription) (rest : List ℕ) (h : Hub B C)
      → HasSubscriber (lookup t h.topics)
      → HasSubscriber (lookup t (leave q topic tf rest h).topics)
  leave-HasSubscriber q topic t tf [] h s = ground (arith, lookup-erase t topic h.topics)
  leave-HasSubscriber q topic t tf (r ∷ rest) h s =
      ground (arith, lookup-insert t topic (record tf { subscribers = r ∷ rest }) h.topics)

  recipients-leave_topic :
      (q : ℕ) (topic t : Text) (found : Option (Fanout B.Subscription)) (p : ℕ) (h : Hub B C)
      → lookup topic h.topics ≡ found
      → member p (recipients_of (lookup t (leave_topic q topic found h).topics))
        ≡ (not (topic === t && q == p) && member p (recipients_of (lookup t h.topics)))
  unfolding member
  recipients-leave_topic q topic t none p h e = elim (Bool-cases (topic === t)) [
    | inl hit ↦
        let gone : lookup t h.topics ≡ none =
          ap (λ (x : Text). lookup x h.topics) (sym ((===_iff topic t).0 hit)) ∙ e in
        ground (arith, hit, gone)
    | inr miss ↦ ground (arith, miss)
  ]
  recipients-leave_topic q topic t (some tf) p h e =
      ap (member p) (leave-recipients q topic t tf (remove q tf.subscribers) h)
      ∙ elim (Bool-cases (topic === t)) [
        | inl hit ↦
            let here : lookup t h.topics ≡ some tf =
              ap (λ (x : Text). lookup x h.topics) (sym ((===_iff topic t).0 hit)) ∙ e in
            rw hit (rw here (member-remove p q tf.subscribers))
        | inr miss ↦ rw miss refl
      ]

  leave-SameObjects :
      (q : ℕ) (topic : Text) (tf : Fanout B.Subscription) (rest : List ℕ) (h : Hub B C)
      → SameObjects h (leave q topic tf rest h)
  leave-SameObjects q topic tf [] h = record {
    same_conns = refl;
    same_conn_at = refl;
    same_sub_at = refl;
    same_next = refl;
  }
  leave-SameObjects q topic tf (r ∷ rest) h = record {
    same_conns = refl;
    same_conn_at = refl;
    same_sub_at = refl;
    same_next = refl;
  }

  leave_topic-SameObjects :
      (q : ℕ) (topic : Text) (found : Option (Fanout B.Subscription)) (h : Hub B C)
      → SameObjects h (leave_topic q topic found h)
  leave_topic-SameObjects q topic none h = record {
    same_conns = refl;
    same_conn_at = refl;
    same_sub_at = refl;
    same_next = refl;
  }
  leave_topic-SameObjects q topic (some tf) h =
      leave-SameObjects q topic tf (remove q tf.subscribers) h

  leave_topic-NoEmptyFanout :
      (q : ℕ) (topic : Text) (found : Option (Fanout B.Subscription)) (h : Hub B C)
      → NoEmptyFanout h
      → NoEmptyFanout (leave_topic q topic found h)
  leave_topic-NoEmptyFanout q topic none h n = n
  leave_topic-NoEmptyFanout q topic (some tf) h n =
      λ t. leave-HasSubscriber q topic t tf (remove q tf.subscribers) h (n t)

  pub untrack_each-SameObjects :
      (q : ℕ) (ts : List Text) (h : Hub B C) → SameObjects h (untrack_each q ts h)
  unfolding untrack_each untrack_topic
  untrack_each-SameObjects q [] h = record {
    same_conns = refl;
    same_conn_at = refl;
    same_sub_at = refl;
    same_next = refl;
  }
  untrack_each-SameObjects q (t ∷ ts) h =
      let first = leave_topic-SameObjects q t (lookup t h.topics) h in
      let rest = untrack_each-SameObjects q ts (untrack_topic q t h) in
      record {
        same_conns = rest.same_conns ∙ first.same_conns;
        same_conn_at = rest.same_conn_at ∙ first.same_conn_at;
        same_sub_at = rest.same_sub_at ∙ first.same_sub_at;
        same_next = rest.same_next ∙ first.same_next;
      }

  pub untrack_each-NoEmptyFanout :
      (q : ℕ) (ts : List Text) (h : Hub B C) → NoEmptyFanout h → NoEmptyFanout (untrack_each q ts h)
  unfolding untrack_each untrack_topic
  untrack_each-NoEmptyFanout q [] h n = n
  untrack_each-NoEmptyFanout q (t ∷ ts) h n =
      untrack_each-NoEmptyFanout q ts (untrack_topic q t h)
        (leave_topic-NoEmptyFanout q t (lookup t h.topics) h n)

  -- Leaving topics takes the subscriber out of their fan-outs, and nothing else.
  pub recipients-untrack_each :
      (q : ℕ) (ts : List Text) (t : Text) (p : ℕ) (h : Hub B C)
      → member p (recipients t (untrack_each q ts h))
        ≡ (not (has_text t ts && q == p) && member p (recipients t h))
  unfolding untrack_each untrack_topic recipients has_text
  recipients-untrack_each q [] t p h = refl
  recipients-untrack_each q (u ∷ ts) t p h =
      recipients-untrack_each q ts t p (untrack_topic q u h)
      ∙ (ap (λ (b : Bool). not (has_text t ts && q == p) && b)
            (recipients-leave_topic q u t (lookup u h.topics) p h refl)
          ∙ both (has_text t ts) (u === t) (q == p) (member p (recipients t h)))

-- ===== src/Channels/Joined.antt =====
-- `StreamFrom` of channels/hub.go keeps the invariant: what a subscriber's new topic changes.
use trails.Base.{
  ℕ, ◌≡◌, ◌<◌, refl, sym, ap, ◌∙◌, arith, Bool, true, false, ◌||◌, Option, none, some, List, [],
  ◌∷◌, ◌==◌, ==_iff, if◌then◌else◌, Text, ◌===◌, ===_iff, lookup, insert, lookup-insert, member,
  add_member, member-add_member, has_text, add_text, has_text-add_text, update, Result, ok, err,
  Bool-cases, inl, inr, subst,
}
use trails.Channels.Hub.{
  Broadcaster, Fanout, Hub, join_topic, open_topic, stream_topic, recipients, recipients_of,
}
use trails.Channels.Untrack.{is_nil, HasSubscriber}
use trails.Channels.Steps.{Wf}

choose : {A : Type 0} {b c : Bool} (x y : A) → b ≡ c → (if b then x else y) ≡ (if c then x else y)
choose x y e = ap (λ d. if d then x else y) e

add_member-is_nil : (p : ℕ) (xs : List ℕ) → is_nil (add_member p xs) ≡ false
unfolding add_member member
add_member-is_nil p [] = refl
add_member-is_nil p (q ∷ xs) = ground arith

module _ {B : Broadcaster} {C : Type 0} where
  join_topic-agree :
      (p : ℕ) (topic : Text) (tf : Fanout B.Subscription) (h : Hub B C)
      → Wf h
      → recipients topic h ≡ tf.subscribers
      → (t : Text) (r : ℕ)
      → member r (recipients t (join_topic p topic tf h))
        ≡ has_text t ((join_topic p topic tf h).sub_at r).topics
  unfolding recipients update
  join_topic-agree p topic tf h w e t r =
      let joined : Fanout B.Subscription = record tf {
        subscribers = add_member p tf.subscribers;
      } in
      let topics = (h.sub_at p).topics in
      let found = lookup-insert t topic joined h.topics in
      let now = member-add_member r p tf.subscribers in
      let added = has_text-add_text t topic topics in
      elim (Bool-cases (topic === t)) [
        | inl hit ↦
            let same : topic ≡ t = (===_iff topic t).0 hit in
            let here : member r tf.subscribers ≡ has_text t (h.sub_at r).topics =
              ap (member r) (sym e)
              ∙ (w.agree topic r ∙ ap (λ (x : Text). has_text x (h.sub_at r).topics) same) in
            let at : lookup t (insert topic joined h.topics) ≡ some joined =
              found ∙ choose (some joined) (lookup t h.topics) hit in
            let is_added : has_text t (add_text topic topics) ≡ true =
              added ∙ ap (λ (b : Bool). b || has_text t topics) hit in
            ap (λ o. member r (recipients_of o)) at
            ∙ (now ∙ elim (Bool-cases (p == r)) [
              | inl me ↦ rw me (sym is_added)
              | inr other ↦ rw other here
            ])
        | inr miss ↦
            let at : lookup t (insert topic joined h.topics) ≡ lookup t h.topics =
              found ∙ choose (some joined) (lookup t h.topics) miss in
            let is_added : has_text t (add_text topic topics) ≡ has_text t topics =
              added ∙ ap (λ (b : Bool). b || has_text t topics) miss in
            ap (λ o. member r (recipients_of o)) at
            ∙ (w.agree t r ∙ elim (Bool-cases (p == r)) [
              | inl me ↦ rw me (
                  ap (λ (x : ℕ). has_text t (h.sub_at x).topics) (sym ((==_iff p r).0 me))
                  ∙ sym is_added)
              | inr other ↦ rw other refl
            ])
      ]

  join_topic-HasSubscriber :
      (p : ℕ) (topic : Text) (tf : Fanout B.Subscription) (h : Hub B C) (t : Text)
      → HasSubscriber (lookup t h.topics)
      → HasSubscriber (lookup t (join_topic p topic tf h).topics)
  join_topic-HasSubscriber p topic tf h t s =
      let joined : Fanout B.Subscription = record tf {
        subscribers = add_member p tf.subscribers;
      } in
      let found = lookup-insert t topic joined h.topics in
      subst HasSubscriber (sym found) (elim (Bool-cases (topic === t)) [
        | inl hit ↦ rw hit (add_member-is_nil p tf.subscribers)
        | inr miss ↦ rw miss s
      ])

  join_topic-Wf :
      (p : ℕ) (topic : Text) (tf : Fanout B.Subscription) (h : Hub B C)
      → p < h.next
      → recipients topic h ≡ tf.subscribers
      → Wf h
      → Wf (join_topic p topic tf h)
  unfolding update
  join_topic-Wf p topic tf h l e w = record {
    no_empty = λ t. join_topic-HasSubscriber p topic tf h t (w.no_empty t);
    agree = join_topic-agree p topic tf h w e;
    fresh = λ r m. elim (Bool-cases (p == r)) [
      | inl hit ↦ absurd (omega (arith, l, m, (==_iff p r).0 hit))
      | inr miss ↦ rw miss (w.fresh r m)
    ];
    room = w.room;
  }

  opened-Wf :
      (p : ℕ) (topic : Text) (opened : Result B.Failure B.Subscription × B.State) (h : Hub B C)
      → p < h.next
      → lookup topic h.topics ≡ none
      → Wf h
      → Wf (open_topic p topic opened h).1
  unfolding recipients
  opened-Wf p topic (err x, b) h l e w = record {
    no_empty = w.no_empty;
    agree = w.agree;
    fresh = w.fresh;
    room = w.room;
  }
  opened-Wf p topic (ok s, b) h l e w =
      join_topic-Wf p topic (record { sub = s; subscribers = [] }) (record h { broadcaster = b }) l
        (ap recipients_of e)
        (record { no_empty = w.no_empty; agree = w.agree; fresh = w.fresh; room = w.room })

  pub stream_topic-Wf :
      (p : ℕ) (topic : Text) (found : Option (Fanout B.Subscription)) (h : Hub B C)
      → p < h.next
      → lookup topic h.topics ≡ found
      → Wf h
      → Wf (stream_topic p topic found h).1
  unfolding recipients
  stream_topic-Wf p topic (some tf) h l e w = join_topic-Wf p topic tf h l (ap recipients_of e) w
  stream_topic-Wf p topic none h l e w = opened-Wf p topic (B.subscribe topic h.broadcaster) h l e w

-- ===== src/Channels/Delivery.antt =====
-- What one payload does to the outboxes, and what teardown does to the fan-outs.
use trails.Base.{
  ℕ, zero, suc, ◌≡◌, ◌≤◌, refl, sym, ap, ◌∙◌, arith, Bool, true, false, not, ◌&&◌, List, [], ◌∷◌,
  ◌++◌, ◌==◌, ==_iff, append_assoc, append-nil, ap₂, subst, ==_refl, if◌then◌else◌, ltb, Text,
  length, length-append, take, member, has_text, update, Bool-cases, inl, inr,
}
use trails.Channels.Hub.{
  Broadcaster, Conn, Subscriber, Hub, Message, send, send_each, recipients, pump,
  default_outbox_size, untrack_topics,
}
use trails.Channels.Untrack.{recipients-untrack_each}
use trails.Channels.Steps.{Wf, sends}
use trails.Channels.Invariant.{Step-Wf}

take_all : (n : ℕ) (ms : List Message) → length ms ≤ n → take n ms ≡ ms
take_all zero [] l = refl
take_all zero (m ∷ ms) l = absurd (omega (arith, l))
take_all (suc n) [] l = refl
take_all (suc n) (m ∷ ms) l = ap (◌∷◌ m) (take_all n ms (omega (arith, l)))

take-take : (n : ℕ) (ms ns : List Message) → take n (take n ms ++ ns) ≡ take n (ms ++ ns)
take-take zero ms ns = refl
take-take (suc n) [] ns = refl
take-take (suc n) (m ∷ ms) ns = ap (◌∷◌ m) (take-take n ms ns)

take_full : (n : ℕ) (ms : List Message) (m : Message) → length ms ≡ n → take n (ms ++ m ∷ []) ≡ ms
take_full zero [] m e = refl
take_full zero (x ∷ ms) m e = absurd (omega (arith, e))
take_full (suc n) [] m e = absurd (omega (arith, e))
take_full (suc n) (x ∷ ms) m e = ap (◌∷◌ x) (take_full n ms m (omega (arith, e)))

choose : {A : Type 0} {b c : Bool} (x y : A) → b ≡ c → (if b then x else y) ≡ (if c then x else y)
choose x y e = ap (λ d. if d then x else y) e

-- What an outbox of that capacity holds after a send without waiting.
pushed :
    (n : ℕ) (ms : List Message) (m : Message)
    → length ms ≤ n
    → (if ltb (length ms) n then ms ++ m ∷ [] else ms) ≡ take n (ms ++ m ∷ [])
pushed n ms m l = elim (Bool-cases (ltb (length ms) n)) [
  | inl e ↦ rw e (sym (take_all n (ms ++ m ∷ []) (ground (arith, e, length-append ms (m ∷ [])))))
  | inr e ↦ rw e (sym (take_full n ms m (ground (arith, e, l))))
]

abbrev pub message_for : {C : Type 0} → Subscriber C → Text → Message
message_for s payload = record { channel = s.name; payload = payload }

-- The messages that a connection is due, one for each of its subscribers among the recipients.
abbrev pub due : {C : Type 0} → ℕ → List ℕ → Text → (ℕ → Subscriber C) → List Message
due c [] payload sub_at = []
due c (p ∷ ps) payload sub_at =
    let rest = due c ps payload sub_at in
    if (sub_at p).conn == c then message_for (sub_at p) payload ∷ rest else rest

due-cons :
    {C : Type 0} (c p : ℕ) (ps : List ℕ) (payload : Text) (f : ℕ → Subscriber C)
    → due c (p ∷ []) payload f ++ due c ps payload f ≡ due c (p ∷ ps) payload f
due-cons c p ps payload f = elim (Bool-cases ((f p).conn == c)) [
  | inl e ↦ rw e refl
  | inr e ↦ rw e refl
]

none_left : (b : Bool) → (not (b && true) && b) ≡ (not true && b)
none_left b = ground arith

all_left : (b m : Bool) → (not (b && false) && m) ≡ (not false && m)
all_left b m = ground arith

module _ {B : Broadcaster} {C : Type 0} where
  send-own :
      (p : ℕ) (payload : Text) (h : Hub B C)
      → let c = (h.sub_at p).conn in
        length (h.conn_at c).outbox ≤ default_outbox_size
        → ((send p payload h).conn_at c).outbox
          ≡ take default_outbox_size ((h.conn_at c).outbox ++ message_for (h.sub_at p) payload ∷ [])
  unfolding send update
  send-own p payload h l =
      let s = h.sub_at p in
      let ms = (h.conn_at s.conn).outbox in
      let m = message_for s payload in
      elim (Bool-cases (ltb (length ms) default_outbox_size)) [
        | inl e ↦ rw e (
            rw (==_refl s.conn)
              (choose (ms ++ m ∷ []) ms (sym e) ∙ pushed default_outbox_size ms m l))
        | inr e ↦ rw e (choose (ms ++ m ∷ []) ms (sym e) ∙ pushed default_outbox_size ms m l)
      ]

  send-other :
      (p c : ℕ) (payload : Text) (h : Hub B C)
      → ((h.sub_at p).conn == c) ≡ false
      → (send p payload h).conn_at c ≡ h.conn_at c
  unfolding send update
  send-other p c payload h miss =
      elim (Bool-cases (ltb (length (h.conn_at (h.sub_at p).conn).outbox) default_outbox_size)) [
        | inl e ↦ rw e (rw miss refl)
        | inr e ↦ rw e refl
      ]

  send-outbox :
      (c p : ℕ) (payload : Text) (h : Hub B C)
      → length (h.conn_at c).outbox ≤ default_outbox_size
      → ((send p payload h).conn_at c).outbox
        ≡ take default_outbox_size ((h.conn_at c).outbox ++ due c (p ∷ []) payload h.sub_at)
  send-outbox c p payload h l = elim (Bool-cases ((h.sub_at p).conn == c)) [
    | inl hit ↦
        let same : (h.sub_at p).conn ≡ c = (==_iff (h.sub_at p).conn c).0 hit in
        let m = message_for (h.sub_at p) payload in
        rw hit (
          subst
            (λ (x : ℕ).
              ((send p payload h).conn_at x).outbox
              ≡ take default_outbox_size ((h.conn_at x).outbox ++ m ∷ []))
            same
            (send-own p payload h
              (subst (λ (x : ℕ). length (h.conn_at x).outbox ≤ default_outbox_size) (sym same) l)))
    | inr miss ↦ rw miss (
        ap (λ (k : Conn). k.outbox) (send-other p c payload h miss)
        ∙ sym (
            ap (take default_outbox_size) (append-nil (h.conn_at c).outbox)
            ∙ take_all default_outbox_size (h.conn_at c).outbox l))
  ]

  send-sub_at : (p : ℕ) (payload : Text) (h : Hub B C) → (send p payload h).sub_at ≡ h.sub_at
  unfolding send
  send-sub_at p payload h =
      elim (Bool-cases (ltb (length (h.conn_at (h.sub_at p).conn).outbox) default_outbox_size)) [
        | inl e ↦ rw e refl
        | inr e ↦ rw e refl
      ]

  send_each-outbox :
      (c : ℕ) (ps : List ℕ) (payload : Text) (h : Hub B C)
      → Wf h
      → ((send_each ps payload h).conn_at c).outbox
        ≡ take default_outbox_size ((h.conn_at c).outbox ++ due c ps payload h.sub_at)
  unfolding send_each
  send_each-outbox c [] payload h w = sym (
      ap (take default_outbox_size) (append-nil (h.conn_at c).outbox)
      ∙ take_all default_outbox_size (h.conn_at c).outbox (w.room c))
  send_each-outbox c (p ∷ ps) payload h w =
      let k = send p payload h in
      let old = (h.conn_at c).outbox in
      let rest = due c ps payload h.sub_at in
      send_each-outbox c ps payload k (Step-Wf h k (sends p payload h) w)
      ∙ (ap₂
            (λ (ms : List Message) (f : ℕ → Subscriber C).
              take default_outbox_size (ms ++ due c ps payload f))
            (send-outbox c p payload h (w.room c)) (send-sub_at p payload h)
          ∙ (take-take default_outbox_size (old ++ due c (p ∷ []) payload h.sub_at) rest
              ∙ ap (take default_outbox_size) (
                  append_assoc old (due c (p ∷ []) payload h.sub_at) rest
                  ∙ ap (λ (ms : List Message). old ++ ms) (due-cons c p ps payload h.sub_at))))

  -- A payload on a topic reaches each connection once for every subscriber of it that streams from
  -- the topic, in the order of the sends and under the name of that subscriber's channel; what an
  -- outbox has no room for is dropped, and nothing else changes in it.
  pub pump-due :
      (topic payload : Text) (h : Hub B C) (c : ℕ)
      → Wf h
      → ((pump topic payload h).conn_at c).outbox
        ≡ take default_outbox_size
            ((h.conn_at c).outbox ++ due c (recipients topic h) payload h.sub_at)
  unfolding pump
  pump-due topic payload h c w = send_each-outbox c (recipients topic h) payload h w

  -- Tearing a subscriber down takes it out of every fan-out, and no other subscriber out of any.
  pub recipients-untrack_topics :
      (q p : ℕ) (t : Text) (h : Hub B C)
      → Wf h
      → member p (recipients t (untrack_topics q h)) ≡ (not (q == p) && member p (recipients t h))
  unfolding untrack_topics recipients
  recipients-untrack_topics q p t h w =
      recipients-untrack_each q (h.sub_at q).topics t p h ∙ elim (Bool-cases (q == p)) [
        | inl hit ↦
            let same : q ≡ p = (==_iff q p).0 hit in
            let held : member p (recipients t h) ≡ has_text t (h.sub_at q).topics =
              w.agree t p ∙ ap (λ (x : ℕ). has_text t (h.sub_at x).topics) (sym same) in
            rw hit (rw held (none_left (has_text t (h.sub_at q).topics)))
        | inr miss ↦ rw miss (all_left (has_text t (h.sub_at q).topics) (member p (recipients t h)))
      ]

-- ===== src/Channels/Memory/Laws.antt =====
-- No message is sent to a closed channel, and no channel is closed twice: Go panics at both.
use trails.Base.{
  if-elim, ℕ, suc, ◌≡◌, ◌≤◌, ◌<◌, refl, sym, ap, ◌∙◌, arith, true, false, not, ◌&&◌, List, [], ◌==◌,
  ==_iff, ==_refl, if◌then◌else◌, Text, ◌===◌, ===_iff, lookup, member, update, Bool-cases, inl,
  inr, subst,
}
use trails.Channels.Memory.{
  Phase, idle, leaving, finished, Backend, leave, close_channel, close_locked, members, new,
}
use trails.Channels.Memory.Steps.{
  closed_times, Wf, Step, publishes, subscribes, leaves, closes_channel, closes, Reachable, start,
  next,
}
use trails.Channels.Memory.Joining.{members-take_out, publish-Wf, subscribe-Wf, gone}

-- Who is in a topic behind a subscription that has left.
member-leave :
    (p : ℕ) (b : Backend) (t : Text) (q : ℕ)
    → member q (members t (leave p b))
      ≡ (not (b.topic_of p === t && p == q) && member q (members t b))
unfolding members leave
member-leave p b t q =
    members-take_out p (b.topic_of p) (lookup (b.topic_of p) b.topics) b.topics t q refl

stayed :
    (p : ℕ) (b : Backend) (t : Text) (q : ℕ)
    → member q (members t (leave p b)) ≡ true
    → (member q (members t b) ≡ true) × ((b.topic_of p === t && p == q) ≡ false)
stayed p b t q m = ground (arith, m, member-leave p b t q)

left : (p : ℕ) (b : Backend) (t : Text) → Wf b → member p (members t (leave p b)) ≡ true → ⊥
left p b t w m =
    let (was, apart) = stayed p b t p m in
    ground (arith, apart, (===_iff (b.topic_of p) t).1 (w.placed t p was), ==_refl p)

leave-listed :
    (p : ℕ) (b : Backend)
    → Wf b
    → (t : Text) (q : ℕ) → member q (members t (leave p b)) ≡ true
    → (leave p b).phase q ≡ idle
unfolding leave update
leave-listed p b w t q m = elim (Bool-cases (p == q)) [
  | inl hit ↦ absurd (
      left p b t w
        (subst (λ (x : ℕ). member x (members t (leave p b)) ≡ true) (sym ((==_iff p q).0 hit)) m))
  | inr miss ↦ rw miss (w.listed t q (stayed p b t q m).0)
]

leave-counted :
    (p : ℕ) (b : Backend)
    → Wf b
    → b.phase p ≡ idle
    → (q : ℕ) → (leave p b).closes q ≡ closed_times ((leave p b).phase q)
unfolding leave update
leave-counted p b w e q = elim (Bool-cases (p == q)) [
  | inl hit ↦
      let same : p ≡ q = (==_iff p q).0 hit in
      rw hit (ap b.closes (sym same) ∙ (w.counted p ∙ ap closed_times e))
  | inr miss ↦ rw miss (w.counted q)
]

leave-fresh :
    (p : ℕ) (b : Backend) → Wf b → p < b.next → (q : ℕ) → b.next ≤ q → (leave p b).phase q ≡ idle
unfolding leave update
leave-fresh p b w l q m = elim (Bool-cases (p == q)) [
  | inl hit ↦ absurd (omega (arith, l, m, (==_iff p q).0 hit))
  | inr miss ↦ rw miss (w.fresh q m)
]

pub leave-Wf : (p : ℕ) (b : Backend) → b.phase p ≡ idle → p < b.next → Wf b → Wf (leave p b)
unfolding leave
leave-Wf p b e l w = record {
  counted = leave-counted p b w e;
  listed = leave-listed p b w;
  placed = λ t q m. w.placed t q (stayed p b t q m).0;
  fresh = leave-fresh p b w l;
  unlisted =
      λ t q m. gone (not (b.topic_of p === t && p == q)) (w.unlisted t q m) (member-leave p b t q);
}

close_channel-counted :
    (p : ℕ) (b : Backend)
    → Wf b
    → b.phase p ≡ leaving
    → (q : ℕ) → (close_channel p b).closes q ≡ closed_times ((close_channel p b).phase q)
unfolding close_channel update
close_channel-counted p b w e q = elim (Bool-cases (p == q)) [
  | inl hit ↦ rw hit (ap suc (w.counted p ∙ ap closed_times e))
  | inr miss ↦ rw miss (w.counted q)
]

not_idle : (x : Phase) → x ≡ leaving → x ≡ idle → ⊥
not_idle x e f = cc

close_channel-phase :
    (p : ℕ) (b : Backend)
    → b.phase p ≡ leaving
    → (q : ℕ) → b.phase q ≡ idle
    → (close_channel p b).phase q ≡ idle
unfolding close_channel update
close_channel-phase p b e q i = elim (Bool-cases (p == q)) [
  | inl hit ↦ absurd (not_idle (b.phase p) e (ap b.phase ((==_iff p q).0 hit) ∙ i))
  | inr miss ↦ rw miss i
]

pub close_channel-Wf : (p : ℕ) (b : Backend) → b.phase p ≡ leaving → Wf b → Wf (close_channel p b)
unfolding members close_channel
close_channel-Wf p b e w = record {
  counted = close_channel-counted p b w e;
  listed = λ t q m. close_channel-phase p b e q (w.listed t q m);
  placed = w.placed;
  fresh = λ q l. close_channel-phase p b e q (w.fresh q l);
  unlisted = w.unlisted;
}

emptied-Wf : (b : Backend) → Wf b → Wf (record b { closed = true; topics = [] })
unfolding members lookup member
emptied-Wf b w = record {
  counted = w.counted;
  listed = λ t q m. absurd (cc);
  placed = λ t q m. absurd (cc);
  fresh = w.fresh;
  unlisted = λ t q l. refl;
}

close_locked-Wf : (b : Backend) → Wf b → Wf (close_locked b).1
unfolding close_locked
close_locked-Wf b w = if-elim (λ (r : List ℕ × Backend). Wf r.1) b.closed _ _ w (emptied-Wf b w)

at_most_once : (x : Phase) (n : ℕ) → n ≡ closed_times x → n ≤ 1
at_most_once idle n e = omega (arith, e)
at_most_once leaving n e = omega (arith, e)
at_most_once finished n e = omega (arith, e)

Step-Wf : (a b : Backend) → Step a b → Wf a → Wf b
Step-Wf _ _ (publishes topic payload b) w = publish-Wf topic payload b w
Step-Wf _ _ (subscribes topic b) w = subscribe-Wf topic b w
Step-Wf _ _ (leaves p b e l) w = leave-Wf p b e l w
Step-Wf _ _ (closes_channel p b e) w = close_channel-Wf p b e w
Step-Wf _ _ (closes b) w = close_locked-Wf b w

pub new-Wf : Wf new
unfolding new members lookup member
new-Wf = record {
  counted = λ p. refl;
  listed = λ t q m. absurd (cc);
  placed = λ t q m. absurd (cc);
  fresh = λ p l. refl;
  unlisted = λ t q l. refl;
}

Reachable-Wf : (b : Backend) → Reachable new b → Wf b
Reachable-Wf _ (start _) = new-Wf
Reachable-Wf _ (next _ a b r s) = Step-Wf a b s (Reachable-Wf a r)

-- How often the channel was closed that Publish sends to; nothing, where it sends none.
abbrev pub closes_behind_send : Text → ℕ → Backend → ℕ
closes_behind_send topic p b = if member p (members topic b) then b.closes p else 0

-- In every state that is reached from a new backend, however publishing, subscribing, unsubscribing
-- and closing come between each other, no channel was closed more than once, and none that Publish
-- sends to was closed at all.
pub Reachable-closes :
    (b : Backend) (topic : Text) (p : ℕ)
    → Reachable new b
    → (b.closes p ≤ 1) × (closes_behind_send topic p b ≡ 0)
Reachable-closes b topic p r =
    let w = Reachable-Wf b r in
    (
      at_most_once (b.phase p) (b.closes p) (w.counted p),
      elim (Bool-cases (member p (members topic b))) [
        | inl m ↦ rw m (w.counted p ∙ ap closed_times (w.listed topic p m))
        | inr m ↦ rw m refl
      ],
    )

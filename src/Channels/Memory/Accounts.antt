-- ===== src/Channels/Memory/Accounts.antt =====
-- The in-process broadcaster keeps the contract of subscriptions.
use trails.Base.{
  ℕ, ◌≡◌, ◌<◌, refl, ap, ◌∙◌, arith, true, false, Option, none, some, List, [], ◌∷◌, ==_refl,
  if◌then◌else◌, ltb, Text, ◌===◌, ===_iff, Table, lookup, lookup-insert, member, add_member,
  remove, update, update, ok, err, Bool-cases, inl, inr, if-elim,
}
use trails.Channels.Accounts.{Accounts}
use trails.Channels.Memory.{
  new, Backend, leaving, Failure, publish, subscribe, add_subscription, take_out, members,
  members_of, leave, close_channel, unsubscribe, memory_broadcaster,
}
use trails.Channels.Memory.Steps.{Wf}
use trails.Channels.Memory.Joining.{members_without, publish-Wf, subscribe-Wf}
use trails.Channels.Memory.Laws.{new-Wf, leave-Wf, close_channel-Wf}

publish-members :
    (topic payload : Text) (b : Backend) (t : Text)
    → members t (publish topic payload b).1 ≡ members t b
unfolding publish members
publish-members topic payload b t =
    if-elim (λ (r : Option Failure × Backend). members t r.1 ≡ members t b) b.closed _ _ refl refl

refused-members :
    (topic : Text) (b : Backend) (e : Failure) (t : Text)
    → (subscribe topic b).0 ≡ err e
    → members t (subscribe topic b).1 ≡ members t b
unfolding subscribe
refused-members topic b e t r = elim (Bool-cases b.closed) [
  | inl c ↦ rw c refl
  | inr c ↦ absurd (ground (arith, r, c))
]

add_member_new : (p : ℕ) (ps : List ℕ) → member p ps ≡ false → add_member p ps ≡ p ∷ ps
unfolding add_member
add_member_new p ps e = rw e refl

added-members :
    (topic : Text) (b : Backend) (t : Text)
    → Wf b
    → members t (add_subscription topic b)
      ≡ (if topic === t then b.next ∷ members t b else members t b)
unfolding members
added-members topic b t w =
    let ps = members_of (lookup topic b.topics) in
    let new : add_member b.next ps ≡ b.next ∷ ps =
      add_member_new b.next ps (w.unlisted topic b.next (omega arith)) in
    ap members_of (lookup-insert t topic (add_member b.next ps) b.topics)
    ∙ elim (Bool-cases (topic === t)) [
      | inl hit ↦
          rw (hit, new)
            (ap (λ (x : Text). b.next ∷ members_of (lookup x b.topics)) ((===_iff topic t).0 hit))
      | inr miss ↦ rw miss refl
    ]

accepted-members :
    (topic : Text) (b : Backend) (s : ℕ) (t : Text)
    → Wf b
    → (subscribe topic b).0 ≡ ok s
    → members t (subscribe topic b).1 ≡ (if topic === t then s ∷ members t b else members t b)
unfolding subscribe
accepted-members topic b s t w r = elim (Bool-cases b.closed) [
  | inl c ↦ absurd (ground (arith, r, c))
  | inr c ↦
      let same : b.next ≡ s = ground (arith, r, c) in rw (c, ← same) (added-members topic b t w)
]

take_out-members :
    (p : ℕ) (topic : Text) (found : Option (List ℕ)) (m : Table (List ℕ)) (t : Text)
    → lookup topic m ≡ found
    → members_of found ≡ p ∷ []
    → members_of (lookup t (take_out p topic found m))
      ≡ (if topic === t then [] else members_of (lookup t m))
unfolding remove
take_out-members p topic none m t e o = absurd (cc)
take_out-members p topic (some ps) m t e o =
    members_without topic t (remove p ps) m
    ∙ ap (λ qs. if topic === t then remove p qs else members_of (lookup t m)) o
    ∙ rw (==_refl p) refl

-- The only subscription of a topic is one that has not been ended.
module _ (p : ℕ) (topic : Text) (b : Backend) (w : Wf b) (only : members topic b ≡ p ∷ []) where
  listed : member p (members topic b) ≡ true
  unfolding member
  listed = rw (only, ==_refl p) refl

  given_out : p < b.next
  given_out = elim (Bool-cases (ltb p b.next)) [
    | inl l ↦ ground (arith, l)
    | inr l ↦ absurd (ground (arith, w.unlisted topic p (ground (arith, l)), listed))
  ]

  runs : unsubscribe p b ≡ close_channel p (leave p b)
  unfolding unsubscribe
  runs = rw (w.listed topic p listed) refl

  left_phase : (leave p b).phase p ≡ leaving
  unfolding leave update
  left_phase = rw (==_refl p) refl

  unsubscribe-Wf : Wf (unsubscribe p b)
  unsubscribe-Wf = rw runs (
      close_channel-Wf p (leave p b) left_phase
        (leave-Wf p b (w.listed topic p listed) given_out w))

  ended-members :
      (t : Text) → members t (unsubscribe p b) ≡ (if topic === t then [] else members t b)
  unfolding leave close_channel members
  ended-members t =
      rw (runs, w.placed topic p listed)
        (take_out-members p topic (lookup topic b.topics) b.topics t refl only)

pub memory_accounts : Accounts memory_broadcaster
memory_accounts = record {
  IsSound = Wf;
  live = λ b t. members t b;
  publish-IsSound = publish-Wf;
  publish_keeps = publish-members;
  subscribe-IsSound = subscribe-Wf;
  subscribe_refused = λ topic b e t w r. refused-members topic b e t r;
  subscribe_adds = accepted-members;
  unsubscribe-IsSound = λ s topic b w only. unsubscribe-Wf s topic b w only;
  unsubscribe_ends = λ s topic b t w only. ended-members s topic b w only t;
}

pub new-IsSound : memory_accounts.IsSound new
unfolding memory_accounts
new-IsSound = new-Wf

pub new-live : (t : Text) → memory_accounts.live new t ≡ []
unfolding memory_accounts members new lookup
new-live t = refl

-- ===== src/Channels/Memory/Joining.antt =====
-- Publishing and subscribing keep the invariant.
use trails.Base.{
  if-elim, Result, ℕ, suc, ◌≡◌, ◌≤◌, refl, sym, ap, ◌∙◌, arith, Bool, true, false, not, ◌&&◌, ◌||◌,
  Option, none, some, List, [], ◌∷◌, ◌==◌, ==_iff, if◌then◌else◌, Text, ◌===◌, ===_iff, Table,
  lookup, insert, lookup-insert, lookup-erase, member, add_member, member-add_member, remove,
  member-remove, update, Bool-cases, inl, inr,
}
use trails.Channels.Memory.{
  Backend, Failure, publish, subscribe, add_subscription, take_out, without, members, members_of,
}
use trails.Channels.Memory.Steps.{Wf}

pub members_without :
    (topic t : Text) (ps : List ℕ) (m : Table (List ℕ))
    → members_of (lookup t (without topic ps m))
      ≡ (if topic === t then ps else members_of (lookup t m))
members_without topic t [] m = ground (arith, lookup-erase t topic m)
members_without topic t (p ∷ ps) m = ground (arith, lookup-insert t topic (p ∷ ps) m)

pub members-take_out :
    (p : ℕ) (topic : Text) (found : Option (List ℕ)) (m : Table (List ℕ)) (t : Text) (q : ℕ)
    → lookup topic m ≡ found
    → member q (members_of (lookup t (take_out p topic found m)))
      ≡ (not (topic === t && p == q) && member q (members_of (lookup t m)))
unfolding member
members-take_out p topic none m t q e = elim (Bool-cases (topic === t)) [
  | inl hit ↦
      let gone : lookup t m ≡ none =
        ap (λ (x : Text). lookup x m) (sym ((===_iff topic t).0 hit)) ∙ e in
      ground (arith, hit, gone)
  | inr miss ↦ ground (arith, miss)
]
members-take_out p topic (some ps) m t q e =
    ap (member q) (members_without topic t (remove p ps) m) ∙ elim (Bool-cases (topic === t)) [
      | inl hit ↦
          let here : lookup t m ≡ some ps =
            ap (λ (x : Text). lookup x m) (sym ((===_iff topic t).0 hit)) ∙ e in
          rw hit (rw here (member-remove q p ps))
      | inr miss ↦ rw miss refl
    ]

pub gone : {x z : Bool} (y : Bool) → z ≡ false → x ≡ (y && z) → x ≡ false
gone y e f = ground (arith, e, f)

pub publish-Wf : (topic payload : Text) (b : Backend) → Wf b → Wf (publish topic payload b).1
unfolding publish members
publish-Wf topic payload b w =
    if-elim (λ (r : Option Failure × Backend). Wf r.1) b.closed _ _ w
      (record {
        counted = w.counted;
        listed = w.listed;
        placed = w.placed;
        fresh = w.fresh;
        unlisted = w.unlisted;
      })

-- Who is in a topic behind a new subscription.
member-add_subscription :
    (topic t : Text) (b : Backend) (q : ℕ)
    → member q (members t (add_subscription topic b))
      ≡ ((topic === t && b.next == q) || member q (members t b))
unfolding members
member-add_subscription topic t b q =
    let ps = add_member b.next (members_of (lookup topic b.topics)) in
    let found = lookup-insert t topic ps b.topics in
    elim (Bool-cases (topic === t)) [
      | inl hit ↦
          let at : lookup t (insert topic ps b.topics) ≡ some ps = found ∙ rw hit refl in
          let same : topic ≡ t = (===_iff topic t).0 hit in
          ap (λ o. member q (members_of o)) at
          ∙ (member-add_member q b.next (members_of (lookup topic b.topics))
              ∙ rw hit (
                  ap (λ (x : Text). b.next == q || member q (members_of (lookup x b.topics))) same))
      | inr miss ↦
          let at : lookup t (insert topic ps b.topics) ≡ lookup t b.topics = found ∙ rw miss refl in
          ap (λ o. member q (members_of o)) at ∙ rw miss refl
    ]

was_member :
    (topic t : Text) (b : Backend) (q : ℕ)
    → member q (members t (add_subscription topic b)) ≡ true
    → (b.next == q) ≡ false
    → member q (members t b) ≡ true
was_member topic t b q m miss = ground (arith, m, miss, member-add_subscription topic t b q)

new_member :
    (topic t : Text) (b : Backend) (q : ℕ)
    → member q (members t (add_subscription topic b)) ≡ true
    → member q (members t b) ≡ false
    → topic ≡ t
new_member topic t b q m f =
    (===_iff topic t).0 (ground (arith, m, f, member-add_subscription topic t b q))

no_member :
    (topic t : Text) (b : Backend) (q : ℕ)
    → (b.next == q) ≡ false
    → member q (members t b) ≡ false
    → member q (members t (add_subscription topic b)) ≡ false
no_member topic t b q miss f = ground (arith, miss, f, member-add_subscription topic t b q)

later : (n p : ℕ) → suc n ≤ p → (n == p) ≡ false
later n p l = ground arith

add_subscription-placed :
    (topic : Text) (b : Backend)
    → Wf b
    → (t : Text) (p : ℕ) → member p (members t (add_subscription topic b)) ≡ true
    → (add_subscription topic b).topic_of p ≡ t
unfolding update
add_subscription-placed topic b w t p m = elim (Bool-cases (b.next == p)) [
  | inl hit ↦
      rw hit (new_member topic t b p m (w.unlisted t p (omega (arith, (==_iff b.next p).0 hit))))
  | inr miss ↦ rw miss (w.placed t p (was_member topic t b p m miss))
]

add_subscription-Wf : (topic : Text) (b : Backend) → Wf b → Wf (add_subscription topic b)
add_subscription-Wf topic b w = record {
  counted = w.counted;
  listed = λ t p m. elim (Bool-cases (b.next == p)) [
    | inl hit ↦ w.fresh p (omega (arith, (==_iff b.next p).0 hit))
    | inr miss ↦ w.listed t p (was_member topic t b p m miss)
  ];
  placed = add_subscription-placed topic b w;
  fresh = λ p l. w.fresh p (omega (arith, l));
  unlisted = λ t p l. no_member topic t b p (later b.next p l) (w.unlisted t p (omega (arith, l)));
}

pub subscribe-Wf : (topic : Text) (b : Backend) → Wf b → Wf (subscribe topic b).1
unfolding subscribe
subscribe-Wf topic b w =
    if-elim (λ (r : Result Failure ℕ × Backend). Wf r.1) b.closed _ _ w
      (add_subscription-Wf topic b w)

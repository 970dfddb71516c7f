-- ===== src/Channels/Accounts.antt =====
-- channels/backend.go: what the hub relies on of the subscriptions at its Broadcaster.
use trails.Base.{
  ◌≡◌, ap, ◌∙◌, arith, Option, none, some, List, [], ◌∷◌, if◌then◌else◌, Text, ◌===◌, ===_iff,
  Table, lookup, insert, lookup-insert, ok, err, subst, Bool-cases, inl, inr,
}
use trails.Channels.Hub.{Broadcaster, Fanout}

-- The contract of channels/backend.go as far as subscriptions go: `live` are those of a topic that
-- have not been ended, in the states that a broadcaster comes to.
pub record Accounts (B : Broadcaster) : Type 1 where
  pub IsSound : B.State → Type 0
  pub live : B.State → Text → List B.Subscription
  pub publish-IsSound :
      (topic payload : Text) (b : B.State) → IsSound b → IsSound (B.publish topic payload b).1
  pub publish_keeps :
      (topic payload : Text) (b : B.State) (t : Text)
      → live (B.publish topic payload b).1 t ≡ live b t
  pub subscribe-IsSound : (topic : Text) (b : B.State) → IsSound b → IsSound (B.subscribe topic b).1
  pub subscribe_refused :
      (topic : Text) (b : B.State) (e : B.Failure) (t : Text)
      → IsSound b
      → (B.subscribe topic b).0 ≡ err e
      → live (B.subscribe topic b).1 t ≡ live b t
  pub subscribe_adds :
      (topic : Text) (b : B.State) (s : B.Subscription) (t : Text)
      → IsSound b
      → (B.subscribe topic b).0 ≡ ok s
      → live (B.subscribe topic b).1 t ≡ (if topic === t then s ∷ live b t else live b t)
  pub unsubscribe-IsSound :
      (s : B.Subscription) (topic : Text) (b : B.State)
      → IsSound b
      → live b topic ≡ s ∷ []
      → IsSound (B.unsubscribe s b)
  -- The only subscription of a topic is ended.
  pub unsubscribe_ends :
      (s : B.Subscription) (topic : Text) (b : B.State) (t : Text)
      → IsSound b
      → live b topic ≡ s ∷ []
      → live (B.unsubscribe s b) t ≡ (if topic === t then [] else live b t)

abbrev pub held : {S : Type 0} → Option (Fanout S) → List S
held none = []
held (some tf) = tf.sub ∷ []

pub held-insert :
    {S : Type 0} (topic t : Text) (tf : Fanout S) (m : Table (Fanout S))
    → held (lookup t (insert topic tf m)) ≡ (if topic === t then tf.sub ∷ [] else held (lookup t m))
held-insert topic t tf m = ground (arith, lookup-insert t topic tf m)

module _ {B : Broadcaster} (A : Accounts B) where
  -- A topic that holds its subscription goes on to hold it.
  pub kept :
      (topic t : Text) (s : B.Subscription) (b : B.State) (m : Table (Fanout B.Subscription))
      → A.live b topic ≡ s ∷ []
      → A.live b t ≡ held (lookup t m)
      → A.live b t ≡ (if topic === t then s ∷ [] else held (lookup t m))
  kept topic t s b m here there = elim (Bool-cases (topic === t)) [
    | inl hit ↦ rw hit (subst (λ (x : Text). A.live b x ≡ s ∷ []) ((===_iff topic t).0 hit) here)
    | inr miss ↦ rw miss there
  ]

  -- A topic without a fan-out gets its first subscription.
  pub added :
      (topic t : Text) (s : B.Subscription) (m : Table (Fanout B.Subscription)) {b : B.State}
      → lookup topic m ≡ none
      → A.live b t ≡ held (lookup t m)
      → (if topic === t then s ∷ A.live b t else A.live b t)
        ≡ (if topic === t then s ∷ [] else held (lookup t m))
  added topic t s m {b} e there = elim (Bool-cases (topic === t)) [
    | inl hit ↦
        let free : held (lookup t m) ≡ [] =
          subst (λ (x : Text). held (lookup x m) ≡ []) ((===_iff topic t).0 hit) (ap held e) in
        rw hit (ap (◌∷◌ s) (there ∙ free))
    | inr miss ↦ rw miss there
  ]

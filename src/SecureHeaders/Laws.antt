-- ===== src/SecureHeaders/Laws.antt =====
-- The directives of a policy are printed in one order, however the map was built.
use trails.Base.{
  length, ◌≡◌, ◌≢◌, ◌∙◌, ◌⊎◌, inl, inr, refl, ap, true, false, List, [], ◌∷◌, map, arith, Text,
  codes, Table, Bool-cases,
}
use trails.Web.Header.{join}
use trails.SecureHeaders.{is_before, insert_sorted, sorted, directive, csp_value}

is_before_irreflexive : (s : Text) → is_before s s ≡ false
unfolding is_before
is_before_irreflexive [] = refl
is_before_irreflexive (c ∷ s) = ground (arith, is_before_irreflexive s)

is_before_transitive :
    (s t u : Text) → is_before s t ≡ true → is_before t u ≡ true → is_before s u ≡ true
unfolding is_before
is_before_transitive [] [] u p q = q
is_before_transitive [] (d ∷ t) [] p q = q
is_before_transitive [] (d ∷ t) (e ∷ u) p q = refl
is_before_transitive (c ∷ s) [] u p q = absurd (cc)
is_before_transitive (c ∷ s) (d ∷ t) [] p q = absurd (cc)
is_before_transitive (c ∷ s) (d ∷ t) (e ∷ u) p q = ground (arith, is_before_transitive s t u, p, q)

is_before_total : (s t : Text) → is_before s t ≡ false → is_before t s ≡ false → s ≡ t
unfolding is_before
is_before_total [] [] p q = refl
is_before_total [] (d ∷ t) p q = absurd (cc)
is_before_total (c ∷ s) [] p q = absurd (cc)
is_before_total (c ∷ s) (d ∷ t) p q = ground (arith, is_before_total s t, p, q)

is_before_asymmetric : (s t : Text) → is_before s t ≡ true → is_before t s ≡ false
is_before_asymmetric s t p = elim (Bool-cases (is_before t s)) [
  | inr q ↦ q
  | inl q ↦ absurd (ground (arith, is_before_transitive s t s p q, is_before_irreflexive s))
]

-- What is not behind i comes before all that is behind i.
is_before_through :
    (i j k : Text) → is_before i j ≡ false → is_before i k ≡ true → is_before j k ≡ true
is_before_through i j k p q = elim (Bool-cases (is_before j i)) [
  | inl r ↦ is_before_transitive j i k r q
  | inr r ↦ rw (← is_before_total i j p r) q
]

-- Two names that differ stand in one order or the other.
is_before_cases :
    (j k : Text)
    → j ≢ k
    → ((is_before j k ≡ true) × (is_before k j ≡ false))
      ⊎ ((is_before j k ≡ false) × (is_before k j ≡ true))
is_before_cases j k d = elim (Bool-cases (is_before j k)) [
  | inl p ↦ inl (p, is_before_asymmetric j k p)
  | inr p ↦ elim (Bool-cases (is_before k j)) [
    | inl q ↦ inr (p, q)
    | inr q ↦ absurd (d (is_before_total j k p q))
  ]
]

-- Two insertions of different names commute.
insert_sorted_commutes :
    (j k : Text) (v w : List Text) (m : Table (List Text))
    → j ≢ k
    → insert_sorted j v (insert_sorted k w m) ≡ insert_sorted k w (insert_sorted j v m)
unfolding insert_sorted
insert_sorted_commutes j k v w [] d = elim (is_before_cases j k d) [
  | inl (p, q) ↦ rw (p, q) refl
  | inr (p, q) ↦ rw (p, q) refl
]
insert_sorted_commutes j k v w ((i, x) ∷ m) d = elim (Bool-cases (is_before i k)) [
  | inl a ↦ elim (Bool-cases (is_before i j)) [
    | inl b ↦ ground (arith, a, b, insert_sorted_commutes j k v w m d)
    | inr b ↦ ground (arith, a, b, is_before_through i j k b a)
  ]
  | inr a ↦ elim (Bool-cases (is_before i j)) [
    | inl b ↦ ground (arith, a, b, is_before_through i k j a b)
    | inr b ↦ elim (is_before_cases j k d) [
      | inl (p, q) ↦ ground (arith, a, b, p, q)
      | inr (p, q) ↦ ground (arith, a, b, p, q)
    ]
  ]
]

-- The entries of one map, met in two orders: neighbours under different names change places.
pub data SameMap : Table (List Text) → Table (List Text) → Type 0 where
  same : (m : Table (List Text)) → SameMap m m
  beneath :
      (k : Text) (v : List Text) (m n : Table (List Text))
      → SameMap m n
      → SameMap ((k, v) ∷ m) ((k, v) ∷ n)
  swapped :
      (j k : Text) (v w : List Text) (m : Table (List Text))
      → j ≢ k
      → SameMap ((j, v) ∷ (k, w) ∷ m) ((k, w) ∷ (j, v) ∷ m)
  through : (l m n : Table (List Text)) → SameMap l m → SameMap m n → SameMap l n

sorted-SameMap : (m n : Table (List Text)) → SameMap m n → sorted m ≡ sorted n
unfolding sorted
sorted-SameMap m _ (same _) = refl
sorted-SameMap _ _ (beneath k v m n s) = ap (insert_sorted k v) (sorted-SameMap m n s)
sorted-SameMap _ _ (swapped j k v w m d) = insert_sorted_commutes j k v w (sorted m) d
sorted-SameMap l n (through _ m _ s t) = sorted-SameMap l m s ∙ sorted-SameMap m n t

-- The policy that is printed does not depend on the order in which the map of its directives is
-- iterated.
pub csp_value-SameMap : (m n : Table (List Text)) → SameMap m n → csp_value m ≡ csp_value n
unfolding csp_value
csp_value-SameMap m n s = ap (λ t. join (codes "; ") (map directive t)) (sorted-SameMap m n s)

-- The directives of a policy by name, each before the next.
abbrev pub IsAscending : Table (List Text) → Type 0
IsAscending [] = Unit
IsAscending ((k, v) ∷ []) = Unit
IsAscending ((k, v) ∷ (j, w) ∷ m) = (is_before k j ≡ true) × IsAscending ((j, w) ∷ m)

sorted-IsAscending : (m : Table (List Text)) → IsAscending m → sorted m ≡ m
unfolding sorted insert_sorted
sorted-IsAscending [] a = refl
sorted-IsAscending ((k, v) ∷ []) a = refl
sorted-IsAscending ((k, v) ∷ (j, w) ∷ m) (b, a) =
    rw (sorted-IsAscending ((j, w) ∷ m) a, is_before_asymmetric k j b) refl

pub csp_value-IsAscending :
    (m n : Table (List Text))
    → SameMap m n
    → IsAscending n
    → csp_value m ≡ join (codes "; ") (map directive n)
unfolding csp_value
csp_value-IsAscending m n s a =
    csp_value-SameMap m n s ∙ ap (λ t. join (codes "; ") (map directive t)) (sorted-IsAscending n a)

pub length-SameMap : (m n : Table (List Text)) → SameMap m n → length m ≡ length n
length-SameMap m _ (same _) = refl
length-SameMap _ _ (beneath k v m n s) = ground (arith, length-SameMap m n s)
length-SameMap _ _ (swapped j k v w m d) = refl
length-SameMap l n (through _ m _ s t) = length-SameMap l m s ∙ length-SameMap m n t

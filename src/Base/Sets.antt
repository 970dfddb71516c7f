-- ===== src/Base/Sets.antt =====
-- Go's `map[K]struct{}` as a list without repetitions, for addresses and texts, and stores of objects
-- by their address.
use Prim.Native.Nat.{ℕ}
use mathlib.Core.Path.{◌≡◌}
use mathlib.Core.Bool.{Bool, false, not, ◌&&◌, ◌||◌}
use mathlib.Core.List.{List, [], ◌∷◌}
use native.Mathlib.Omega.{arith}
use trails.Base.Tests.{if◌then◌else◌, ◌==◌, ==_iff}
use trails.Base.Bytes.{Text, ◌===◌, ===_iff}

unfoldable pub member : ℕ → List ℕ → Bool
member p [] = false
member p (q ∷ xs) = q == p || member p xs

unfoldable pub add_member : ℕ → List ℕ → List ℕ
unfolding member
add_member p xs = if member p xs then xs else p ∷ xs

unfoldable pub remove : ℕ → List ℕ → List ℕ
remove p [] = []
remove p (q ∷ xs) = let rest = remove p xs in if q == p then rest else q ∷ rest

unfoldable pub has_text : Text → List Text → Bool
has_text s [] = false
has_text s (t ∷ ts) = t === s || has_text s ts

unfoldable pub add_text : Text → List Text → List Text
unfolding has_text
add_text s ts = if has_text s ts then ts else s ∷ ts

pub member-add_member :
    (p q : ℕ) (xs : List ℕ) → member p (add_member q xs) ≡ (q == p || member p xs)
unfolding add_member member
member-add_member p q xs = ground (arith, ==_iff q p)

pub member-remove : (p q : ℕ) (xs : List ℕ) → member p (remove q xs) ≡ (not (q == p) && member p xs)
unfolding member remove
member-remove p q [] = ground arith
member-remove p q (x ∷ xs) = ground (arith, member-remove p q xs, ==_iff q p)

pub has_text-add_text :
    (s t : Text) (ts : List Text) → has_text s (add_text t ts) ≡ (t === s || has_text s ts)
unfolding add_text has_text
has_text-add_text s t ts = ground (arith, ===_iff t s)

-- A write to the object at an address.
module _ {ℓ} {A : Type ℓ} where
  unfoldable pub update : ℕ → A → (ℕ → A) → ℕ → A
  update p a f q = if p == q then a else f q

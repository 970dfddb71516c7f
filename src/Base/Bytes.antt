-- ===== src/Base/Bytes.antt =====
-- Texts as lists of bytes, with the equality that Go's `==` decides.
use Prim.Native.Char.{code}
use Prim.Native.Nat.{ℕ}
use Prim.Native.String.{String}
use mathlib.Core.Path.{◌≡◌, refl}
use mathlib.Core.Logic.{◌↔◌}
use mathlib.Core.Bool.{Bool, true, false, ◌&&◌}
use mathlib.Core.List.{List, [], ◌∷◌}
use native.Mathlib.Omega.{arith}
use trails.Base.Tests.{◌==◌}

abbrev pub Text : Type 0
Text = List ℕ

-- The bytes of an ASCII literal. `String` has its own `[]` and `∷`.
unfoldable pub codes : String → Text
codes String.[] = []
codes (String.◌∷◌ c s) = code c ∷ codes s

infix 50 ◌===◌
unfoldable pub ◌===◌ : Text → Text → Bool
[] === [] = true
[] === (y ∷ ys) = false
(x ∷ xs) === [] = false
(x ∷ xs) === (y ∷ ys) = x == y && xs === ys

pub ===_iff : (s t : Text) → ((s === t) ≡ true) ↔ (s ≡ t)
unfolding ◌===◌
===_iff [] [] = ground arith
===_iff [] (y ∷ t) = ground arith
===_iff (x ∷ s) [] = ground arith
===_iff (x ∷ s) (y ∷ t) = ground (arith, ===_iff s t)

pub ===_refl : (s : Text) → (s === s) ≡ true
===_refl s = (===_iff s s).1 refl

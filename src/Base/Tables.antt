-- ===== src/Base/Tables.antt =====
-- Go's `map[string]V`, as an association list. A write replaces the entry of its key, and
-- `delete` removes it.
use mathlib.Core.Path.{◌≡◌, refl}
use mathlib.Core.Option.{Option, none, some}
use mathlib.Core.List.{List, [], ◌∷◌}
use native.Mathlib.Omega.{arith}
use trails.Base.Tests.{if◌then◌else◌}
use trails.Base.Bytes.{Text, ◌===◌, ===_iff}

abbrev pub Table {ℓ} : Type ℓ → Type ℓ
Table V = List (Text × V)

module _ {ℓ} {V : Type ℓ} where
  unfoldable pub lookup : Text → Table V → Option V
  lookup k [] = none
  lookup k ((j, v) ∷ m) = if j === k then some v else lookup k m

  unfoldable pub insert : Text → V → Table V → Table V
  insert k v [] = (k, v) ∷ []
  insert k v ((j, w) ∷ m) = if j === k then (k, v) ∷ m else (j, w) ∷ insert k v m

  unfoldable pub erase : Text → Table V → Table V
  erase k [] = []
  erase k ((j, v) ∷ m) = if j === k then erase k m else (j, v) ∷ erase k m

  pub lookup-insert :
      (j k : Text) (v : V) (m : Table V)
      → lookup j (insert k v m) ≡ (if k === j then some v else lookup j m)
  unfolding lookup insert
  lookup-insert j k v [] = refl
  lookup-insert j k v ((i, w) ∷ m) =
      ground (arith, ===_iff k j, ===_iff i k, ===_iff i j, lookup-insert j k v m)

  pub lookup-erase :
      (j k : Text) (m : Table V) → lookup j (erase k m) ≡ (if k === j then none else lookup j m)
  unfolding lookup erase
  lookup-erase j k [] = ground arith
  lookup-erase j k ((i, w) ∷ m) =
      ground (arith, ===_iff k j, ===_iff i k, ===_iff i j, lookup-erase j k m)

  -- No key stands twice, as in a Go map.
  abbrev pub HasUniqueKeys : Table V → Type ℓ
  HasUniqueKeys [] = Unit
  HasUniqueKeys ((k, v) ∷ m) = (lookup k m ≡ none) × HasUniqueKeys m

  pub insert-HasUniqueKeys :
      (k : Text) (v : V) (m : Table V) → HasUniqueKeys m → HasUniqueKeys (insert k v m)
  unfolding insert lookup
  insert-HasUniqueKeys k v [] u = (refl, tt)
  insert-HasUniqueKeys k v ((i, w) ∷ m) (f, u) =
      ground (arith, ===_iff i k, ===_iff k i, lookup-insert i k v m, insert-HasUniqueKeys k v m u)

  pub erase-HasUniqueKeys : (k : Text) (m : Table V) → HasUniqueKeys m → HasUniqueKeys (erase k m)
  unfolding erase
  erase-HasUniqueKeys k [] u = tt
  erase-HasUniqueKeys k ((i, w) ∷ m) (f, u) =
      ground (arith, lookup-erase i k m, ===_iff i k, ===_iff k i, erase-HasUniqueKeys k m u)

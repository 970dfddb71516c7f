-- ===== src/Web/Address.antt =====
-- net.SplitHostPort, as the middlewares call it: `none` stands for any of its errors.
pub mod Laws
use trails.Base.{
  ℕ, zero, suc, ◌+◌, ◌-◌, Bool, true, false, ◌&&◌, ◌||◌, Option, none, some, List, [], ◌∷◌, ◌++◌,
  ◌==◌, if◌then◌else◌, Text, length, take, drop,
}

unfoldable pub has_byte : ℕ → Text → Bool
has_byte c [] = false
has_byte c (d ∷ s) = d == c || has_byte c s

unfoldable pub index_byte : ℕ → Text → Option ℕ
index_byte c [] = none
index_byte c (d ∷ s) =
    if d == c then some 0 else elim (index_byte c s) [ none ↦ none | some i ↦ some (suc i) ]

unfoldable pub last_index_byte : ℕ → Text → Option ℕ
last_index_byte c [] = none
last_index_byte c (d ∷ s) = elim (last_index_byte c s) [
  | none ↦ if d == c then some 0 else none
  | some i ↦ some (suc i)
]

-- "[host]:port", with the last colon at i.
split_bracketed : Text → ℕ → Option (Text × Text)
split_bracketed s i = elim (index_byte b']' s) [
  | none ↦ none
  | some end ↦
      if end + 1 == length s
      then none
      else if end + 1 == i
      then if has_byte b'[' (drop 1 s) || has_byte b']' (drop (end + 1) s)
        then none
        else some (take (end - 1) (drop 1 s), drop (i + 1) s)
      else none
]

-- "host:port", with the last colon at i.
split_plain : Text → ℕ → Option (Text × Text)
split_plain s i =
    if has_byte b':' (take i s)
    then none
    else if has_byte b'[' s || has_byte b']' s
    then none
    else some (take i s, drop (i + 1) s)

starts_with_byte : ℕ → Text → Bool
starts_with_byte c [] = false
starts_with_byte c (d ∷ s) = d == c

unfoldable pub split_host_port : Text → Option (Text × Text)
unfolding split_bracketed split_plain has_byte index_byte last_index_byte starts_with_byte
split_host_port s = elim (last_index_byte b':' s) [
  | none ↦ none
  | some i ↦ if starts_with_byte b'[' s then split_bracketed s i else split_plain s i
]

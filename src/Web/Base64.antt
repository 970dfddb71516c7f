-- ===== src/Web/Base64.antt =====
-- encoding/base64, as session/session.go and csrf/csrf.go call it: `StdEncoding` and `URLEncoding`,
-- both with padding.
pub mod Laws
use trails.Base.{
  ℕ, ◌+◌, ◌-◌, ◌*◌, ◌/◌, ◌%◌, Bool, true, false, ◌&&◌, ◌||◌, Option, none, some, List, [], ◌∷◌,
  ◌++◌, ltb, leb, ◌==◌, if◌then◌else◌, Text,
}

-- The characters of 62 and 63.
pub record Alphabet : Type 0 where
  pub char62 : ℕ
  pub char63 : ℕ

abbrev pub std_encoding : Alphabet
std_encoding = record { char62 = b'+'; char63 = b'/' }

abbrev pub url_encoding : Alphabet
url_encoding = record { char62 = b'-'; char63 = b'_' }

module _ (alphabet : Alphabet) where
  pub char_of : ℕ → ℕ
  char_of i =
      if ltb i 26
      then b'A' + i
      else if ltb i 52
      then b'a' + (i - 26)
      else if ltb i 62
      then b'0' + (i - 52)
      else if i == 62
      then alphabet.char62
      else alphabet.char63

  pub digit_of : ℕ → Option ℕ
  digit_of c =
      if leb b'A' c && leb c b'Z'
      then some (c - b'A')
      else if leb b'a' c && leb c b'z'
      then some (c - b'a' + 26)
      else if leb b'0' c && leb c b'9'
      then some (c - b'0' + 52)
      else if c == alphabet.char62
      then some 62
      else if c == alphabet.char63
      then some 63
      else none

  -- Three bytes make four characters; `=` fills up the last group.
  unfoldable pub encode : List ℕ → Text
  unfolding char_of
  encode [] = []
  encode (a ∷ []) = char_of (a / 4) ∷ char_of (a % 4 * 16) ∷ b'=' ∷ b'=' ∷ []
  encode (a ∷ b ∷ []) =
      char_of (a / 4) ∷ char_of (a % 4 * 16 + b / 16) ∷ char_of (b % 16 * 4) ∷ b'=' ∷ []
  encode (a ∷ b ∷ c ∷ rest) =
      char_of (a / 4)
      ∷ char_of (a % 4 * 16 + b / 16)
      ∷ char_of (b % 16 * 4 + c / 64)
      ∷ char_of (c % 64)
      ∷ encode rest

  abbrev pub one_byte : ℕ → ℕ → Option (List ℕ)
  one_byte x y = elim (digit_of x) [
    | none ↦ none
    | some i ↦ elim (digit_of y) [ none ↦ none | some j ↦ some ((i * 4 + j / 16) ∷ []) ]
  ]

  abbrev pub two_bytes : ℕ → ℕ → ℕ → Option (List ℕ)
  two_bytes x y z = elim (digit_of x) [
    | none ↦ none
    | some i ↦ elim (digit_of y) [
      | none ↦ none
      | some j ↦ elim (digit_of z) [
        | none ↦ none
        | some k ↦ some ((i * 4 + j / 16) ∷ (j % 16 * 16 + k / 4) ∷ [])
      ]
    ]
  ]

  abbrev pub three_bytes : ℕ → ℕ → ℕ → ℕ → Option (List ℕ)
  three_bytes x y z w = elim (two_bytes x y z) [
    | none ↦ none
    | some bytes ↦ elim (digit_of z) [
      | none ↦ none
      | some k ↦ elim (digit_of w) [ none ↦ none | some l ↦ some (bytes ++ (k % 4 * 64 + l) ∷ []) ]
    ]
  ]

  abbrev pub append : Option (List ℕ) → Option (List ℕ) → Option (List ℕ)
  append none more = none
  append (some bytes) none = none
  append (some bytes) (some more) = some (bytes ++ more)

  -- The last group may be padded; the bits that are left over are not looked at.
  unfoldable pub decode_groups : Text → Option (List ℕ)
  unfolding digit_of
  decode_groups [] = some []
  decode_groups (x ∷ []) = none
  decode_groups (x ∷ y ∷ []) = none
  decode_groups (x ∷ y ∷ z ∷ []) = none
  decode_groups (x ∷ y ∷ z ∷ w ∷ []) =
      if w == b'=' then if z == b'=' then one_byte x y else two_bytes x y z else three_bytes x y z w
  decode_groups (x ∷ y ∷ z ∷ w ∷ v ∷ rest) = append (three_bytes x y z w) (decode_groups (v ∷ rest))

  -- Line breaks count nowhere.
  unfoldable pub without_newlines : Text → Text
  without_newlines [] = []
  without_newlines (c ∷ s) =
      let rest = without_newlines s in if c == 10 || c == 13 then rest else c ∷ rest

  unfoldable pub decode : Text → Option (List ℕ)
  unfolding decode_groups without_newlines
  decode s = decode_groups (without_newlines s)

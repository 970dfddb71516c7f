-- ===== src/Web/Base64/Laws.antt =====
-- Decoding what was encoded.
use trails.Base.{
  Text, ℕ, ◌+◌, ◌*◌, ◌/◌, ◌%◌, ◌<◌, ◌≡◌, ◌≢◌, refl, ap, ap₂, ◌∙◌, Option, none, some, false, List,
  [], ◌∷◌, ◌++◌, arith, ◌==◌, All,
}
use trails.Web.Base64.{
  Alphabet, std_encoding, url_encoding, char_of, digit_of, encode, decode, decode_groups,
  without_newlines, one_byte, two_bytes, three_bytes, append,
}

-- 62 and 63 have characters of their own, that are neither padding nor line breaks.
pub record IsAlphabet (a : Alphabet) : Type 0 where
  pub digit62 : digit_of a a.char62 ≡ some 62
  pub digit63 : digit_of a a.char63 ≡ some 63
  pub visible62 : b' ' < a.char62
  pub visible63 : b' ' < a.char63
  pub not_pad62 : a.char62 ≢ b'='
  pub not_pad63 : a.char63 ≢ b'='

abbrev pub IsBytes : List ℕ → Type 0
IsBytes bs = All (λ b. b < 256) bs

module _ (alphabet : Alphabet) (ok : IsAlphabet alphabet) where
  digit_of-char_of : (i : ℕ) → i < 64 → digit_of alphabet (char_of alphabet i) ≡ some i
  unfolding digit_of char_of
  digit_of-char_of i h = ground (arith, ok.digit62, ok.digit63)

  pub char_of_visible : (i : ℕ) → (b' ' < char_of alphabet i) × (char_of alphabet i ≢ b'=')
  unfolding char_of
  char_of_visible i =
      (ground (arith, ok.visible62, ok.visible63), ground (arith, ok.not_pad62, ok.not_pad63))

  not_pad : (i : ℕ) → (char_of alphabet i == b'=') ≡ false
  not_pad i = ground (arith, char_of_visible i)

  one_byte-digits :
      (x y i j : ℕ)
      → digit_of alphabet x ≡ some i
      → digit_of alphabet y ≡ some j
      → one_byte alphabet x y ≡ some ((i * 4 + j / 16) ∷ [])
  one_byte-digits x y i j p q = ground (arith, p, q)

  two_bytes-digits :
      (x y z i j k : ℕ)
      → digit_of alphabet x ≡ some i
      → digit_of alphabet y ≡ some j
      → digit_of alphabet z ≡ some k
      → two_bytes alphabet x y z ≡ some ((i * 4 + j / 16) ∷ (j % 16 * 16 + k / 4) ∷ [])
  two_bytes-digits x y z i j k p q r = ground (arith, p, q, r)

  three_bytes-digits :
      (x y z w k l : ℕ) (bytes : List ℕ)
      → two_bytes alphabet x y z ≡ some bytes
      → digit_of alphabet z ≡ some k
      → digit_of alphabet w ≡ some l
      → three_bytes alphabet x y z w ≡ some (bytes ++ (k % 4 * 64 + l) ∷ [])
  three_bytes-digits x y z w k l bytes e p q = ap₂ (λ bs d. third bs d w) e p ∙ ground (arith, q)
    where
      third : Option (List ℕ) → Option ℕ → ℕ → Option (List ℕ)
      third o d w = elim o [
        | none ↦ none
        | some bytes ↦ elim d [
          | none ↦ none
          | some k ↦ elim (digit_of alphabet w) [
            | none ↦ none
            | some l ↦ some (bytes ++ (k % 4 * 64 + l) ∷ [])
          ]
        ]
      ]

  pub one_byte-chars :
      (a : ℕ)
      → a < 256
      → one_byte alphabet (char_of alphabet (a / 4)) (char_of alphabet (a % 4 * 16)) ≡ some (a ∷ [])
  one_byte-chars a h =
      one_byte-digits _ _ (a / 4) (a % 4 * 16) (digit_of-char_of (a / 4) (omega arith))
        (digit_of-char_of (a % 4 * 16) (omega arith))
      ∙ ap (λ (x : ℕ). some (x ∷ [])) (omega arith)

  -- The bytes a and b, where the third character holds j besides.
  pub two_bytes-chars :
      (a b j : ℕ)
      → a < 256
      → b < 256
      → j < 4
      → two_bytes alphabet
          (char_of alphabet (a / 4))
          (char_of alphabet (a % 4 * 16 + b / 16))
          (char_of alphabet (b % 16 * 4 + j))
        ≡ some (a ∷ b ∷ [])
  two_bytes-chars a b j h k l =
      two_bytes-digits _ _ _ (a / 4) (a % 4 * 16 + b / 16) (b % 16 * 4 + j)
        (digit_of-char_of (a / 4) (omega arith))
        (digit_of-char_of (a % 4 * 16 + b / 16) (omega arith))
        (digit_of-char_of (b % 16 * 4 + j) (omega arith))
      ∙ ap₂ (λ (x y : ℕ). some (x ∷ y ∷ [])) (omega arith) (omega arith)

  pub three_bytes-chars :
      (a b c : ℕ)
      → a < 256
      → b < 256
      → c < 256
      → three_bytes alphabet
          (char_of alphabet (a / 4))
          (char_of alphabet (a % 4 * 16 + b / 16))
          (char_of alphabet (b % 16 * 4 + c / 64))
          (char_of alphabet (c % 64))
        ≡ some (a ∷ b ∷ c ∷ [])
  three_bytes-chars a b c h k l =
      three_bytes-digits _ _ _ _ (b % 16 * 4 + c / 64) (c % 64) (a ∷ b ∷ [])
        (two_bytes-chars a b (c / 64) h k (omega arith))
        (digit_of-char_of (b % 16 * 4 + c / 64) (omega arith))
        (digit_of-char_of (c % 64) (omega arith))
      ∙ ap (λ (x : ℕ). some (a ∷ b ∷ x ∷ [])) (omega arith)

  decode_groups-encode :
      (bs : List ℕ) → IsBytes bs → decode_groups alphabet (encode alphabet bs) ≡ some bs
  unfolding decode_groups encode
  decode_groups-encode [] h = refl
  decode_groups-encode (a ∷ []) (h, u) = one_byte-chars a h
  decode_groups-encode (a ∷ b ∷ []) (h, (k, u)) =
      let e : b % 16 * 4 ≡ b % 16 * 4 + 0 = omega arith in
      rw (not_pad (b % 16 * 4)) (
        ap
          (λ i.
            two_bytes alphabet (char_of alphabet (a / 4)) (char_of alphabet (a % 4 * 16 + b / 16))
              (char_of alphabet i))
          e
        ∙ two_bytes-chars a b 0 h k (omega arith))
  decode_groups-encode (a ∷ b ∷ c ∷ []) (h, (k, (l, u))) =
      rw (not_pad (c % 64)) (three_bytes-chars a b c h k l)
  decode_groups-encode (a ∷ b ∷ c ∷ d ∷ []) (h, (k, (l, u))) =
      ap₂ (append alphabet) (three_bytes-chars a b c h k l) (decode_groups-encode (d ∷ []) u)
  decode_groups-encode (a ∷ b ∷ c ∷ d ∷ e ∷ []) (h, (k, (l, u))) =
      ap₂ (append alphabet) (three_bytes-chars a b c h k l) (decode_groups-encode (d ∷ e ∷ []) u)
  decode_groups-encode (a ∷ b ∷ c ∷ d ∷ e ∷ f ∷ rest) (h, (k, (l, u))) =
      ap₂ (append alphabet) (three_bytes-chars a b c h k l)
        (decode_groups-encode (d ∷ e ∷ f ∷ rest) u)

pub std_encoding-IsAlphabet : IsAlphabet std_encoding
unfolding digit_of
std_encoding-IsAlphabet = record {
  digit62 = refl;
  digit63 = refl;
  visible62 = omega arith;
  visible63 = omega arith;
  not_pad62 = ground arith;
  not_pad63 = ground arith;
}

pub url_encoding-IsAlphabet : IsAlphabet url_encoding
unfolding digit_of
url_encoding-IsAlphabet = record {
  digit62 = refl;
  digit63 = refl;
  visible62 = omega arith;
  visible63 = omega arith;
  not_pad62 = ground arith;
  not_pad63 = ground arith;
}

pub encode_visible :
    (a : Alphabet) → IsAlphabet a → (bs : List ℕ) → All (λ c. b' ' < c) (encode a bs)
unfolding encode
encode_visible a ok [] = tt
encode_visible a ok (x ∷ []) =
    ground (arith, char_of_visible a ok (x / 4), char_of_visible a ok (x % 4 * 16))
encode_visible a ok (x ∷ y ∷ []) = ground (
  arith,
  char_of_visible a ok (x / 4),
  char_of_visible a ok (x % 4 * 16 + y / 16),
  char_of_visible a ok (y % 16 * 4),
)
encode_visible a ok (x ∷ y ∷ z ∷ rest) = (
  (char_of_visible a ok (x / 4)).0,
  (
    (char_of_visible a ok (x % 4 * 16 + y / 16)).0,
    (
      (char_of_visible a ok (y % 16 * 4 + z / 64)).0,
      ((char_of_visible a ok (z % 64)).0, encode_visible a ok rest),
    ),
  ),
)

-- A text with no line break is read whole.
pub without_newlines_visible :
    (a : Alphabet) (s : Text) → All (λ c. b' ' < c) s → without_newlines a s ≡ s
unfolding without_newlines
without_newlines_visible a [] h = refl
without_newlines_visible a (c ∷ s) (h, u) = ground (arith, h, without_newlines_visible a s u)

-- Bytes that were encoded are decoded to themselves.
pub decode-encode :
    (a : Alphabet) → IsAlphabet a → (bs : List ℕ) → IsBytes bs → decode a (encode a bs) ≡ some bs
unfolding decode
decode-encode a ok bs h =
    ap (decode_groups a) (without_newlines_visible a (encode a bs) (encode_visible a ok bs))
    ∙ decode_groups-encode a ok bs h

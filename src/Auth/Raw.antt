-- ===== src/Auth/Raw.antt =====
-- base64.RawURLEncoding: the alphabet of URLEncoding, with no padding.
use trails.Base.{
  ℕ, ◌+◌, ◌*◌, ◌/◌, ◌%◌, ◌<◌, ◌≡◌, refl, ap, ap₂, ◌∙◌, Option, none, some, List, [], ◌∷◌, arith,
  Text, All,
}
use trails.Web.Base64.{
  url_encoding, char_of, one_byte, two_bytes, three_bytes, append, without_newlines,
}
use trails.Web.Base64.Laws.{
  IsBytes, url_encoding-IsAlphabet, one_byte-chars, two_bytes-chars, three_bytes-chars,
  char_of_visible, without_newlines_visible,
}

unfoldable pub encode_raw_url : List ℕ → Text
encode_raw_url [] = []
encode_raw_url (a ∷ []) = char_of url_encoding (a / 4) ∷ char_of url_encoding (a % 4 * 16) ∷ []
encode_raw_url (a ∷ b ∷ []) =
    char_of url_encoding (a / 4)
    ∷ char_of url_encoding (a % 4 * 16 + b / 16)
    ∷ char_of url_encoding (b % 16 * 4)
    ∷ []
encode_raw_url (a ∷ b ∷ c ∷ rest) =
    char_of url_encoding (a / 4)
    ∷ char_of url_encoding (a % 4 * 16 + b / 16)
    ∷ char_of url_encoding (b % 16 * 4 + c / 64)
    ∷ char_of url_encoding (c % 64)
    ∷ encode_raw_url rest

raw_groups : Text → Option (List ℕ)
raw_groups [] = some []
raw_groups (x ∷ []) = none
raw_groups (x ∷ y ∷ []) = one_byte url_encoding x y
raw_groups (x ∷ y ∷ z ∷ []) = two_bytes url_encoding x y z
raw_groups (x ∷ y ∷ z ∷ w ∷ rest) =
    append url_encoding (three_bytes url_encoding x y z w) (raw_groups rest)

unfoldable pub decode_raw_url : Text → Option (List ℕ)
unfolding raw_groups without_newlines
decode_raw_url s = raw_groups (without_newlines url_encoding s)

raw_groups-encode_raw_url : (bs : List ℕ) → IsBytes bs → raw_groups (encode_raw_url bs) ≡ some bs
unfolding raw_groups encode_raw_url
raw_groups-encode_raw_url [] h = refl
raw_groups-encode_raw_url (a ∷ []) (h, u) = one_byte-chars url_encoding url_encoding-IsAlphabet a h
raw_groups-encode_raw_url (a ∷ b ∷ []) (h, (k, u)) =
    let e : b % 16 * 4 ≡ b % 16 * 4 + 0 = omega arith in
    ap
      (λ i.
        two_bytes url_encoding (char_of url_encoding (a / 4))
          (char_of url_encoding (a % 4 * 16 + b / 16)) (char_of url_encoding i))
      e
    ∙ two_bytes-chars url_encoding url_encoding-IsAlphabet a b 0 h k (omega arith)
raw_groups-encode_raw_url (a ∷ b ∷ c ∷ rest) (h, (k, (l, u))) =
    ap₂ (append url_encoding) (three_bytes-chars url_encoding url_encoding-IsAlphabet a b c h k l)
      (raw_groups-encode_raw_url rest u)

seen : (i : ℕ) → b' ' < char_of url_encoding i
seen i = (char_of_visible url_encoding url_encoding-IsAlphabet i).0

encode_raw_url_visible : (bs : List ℕ) → All (λ c. b' ' < c) (encode_raw_url bs)
unfolding encode_raw_url
encode_raw_url_visible [] = tt
encode_raw_url_visible (x ∷ []) = (seen (x / 4), (seen (x % 4 * 16), tt))
encode_raw_url_visible (x ∷ y ∷ []) =
    (seen (x / 4), (seen (x % 4 * 16 + y / 16), (seen (y % 16 * 4), tt)))
encode_raw_url_visible (x ∷ y ∷ z ∷ rest) = (
  seen (x / 4),
  (
    seen (x % 4 * 16 + y / 16),
    (seen (y % 16 * 4 + z / 64), (seen (z % 64), encode_raw_url_visible rest)),
  ),
)

pub decode_raw_url-encode_raw_url :
    (bs : List ℕ) → IsBytes bs → decode_raw_url (encode_raw_url bs) ≡ some bs
unfolding decode_raw_url
decode_raw_url-encode_raw_url bs h =
    ap raw_groups
      (without_newlines_visible url_encoding (encode_raw_url bs) (encode_raw_url_visible bs))
    ∙ raw_groups-encode_raw_url bs h

-- ===== src/Credentials.antt =====
-- internal/credentials/credentials.go: `Encrypt` and `Decrypt`. AES-GCM of crypto/cipher is a
-- parameter; `none` stands for any error. The nonce that is drawn is an argument.
pub mod Laws
use trails.Base.{
  ℕ, ◌+◌, ◌-◌, ◌*◌, ◌<◌, Bool, true, false, ◌&&◌, Option, none, some, List, [], ◌∷◌, ◌++◌, ◌≡◌, leb,
  ltb, ◌==◌, if◌then◌else◌, Text, length, take, drop,
}
use trails.Web.Base64.{std_encoding, encode, decode}
use trails.Web.Header.{trim_space}

-- Key, nonce, and the plaintext or the ciphertext.
pub record Aead : Type 0 where
  pub seal : List ℕ → List ℕ → List ℕ → List ℕ
  pub open_ : List ℕ → List ℕ → List ℕ → Option (List ℕ)

abbrev pub nonce_size : ℕ
nonce_size = 12

abbrev hex_digit : ℕ → Option ℕ
hex_digit c =
    if leb b'0' c && leb c b'9'
    then some (c - b'0')
    else if leb b'a' c && leb c b'f'
    then some (c - b'a' + 10)
    else if leb b'A' c && leb c b'F'
    then some (c - b'A' + 10)
    else none

abbrev hex_byte : Option ℕ → Option ℕ → Option (List ℕ) → Option (List ℕ)
hex_byte (some i) (some j) (some rest) = some ((i * 16 + j) ∷ rest)
hex_byte _ _ _ = none

-- hex.DecodeString
unfoldable pub hex_decode : Text → Option (List ℕ)
hex_decode [] = some []
hex_decode (c ∷ []) = none
hex_decode (c ∷ e ∷ s) = hex_byte (hex_digit c) (hex_digit e) (hex_decode s)

-- The key of the cipher.
unfoldable pub new_gcm : Text → Option (List ℕ)
unfolding hex_decode trim_space
new_gcm hex_key = elim (hex_decode (trim_space hex_key)) [
  | none ↦ none
  | some key ↦ if length key == 32 then some key else none
]

module _ (A : Aead) where
  unfoldable pub encrypt : Text → List ℕ → List ℕ → Option Text
  unfolding new_gcm encode
  encrypt hex_key nonce plaintext = elim (new_gcm hex_key) [
    | none ↦ none
    | some key ↦ some (encode std_encoding (nonce ++ A.seal key nonce plaintext) ++ 10 ∷ [])
  ]

  unfoldable pub decrypt : Text → Text → Option (List ℕ)
  unfolding new_gcm decode trim_space
  decrypt hex_key encoded = elim (new_gcm hex_key) [
    | none ↦ none
    | some key ↦ elim (decode std_encoding (trim_space encoded)) [
      | none ↦ none
      | some bytes ↦
          if ltb (length bytes) nonce_size
          then none
          else A.open_ key (take nonce_size bytes) (drop nonce_size bytes)
    ]
  ]

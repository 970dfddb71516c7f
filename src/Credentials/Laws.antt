-- ===== src/Credentials/Laws.antt =====
-- What was encrypted is decrypted with the same key.
use trails.Base.{
  ℕ, ◌<◌, ◌≡◌, sym, ap, ap₂, ◌∙◌, none, some, List, [], ◌∷◌, ◌++◌, arith, Text, All, All-append,
  length, length-append, take, drop, take-append_length, drop-append_length, ltb, if◌then◌else◌,
}
use trails.Web.Header.{trim_space}
use trails.Web.Header.Laws.{trim_space_visible, trim_space_newline}
use trails.Web.Base64.{std_encoding, encode, decode}
use trails.Web.Base64.Laws.{IsBytes, decode-encode, encode_visible, std_encoding-IsAlphabet}
use trails.Credentials.{Aead, nonce_size, new_gcm, encrypt, decrypt}

-- What crypto/cipher promises of its AEAD: it opens what it sealed, into and out of bytes.
pub record IsAead (A : Aead) : Type 0 where
  pub opens :
      (key nonce plaintext : List ℕ)
      → length nonce ≡ nonce_size
      → A.open_ key nonce (A.seal key nonce plaintext) ≡ some plaintext
  pub seals_bytes :
      (key nonce plaintext : List ℕ) → IsBytes plaintext → IsBytes (A.seal key nonce plaintext)

module _ (A : Aead) (law : IsAead A) where
  open-sealed :
      (key nonce plaintext : List ℕ)
      → length nonce ≡ nonce_size
      → (if ltb (length (nonce ++ A.seal key nonce plaintext)) nonce_size
          then none
          else A.open_ key
              (take nonce_size (nonce ++ A.seal key nonce plaintext))
              (drop nonce_size (nonce ++ A.seal key nonce plaintext)))
        ≡ some plaintext
  open-sealed key nonce plaintext n =
      let sealed = A.seal key nonce plaintext in
      let cut : take nonce_size (nonce ++ sealed) ≡ nonce =
        ap (λ i. take i (nonce ++ sealed)) (sym n) ∙ take-append_length nonce sealed in
      let rest : drop nonce_size (nonce ++ sealed) ≡ sealed =
        ap (λ i. drop i (nonce ++ sealed)) (sym n) ∙ drop-append_length nonce sealed in
      ground (
        arith,
        n,
        length-append nonce sealed,
        ap₂ (A.open_ key) cut rest,
        law.opens key nonce plaintext n,
      )

  pub decrypt_trimmed :
      (hex_key : Text) (key nonce plaintext : List ℕ) (c : Text)
      → new_gcm hex_key ≡ some key
      → length nonce ≡ nonce_size
      → IsBytes nonce
      → IsBytes plaintext
      → trim_space c ≡ encode std_encoding (nonce ++ A.seal key nonce plaintext)
      → decrypt A hex_key c ≡ some plaintext
  unfolding decrypt
  decrypt_trimmed hex_key key nonce plaintext c k n b p t = ground (
    arith,
    k,
    ap (decode std_encoding) t,
    decode-encode std_encoding std_encoding-IsAlphabet (nonce ++ A.seal key nonce plaintext) (
        All-append (λ x. x < 256) nonce (A.seal key nonce plaintext) b
          (law.seals_bytes key nonce plaintext p)),
    open-sealed key nonce plaintext n,
  )

  -- Under a valid key, with a cipher that opens what it sealed, any bytes can be encrypted with a
  -- nonce of 12 bytes, and the same key decrypts them, with or without the line break behind.
  pub decrypt-encrypt :
      (hex_key : Text) (key nonce plaintext : List ℕ)
      → new_gcm hex_key ≡ some key
      → length nonce ≡ nonce_size
      → IsBytes nonce
      → IsBytes plaintext
      → (c : Text) × (encrypt A hex_key nonce plaintext ≡ some c)
        × (decrypt A hex_key c ≡ some plaintext)
        × (decrypt A hex_key (trim_space c) ≡ some plaintext)
  unfolding encrypt
  decrypt-encrypt hex_key key nonce plaintext k n b p =
      let sealed = A.seal key nonce plaintext in
      let body = encode std_encoding (nonce ++ sealed) in
      let seen : All (λ c. b' ' < c) body =
        encode_visible std_encoding std_encoding-IsAlphabet (nonce ++ sealed) in
      (
        body ++ 10 ∷ [],
        ground (arith, k),
        decrypt_trimmed hex_key key nonce plaintext _ k n b p (trim_space_newline body seen),
        decrypt_trimmed hex_key key nonce plaintext _ k n b p
            (ap trim_space (trim_space_newline body seen) ∙ trim_space_visible body seen),
      )

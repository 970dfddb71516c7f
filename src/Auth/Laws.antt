-- ===== src/Auth/Laws.antt =====
-- A token that was generated verifies exactly for its purpose and digest, until it expires.
use trails.Base.{
  ℕ, ◌≡◌, ◌⊎◌, inl, inr, refl, ap, sym, ◌<◌, ◌∙◌, true, false, none, some, List, [], ◌∷◌, ◌++◌,
  arith, Text, All-append, length, ◌===◌, ===_iff, ℤ, ltb_ℤ, ◌+ℤ◌, Bool-cases,
}
use trails.Web.Header.Laws.{trim_space_visible}
use trails.Web.Base64.{std_encoding, encode, decode}
use trails.Web.Base64.Laws.{IsBytes, decode-encode, encode_visible, std_encoding-IsAlphabet}
use trails.Credentials.{Aead, nonce_size, new_gcm, encrypt, decrypt}
use trails.Credentials.Laws.{IsAead, decrypt_trimmed}
use trails.Auth.Raw.{encode_raw_url, decode_raw_url, decode_raw_url-encode_raw_url}
use trails.Auth.{
  TokenPayload, Json, trim_trailing_newline, reencode, generate_token_for, check_payload,
  verify_token_for,
}

trim_trailing_newline-append : (s : Text) → trim_trailing_newline (s ++ 10 ∷ []) ≡ s
unfolding trim_trailing_newline
trim_trailing_newline-append [] = refl
trim_trailing_newline-append (c ∷ []) = refl
trim_trailing_newline-append (c ∷ e ∷ s) = ap (◌∷◌ c) (trim_trailing_newline-append (e ∷ s))

module _ (A : Aead) (law : IsAead A) (json : Json) where
  -- What the payload is good for.
  abbrev pub Matches : TokenPayload → Text → Text → ℤ → Type 0
  Matches p purpose digest now =
      (p.purpose ≡ purpose) × (p.digest ≡ digest) × (ltb_ℤ p.expires_at now ≡ false)

  differ : ¬ (true ≡ false)
  differ q = absurd (cc)

  mismatch : (s t : Text) → (s === t) ≡ false → ¬ (s ≡ t)
  mismatch s t e q = differ (sym ((===_iff s t).1 q) ∙ e)

  check_payload_cases :
      (p : TokenPayload) (purpose digest : Text) (now : ℤ)
      → (Matches p purpose digest now × (check_payload A json purpose digest now p ≡ some p.id))
        ⊎ ((¬ Matches p purpose digest now) × (check_payload A json purpose digest now p ≡ none))
  unfolding check_payload
  check_payload_cases p purpose digest now = elim (Bool-cases (p.purpose === purpose)) [
    | inr a ↦ inr (λ m. mismatch p.purpose purpose a m.0, ground (arith, a))
    | inl a ↦ elim (Bool-cases (ltb_ℤ p.expires_at now)) [
      | inl b ↦ inr (λ m. differ (sym b ∙ m.2), ground (arith, a, b))
      | inr b ↦ elim (Bool-cases (p.digest === digest)) [
        | inr c ↦ inr (λ m. mismatch p.digest digest c m.1, ground (arith, a, b, c))
        | inl c ↦ inl (
          ((===_iff p.purpose purpose).0 a, (===_iff p.digest digest).0 c, b),
          ground (arith, a, b, c),
        )
      ]
    ]
  ]

  reencode-encrypt :
      (secret : Text) (key nonce plaintext : List ℕ)
      → new_gcm secret ≡ some key
      → IsBytes nonce
      → IsBytes plaintext
      → reencode A json (encrypt A secret nonce plaintext)
        ≡ some (encode_raw_url (nonce ++ A.seal key nonce plaintext))
  unfolding encrypt
  reencode-encrypt secret key nonce plaintext k b p =
      let body = nonce ++ A.seal key nonce plaintext in
      let bytes : IsBytes body =
        All-append (λ x. x < 256) nonce (A.seal key nonce plaintext) b
          (law.seals_bytes key nonce plaintext p) in
      let read : decode std_encoding (trim_trailing_newline (encode std_encoding body ++ 10 ∷ []))
          ≡ some body =
        ap (decode std_encoding) (trim_trailing_newline-append (encode std_encoding body))
        ∙ decode-encode std_encoding std_encoding-IsAlphabet body bytes in
      ground (arith, k, read)

  generate_reencodes :
      (secret : Text) (nonce : List ℕ) (p : TokenPayload) (plaintext : Text) (expires_in issued : ℤ)
      → issued +ℤ expires_in ≡ p.expires_at
      → json.marshal p ≡ some plaintext
      → generate_token_for A json secret nonce p.purpose p.id p.digest expires_in issued
        ≡ reencode A json (encrypt A secret nonce plaintext)
  unfolding generate_token_for
  generate_reencodes secret nonce p plaintext expires_in issued x m =
      let made : json.marshal (record p { expires_at = issued +ℤ expires_in }) ≡ some plaintext =
        ap (λ (t : ℤ). json.marshal (record p { expires_at = t })) x ∙ m in
      ground (arith, made)

  verify_checks :
      (secret purpose token digest : Text) (now : ℤ) (raw plaintext : List ℕ) (p : TokenPayload)
      → decode_raw_url token ≡ some raw
      → decrypt A secret (encode std_encoding raw) ≡ some plaintext
      → json.unmarshal plaintext ≡ some p
      → verify_token_for A json secret purpose token digest now
        ≡ check_payload A json purpose digest now p
  unfolding verify_token_for
  verify_checks secret purpose token digest now raw plaintext p a b c = ground (arith, a, b, c)

  -- Under a valid key, with a cipher that opens what it sealed, a token can be generated for any
  -- payload that JSON carries, its expiry being the time of issue and the given duration, and
  -- verifying it gives the payload's id exactly if the purpose and the digest are the payload's and
  -- the time is not behind its expiry; otherwise it gives none.
  pub verify-generate :
      (secret : Text) (key nonce : List ℕ) (p : TokenPayload) (plaintext : Text)
      (purpose digest : Text) (expires_in issued now : ℤ)
      → issued +ℤ expires_in ≡ p.expires_at
      → new_gcm secret ≡ some key
      → length nonce ≡ nonce_size
      → IsBytes nonce
      → json.marshal p ≡ some plaintext
      → json.unmarshal plaintext ≡ some p
      → IsBytes plaintext
      → (token : Text) × (generate_token_for A json secret nonce p.purpose p.id p.digest expires_in
            issued
          ≡ some token)
        × ((Matches p purpose digest now
              × (verify_token_for A json secret purpose token digest now ≡ some p.id))
            ⊎ ((¬ Matches p purpose digest now)
                × (verify_token_for A json secret purpose token digest now ≡ none)))
  verify-generate secret key nonce p plaintext purpose digest expires_in issued now x k n b m u pb =
      let body = nonce ++ A.seal key nonce plaintext in
      let bytes : IsBytes body =
        All-append (λ x. x < 256) nonce (A.seal key nonce plaintext) b
          (law.seals_bytes key nonce plaintext pb) in
      let text = encode std_encoding body in
      let trimmed =
        trim_space_visible text (encode_visible std_encoding std_encoding-IsAlphabet body) in
      let opened = decrypt_trimmed A law secret key nonce plaintext text k n b pb trimmed in
      let raw = decode_raw_url-encode_raw_url body bytes in
      let checked : verify_token_for A json secret purpose (encode_raw_url body) digest now
          ≡ check_payload A json purpose digest now p =
        verify_checks secret purpose (encode_raw_url body) digest now body plaintext p raw opened
          u in
      (
        encode_raw_url body,
        generate_reencodes secret nonce p plaintext expires_in issued x m
            ∙ reencode-encrypt secret key nonce plaintext k b pb,
        elim (check_payload_cases p purpose digest now) [
          | inl (good, e) ↦ inl (good, checked ∙ e)
          | inr (bad, e) ↦ inr (bad, checked ∙ e)
        ],
      )

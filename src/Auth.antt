-- ===== src/Auth.antt =====
-- auth/signed_token.go: encrypted tokens with a purpose, a digest and an expiry. JSON is a parameter,
-- and so is the time.
pub mod Raw
pub mod Laws
mod Tests
use trails.Base.{
  ℕ, ◌+◌, Bool, true, false, not, Option, none, some, List, [], ◌∷◌, ◌++◌, if◌then◌else◌, ltb, leb,
  ◌==◌, Text, ◌===◌, ℤ, pos, negsuc, ltb_ℤ, ◌+ℤ◌,
}
use mathlib.Core.List.{reverse}
use trails.Web.Base64.{std_encoding, encode, decode}
use trails.Credentials.{Aead, encrypt, decrypt}
use trails.Auth.Raw.{encode_raw_url, decode_raw_url}

-- Times are integers of nanoseconds here, as a token may be made to have expired.
pub record TokenPayload : Type 0 where
  pub id : Text
  pub purpose : Text
  pub digest : Text
  pub expires_at : ℤ

pub record Json : Type 0 where
  pub marshal : TokenPayload → Option Text
  pub unmarshal : Text → Option TokenPayload

-- The text without a newline at its end.
unfoldable pub trim_trailing_newline : Text → Text
trim_trailing_newline [] = []
trim_trailing_newline (c ∷ []) = if c == 10 then [] else c ∷ []
trim_trailing_newline (c ∷ e ∷ s) = c ∷ trim_trailing_newline (e ∷ s)

module _ (A : Aead) (json : Json) where
  -- The re-encoding of what `Encrypt` returned.
  abbrev pub reencode : Option Text → Option Text
  reencode none = none
  reencode (some encoded) = elim (decode std_encoding (trim_trailing_newline encoded)) [
    | none ↦ none
    | some raw ↦ some (encode_raw_url raw)
  ]

  unfoldable pub generate_token_for : Text → List ℕ → Text → Text → Text → ℤ → ℤ → Option Text
  generate_token_for secret_key_base nonce purpose id digest expires_in now =
      elim (json.marshal
        (record { id = id; purpose = purpose; digest = digest; expires_at = now +ℤ expires_in })) [
          | none ↦ none
          | some plaintext ↦ reencode (encrypt A secret_key_base nonce plaintext)
        ]

  -- The three checks on a payload.
  unfoldable pub check_payload : Text → Text → ℤ → TokenPayload → Option Text
  check_payload purpose digest now p =
      if not (p.purpose === purpose)
      then none
      else if ltb_ℤ p.expires_at now
      then none
      else if not (p.digest === digest)
      then none
      else some p.id

  unfoldable pub verify_token_for : Text → Text → Text → Text → ℤ → Option Text
  verify_token_for secret_key_base purpose token digest now = elim (decode_raw_url token) [
    | none ↦ none
    | some raw ↦ elim (decrypt A secret_key_base (encode std_encoding raw)) [
      | none ↦ none
      | some plaintext ↦ elim (json.unmarshal plaintext) [
        | none ↦ none
        | some payload ↦ check_payload purpose digest now payload
      ]
    ]
  ]

-- ===== src/Auth/Tests.antt =====
-- A token to reset a password, with a cipher that does nothing.
use trails.Base.{ℕ, ◌≡◌, ◌⊎◌, refl, arith, none, some, List, [], ◌∷◌, Text, codes, pos, ◌+ℤ◌}
use trails.Credentials.{Aead, new_gcm}
use trails.Credentials.Laws.{IsAead}
use trails.Auth.{TokenPayload, Json, generate_token_for, verify_token_for}
use trails.Auth.Laws.{Matches, verify-generate}

abbrev plain : Aead
plain = record { seal = λ k n p. p; open_ = λ k n c. some c }

plain-IsAead : IsAead plain
plain-IsAead = record { opens = λ k n p h. refl; seals_bytes = λ k n p b. b }

abbrev payload : TokenPayload
payload = record {
  id = codes "7";
  purpose = codes "reset";
  digest = codes "d";
  expires_at = pos 100;
}

-- A codec that knows one payload.
abbrev json : Json
json = record { marshal = λ p. some (codes "7"); unmarshal = λ s. some payload }

abbrev secret : Text
secret = codes "0000000000000000000000000000000000000000000000000000000000000000"

abbrev key : List ℕ
key =
    0 ∷ 0 ∷ 0 ∷ 0 ∷ 0 ∷ 0 ∷ 0 ∷ 0 ∷ 0 ∷ 0 ∷ 0 ∷ 0 ∷ 0 ∷ 0 ∷ 0 ∷ 0 ∷ 0 ∷ 0 ∷ 0 ∷ 0 ∷ 0 ∷ 0 ∷ 0 ∷ 0
    ∷ 0 ∷ 0 ∷ 0 ∷ 0 ∷ 0 ∷ 0 ∷ 0 ∷ 0 ∷ []

abbrev nonce : List ℕ
nonce = 1 ∷ 2 ∷ 3 ∷ 4 ∷ 5 ∷ 6 ∷ 7 ∷ 8 ∷ 9 ∷ 10 ∷ 11 ∷ 12 ∷ []

verify-generate_example :
    (token : Text) × (generate_token_for plain json secret nonce
        (codes "reset")
        (codes "7")
        (codes "d")
        (pos 60)
        (pos 40)
      ≡ some token)
    × ((Matches plain plain-IsAead json payload (codes "login") (codes "d") (pos 50)
          × (verify_token_for plain json secret (codes "login") token (codes "d") (pos 50)
              ≡ some (codes "7")))
        ⊎ ((¬ Matches plain plain-IsAead json payload (codes "login") (codes "d") (pos 50))
            × (verify_token_for plain json secret (codes "login") token (codes "d") (pos 50)
                ≡ none)))
unfolding new_gcm codes ◌+ℤ◌
verify-generate_example =
    verify-generate plain plain-IsAead json secret key nonce payload (codes "7") (codes "login")
      (codes "d") (pos 60) (pos 40) (pos 50) refl refl refl (ground arith) refl refl (ground arith)

-- ===== src/Session/Tests.antt =====
-- Sessions and their cookies, with a cipher that does nothing.
use trails.Base.{ℕ, ◌≡◌, refl, arith, true, false, none, some, List, [], ◌∷◌, ◌++◌, Text, codes}
use trails.Web.Base64.{std_encoding, encode, decode}
use trails.Web.Base64.Laws.{IsBytes, decode-encode, std_encoding-IsAlphabet}
use trails.Web.Header.{trim_space}
use trails.Credentials.{Aead, new_gcm, encrypt, decrypt}
use trails.Credentials.Laws.{IsAead, decrypt-encrypt}
use trails.Session.{Session, text, csrf_token, stored_token}
use trails.Session.Laws.{sets, clears, csrf_token_stays}
use trails.Session.Cookie.{Config, Cookie, Json, CommitWriter, new_config, load, session_cookie}
use trails.Session.Cookie.Laws.{
  Event, changes, writes, handle, cookies_at_first_write, handle_cookies, load-session_cookie,
}

abbrev hex_key : Text
hex_key = codes "0000000000000000000000000000000000000000000000000000000000000000"

abbrev key : List ℕ
key =
    0 ∷ 0 ∷ 0 ∷ 0 ∷ 0 ∷ 0 ∷ 0 ∷ 0 ∷ 0 ∷ 0 ∷ 0 ∷ 0 ∷ 0 ∷ 0 ∷ 0 ∷ 0 ∷ 0 ∷ 0 ∷ 0 ∷ 0 ∷ 0 ∷ 0 ∷ 0 ∷ 0
    ∷ 0 ∷ 0 ∷ 0 ∷ 0 ∷ 0 ∷ 0 ∷ 0 ∷ 0 ∷ []

abbrev nonce : List ℕ
nonce = 1 ∷ 2 ∷ 3 ∷ 4 ∷ 5 ∷ 6 ∷ 7 ∷ 8 ∷ 9 ∷ 10 ∷ 11 ∷ 12 ∷ []

abbrev plain : Aead
plain = record { seal = λ k n p. p; open_ = λ k n c. some c }

plain-IsAead : IsAead plain
plain-IsAead = record { opens = λ k n p h. refl; seals_bytes = λ k n p b. b }

nonce-IsBytes : IsBytes nonce
nonce-IsBytes = ground arith

decode-encode_example :
    decode std_encoding (encode std_encoding (7 ∷ 255 ∷ 0 ∷ 9 ∷ [])) ≡ some (7 ∷ 255 ∷ 0 ∷ 9 ∷ [])
decode-encode_example =
    decode-encode std_encoding std_encoding-IsAlphabet (7 ∷ 255 ∷ 0 ∷ 9 ∷ []) (ground arith)

decrypt-encrypt_example :
    (c : Text) × (encrypt plain hex_key nonce (65 ∷ []) ≡ some c)
    × (decrypt plain hex_key c ≡ some (65 ∷ []))
    × (decrypt plain hex_key (trim_space c) ≡ some (65 ∷ []))
unfolding new_gcm codes
decrypt-encrypt_example =
    decrypt-encrypt plain plain-IsAead hex_key key nonce (65 ∷ []) refl refl nonce-IsBytes
      (ground arith)

abbrev empty : Session ℕ
empty = record { data_ = []; dirty = false }

csrf_token_stays_example :
    (csrf_token nonce (csrf_token key empty).0
      ≡ ((csrf_token key empty).0, (csrf_token key empty).1))
    × (stored_token (csrf_token key empty).0 ≡ some (csrf_token key empty).1)
csrf_token_stays_example = csrf_token_stays key nonce empty (ground arith) refl

-- A table of one text under its own name.
abbrev json : Json ℕ
json = record {
  marshal = λ t. elim t [ [] ↦ none | (k, v) ∷ rest ↦ some k ];
  unmarshal = λ s. some ((s, text s) ∷ []);
}

abbrev cfg : Config
cfg = new_config (codes "production") []

abbrev changed : Session ℕ
changed = record { data_ = (codes "a", text (codes "a")) ∷ []; dirty = true }

abbrev encrypted : Text
encrypted = encode std_encoding (nonce ++ codes "a") ++ 10 ∷ []

load-session_cookie_example :
    (c : Cookie) × (session_cookie plain json hex_key cfg nonce changed ≡ some c)
    × (load plain json hex_key cfg (some c.value) ≡ record changed { dirty = false })
unfolding new_gcm codes encrypt encode trim_space new_config
load-session_cookie_example =
    load-session_cookie plain json hex_key cfg plain-IsAead nonce key changed (codes "a") encrypted
      refl refl nonce-IsBytes (ground arith) refl refl refl refl refl refl

abbrev writer : CommitWriter
writer = record { cookies = []; status = none; body = []; committed = false }

abbrev events : List (Event ℕ)
events =
    changes (sets (codes "a") (text (codes "a")))
    ∷ writes nonce (codes "ok")
    ∷ changes clears
    ∷ writes key (codes "!")
    ∷ []

handle_cookies_example :
    (handle plain json hex_key cfg events empty writer).cookies
    ≡ cookies_at_first_write plain json hex_key cfg events empty []
handle_cookies_example = handle_cookies plain json hex_key cfg events empty writer refl

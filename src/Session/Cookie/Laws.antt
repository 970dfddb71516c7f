-- ===== src/Session/Cookie/Laws.antt =====
-- The cookie is set once, from the session as it was at the response's first byte, and read back by
-- the next request.
use trails.Base.{
  ℕ, ◌≡◌, ◌∙◌, refl, true, false, some, List, [], ◌∷◌, arith, if◌then◌else◌, Text, length, pos,
  ltb_ℤ,
}
use trails.Web.Header.{trim_space}
use trails.Web.Base64.Laws.{IsBytes}
use trails.Credentials.{Aead, new_gcm, nonce_size, encrypt, decrypt}
use trails.Credentials.Laws.{IsAead, decrypt-encrypt}
use trails.Session.{Session, is_empty}
use trails.Session.Laws.{Change, step}
use trails.Session.Cookie.{
  Config, Cookie, Json, CommitWriter, load, persist, session_cookie, commit_once, write_header,
  write, cookie_of,
}

-- What a handler does, one call after another; a write draws a nonce.
pub data Event (J : Type 0) : Type 0 where
  changes : Change J → Event J
  writes_header : List ℕ → ℕ → Event J
  writes : List ℕ → Text → Event J

module _ (A : Aead) {J : Type 0} (json : Json J) (secret_key_base : Text) (cfg : Config) where
  unfoldable pub handle : List (Event J) → Session J → CommitWriter → CommitWriter
  handle [] sess w = w
  handle (changes c ∷ es) sess w = handle es (step sess c) w
  handle (writes_header nonce code ∷ es) sess w =
      handle es sess (write_header A json secret_key_base cfg nonce sess code w)
  handle (writes nonce bytes ∷ es) sess w =
      handle es sess (write A json secret_key_base cfg nonce sess bytes w)

  -- The cookies after the first write, from the session as it is there.
  abbrev pub cookies_at_first_write : List (Event J) → Session J → List Cookie → List Cookie
  cookies_at_first_write [] sess cookies = cookies
  cookies_at_first_write (changes c ∷ es) sess cookies =
      cookies_at_first_write es (step sess c) cookies
  cookies_at_first_write (writes_header nonce code ∷ es) sess cookies =
      persist A json secret_key_base cfg nonce sess cookies
  cookies_at_first_write (writes nonce bytes ∷ es) sess cookies =
      persist A json secret_key_base cfg nonce sess cookies

  -- A write leaves the writer committed, and its cookies are those of the commit.
  write_header_commits :
      (nonce : List ℕ) (sess : Session J) (code : ℕ) (w : CommitWriter)
      → let w' = write_header A json secret_key_base cfg nonce sess code w in
        (w'.committed ≡ true)
        × (w'.cookies ≡ (
            if w.committed
            then w.cookies
            else persist A json secret_key_base cfg nonce sess w.cookies))
  unfolding write_header commit_once
  write_header_commits nonce sess code w = (ground arith, ground arith)

  write_commits :
      (nonce : List ℕ) (sess : Session J) (bytes : Text) (w : CommitWriter)
      → let w' = write A json secret_key_base cfg nonce sess bytes w in
        (w'.committed ≡ true)
        × (w'.cookies ≡ (
            if w.committed
            then w.cookies
            else persist A json secret_key_base cfg nonce sess w.cookies))
  unfolding write commit_once
  write_commits nonce sess bytes w = (ground arith, ground arith)

  handle_committed :
      (es : List (Event J)) (sess : Session J) (w : CommitWriter)
      → w.committed ≡ true
      → (handle es sess w).cookies ≡ w.cookies
  unfolding handle
  handle_committed [] sess w h = refl
  handle_committed (changes c ∷ es) sess w h = handle_committed es (step sess c) w h
  handle_committed (writes_header nonce code ∷ es) sess w h =
      let (c, q) = write_header_commits nonce sess code w in
      handle_committed es sess (write_header A json secret_key_base cfg nonce sess code w) c
      ∙ ground (arith, q, h)
  handle_committed (writes nonce bytes ∷ es) sess w h =
      let (c, q) = write_commits nonce sess bytes w in
      handle_committed es sess (write A json secret_key_base cfg nonce sess bytes w) c
      ∙ ground (arith, q, h)

  -- Of a response that is not committed yet, after any sequence of changes and writes, the
  -- cookies are those of the session as it was at the first write; what follows sets none.
  pub handle_cookies :
      (es : List (Event J)) (sess : Session J) (w : CommitWriter)
      → w.committed ≡ false
      → (handle es sess w).cookies ≡ cookies_at_first_write es sess w.cookies
  unfolding handle
  handle_cookies [] sess w h = refl
  handle_cookies (changes c ∷ es) sess w h = handle_cookies es (step sess c) w h
  handle_cookies (writes_header nonce code ∷ es) sess w h =
      let (c, q) = write_header_commits nonce sess code w in
      handle_committed es sess (write_header A json secret_key_base cfg nonce sess code w) c
      ∙ ground (arith, q, h)
  handle_cookies (writes nonce bytes ∷ es) sess w h =
      let (c, q) = write_commits nonce sess bytes w in
      handle_committed es sess (write A json secret_key_base cfg nonce sess bytes w) c
      ∙ ground (arith, q, h)

  -- Under a valid key, with a cipher that opens what it sealed and JSON that reads this data
  -- back: a changed session that is not empty and fits its cookie is set as one cookie, and a
  -- request that brings this cookie back loads the same data, with no change to be saved.
  pub load-session_cookie :
      (law : IsAead A) (nonce key : List ℕ) (sess : Session J) (plaintext encrypted : Text)
      → new_gcm secret_key_base ≡ some key
      → length nonce ≡ nonce_size
      → IsBytes nonce
      → IsBytes plaintext
      → sess.dirty ≡ true
      → is_empty sess ≡ false
      → json.marshal sess.data_ ≡ some plaintext
      → json.unmarshal plaintext ≡ some sess.data_
      → encrypt A secret_key_base nonce plaintext ≡ some encrypted
      → ltb_ℤ cfg.max_cookie_bytes (pos (length (trim_space encrypted))) ≡ false
      → (c : Cookie) × (session_cookie A json secret_key_base cfg nonce sess ≡ some c)
        × (load A json secret_key_base cfg (some c.value) ≡ record sess { dirty = false })
  unfolding session_cookie load
  load-session_cookie law nonce key sess plaintext encrypted k n b p dirty full m u e small =
      let (c, e', d, d') = decrypt-encrypt A law secret_key_base key nonce plaintext k n b p in
      let same : c ≡ encrypted = ground (arith, e, e') in
      let read : decrypt A secret_key_base (trim_space encrypted) ≡ some plaintext =
        rw (← same) d' in
      (
        cookie_of A json secret_key_base cfg (trim_space encrypted),
        ground (arith, dirty, full, m, e, small),
        ground (arith, read, u),
      )

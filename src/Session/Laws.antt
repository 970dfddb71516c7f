-- ===== src/Session/Laws.antt =====
-- What a session's methods promise, and that its token stays.
use trails.Base.{
  ℕ, ◌≡◌, ◌∙◌, ◌⊎◌, refl, true, false, some, List, [], ◌∷◌, arith, Text, lookup-insert, length,
  ===_refl, Option-cases, inl, inr,
}
use trails.Web.Base64.{std_encoding, encode}
use trails.Web.Base64.Laws.{IsBytes, decode-encode, std_encoding-IsAlphabet}
use trails.Session.{
  Session, Value, text, get, set, delete, clear, csrf_token, stored_token, csrf_token_key,
  csrf_token_len,
}

module _ {J : Type 0} where
  stored_token-stored :
      (fresh : List ℕ) (s : Session J)
      → IsBytes fresh
      → length fresh ≡ csrf_token_len
      → stored_token (set csrf_token_key (text (encode std_encoding fresh)) s) ≡ some fresh
  unfolding stored_token get set
  stored_token-stored fresh s b n = ground (
    arith,
    lookup-insert csrf_token_key csrf_token_key (text (encode std_encoding fresh)) s.data_,
    ===_refl csrf_token_key,
    decode-encode std_encoding std_encoding-IsAlphabet fresh b,
    n,
  )

  pub csrf_token_stored :
      (fresh token : List ℕ) (s : Session J)
      → stored_token s ≡ some token
      → csrf_token fresh s ≡ (s, token)
  unfolding csrf_token
  csrf_token_stored fresh token s e = ground (arith, e)

  -- Where 32 random bytes are at hand, a request's token is settled once: a later call returns
  -- the same token and changes nothing, whatever random bytes it would draw, and the stored token
  -- is that one.
  pub csrf_token_stays :
      (fresh again : List ℕ) (s : Session J)
      → IsBytes fresh
      → length fresh ≡ csrf_token_len
      → (csrf_token again (csrf_token fresh s).0 ≡ ((csrf_token fresh s).0, (csrf_token fresh s).1))
        × (stored_token (csrf_token fresh s).0 ≡ some (csrf_token fresh s).1)
  unfolding csrf_token
  csrf_token_stays fresh again s b n = elim (Option-cases (stored_token s)) [
    | inr (token, e) ↦ (ground (arith, e), ground (arith, e))
    | inl e ↦
        let kept = stored_token-stored fresh s b n in
        (ground (arith, e, kept), ground (arith, e, kept))
  ]

-- A call of a method.
pub data Change (J : Type 0) : Type 0 where
  sets : Text → Value J → Change J
  deletes : Text → Change J
  clears : Change J

module _ {J : Type 0} where
  unfoldable pub step : Session J → Change J → Session J
  step s (sets key val) = set key val s
  step s (deletes key) = delete key s
  step s clears = clear s

  unfoldable pub run : List (Change J) → Session J → Session J
  unfolding step
  run [] s = s
  run (c ∷ cs) s = run cs (step s c)

  step_dirty : (c : Change J) (s : Session J) → s.dirty ≡ true → (step s c).dirty ≡ true
  unfolding step set delete clear
  step_dirty (sets key val) s h = refl
  step_dirty (deletes key) s h = ground (arith, h)
  step_dirty clears s h = ground (arith, h)

  -- A change leaves the session dirty, or as it was.
  step_clean : (c : Change J) (s : Session J) → ((step s c).dirty ≡ true) ⊎ (step s c ≡ s)
  unfolding step set delete clear
  step_clean (sets key val) s = inl refl
  step_clean (deletes key) s = ground arith
  step_clean clears s = ground arith

  run_dirty : (cs : List (Change J)) (s : Session J) → s.dirty ≡ true → (run cs s).dirty ≡ true
  unfolding run
  run_dirty [] s h = h
  run_dirty (c ∷ cs) s h = run_dirty cs (step s c) (step_dirty c s h)

  -- A session that is not dirty after any sequence of Set, Delete and Clear is the session that
  -- it was before.
  pub run_clean : (cs : List (Change J)) (s : Session J) → (run cs s).dirty ≡ false → run cs s ≡ s
  unfolding run
  run_clean [] s h = refl
  run_clean (c ∷ cs) s h = elim (step_clean c s) [
    | inl d ↦ absurd (ground (arith, h, run_dirty cs (step s c) d))
    | inr e ↦ run_clean cs (step s c) h ∙ e
  ]

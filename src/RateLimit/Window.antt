-- ===== src/RateLimit/Window.antt =====
-- One window of one key, over any store that keeps the contract.
use trails.Base.{
  ◌-◌, ◌≢◌, ltb, ltb→lt, inl, inr, Result-cases, ℕ, zero, suc, ◌+◌, ◌≤◌, ◌<◌, ◌^◌, ◌≡◌, refl, sym,
  ap, ap₂, ◌∙◌, Bool, true, false, Option, none, some, List, [], ◌∷◌, arith, Text, ◌===◌, ===_iff,
  ===_refl, if◌then◌else◌, ℤ, pos, leb_ℤ, add_int64, length, Result, ok, err, Bool-cases,
}
use trails.Base.Decimal.{format_int, parse_int-format_int}
use trails.Cache.Store.{Store, Contract, Entry, unless_expired, expiry}
use trails.Web.Context.{Context, Handler, Failure}
use trails.RateLimit.{Config, build_key, middleware}

-- A request, with the two readings of the clock.
pub record Visit : Type 0 where
  pub context : Context
  pub now : ℕ
  pub later : ℕ

abbrev pub is_ok {ℓ κ} : {E : Type ℓ} {A : Type κ} → Result E A → Bool
is_ok (ok a) = true
is_ok (err e) = false

-- The first `budget` of `visits` pass.
abbrev pub admits : ℕ → ℕ → List Bool
admits budget zero = []
admits zero (suc visits) = false ∷ admits zero visits
admits (suc budget) (suc visits) = true ∷ admits budget visits

-- The clock does not run back, and stays within the window.
abbrev pub Within : ℕ → ℕ → List Visit → Type 0
Within start end [] = Unit {0}
Within start end (v ∷ vs) = (start ≤ v.now) × (v.now ≤ end) × Within v.now end vs

add_one_int64 : (n : ℕ) → n + 1 < 2 ^ 63 → add_int64 (pos n) (pos 1) ≡ pos (n + 1)
unfolding add_int64
add_one_int64 n h = ground arith

admits-step :
    (limit n m : ℕ)
    → admits (limit - n) (suc m) ≡ leb_ℤ (pos (n + 1)) (pos limit) ∷ admits (limit - (n + 1)) m
admits-step limit n m = elim (Bool-cases (ltb n limit)) [
  | inl room ↦
      let e : limit - n ≡ suc (limit - (n + 1)) = omega (arith, ltb→lt n limit room) in
      rw e (ground (arith, room))
  | inr full ↦
      let e : limit - n ≡ 0 = ground arith in
      let e' : limit - (n + 1) ≡ 0 = ground arith in rw (e, e') (ground (arith, full))
]

not_yet :
    (t end : ℕ) (e : Entry) → e.expires_at ≡ some end → t ≤ end → unless_expired t (some e) ≡ some e
not_yet t end e q h = ground arith

module _ (S : Store) (C : Contract S) (describe : S.Failure → Text) where
  open S use {State, increment}
  open C use {live}

  -- A handler that answers every request that it gets.
  abbrev pub accept : Handler (State × Unit {0})
  accept c w = (c, w, ok tt)

  module _ (cfg : Config (State × Unit {0})) (limit : ℕ) where
    abbrev pub key_of : Visit → Text
    key_of v = build_key cfg v.context

    abbrev pub answer : Visit → State → Context × (State × Unit {0}) × Result Failure (Unit {0})
    answer v s = middleware S describe (pos limit) cfg v.now v.later accept v.context (s, tt)

    -- Which of the visits to k pass, among visits to any keys.
    pub admissions : Text → List Visit → State → List Bool
    admissions k [] s = []
    admissions k (v ∷ vs) s =
        let (c, (s', w), r) = answer v s in
        let rest = admissions k vs s' in if key_of v === k then is_ok r ∷ rest else rest

    abbrev pub visits_to : Text → List Visit → ℕ
    visits_to k [] = 0
    visits_to k (v ∷ vs) = if key_of v === k then suc (visits_to k vs) else visits_to k vs

    -- From `start` to the window's end the store shows n visits to k.
    abbrev Counted : Text → ℕ → ℕ → State → ℕ → Type 0
    Counted k start end s n =
        (t : ℕ)
        → start ≤ t
        → t ≤ end
        → live s t k ≡ some (record { value = format_int (pos n); expires_at = some end })

    -- The store and the answer after a visit, in terms of the store's `increment`.
    state_after :
        (v : Visit) (s : State)
        → cfg.on_limited ≡ none
        → (answer v s).1.0 ≡ (increment (key_of v) (pos 1) cfg.period v.now s).0
    unfolding middleware
    state_after v s q = ground arith

    answer_ok :
        (v : Visit) (s : State) (n : ℕ) (x : Option ℕ)
        → cfg.on_limited ≡ none
        → (increment (key_of v) (pos 1) cfg.period v.now s).1 ≡ ok (pos n, x)
        → is_ok (answer v s).2 ≡ leb_ℤ (pos n) (pos limit)
    unfolding middleware
    answer_ok v s n x q h = ground arith

    module _ (k : Text) (start end n : ℕ) (s : State) (counted : Counted k start end s n)
        (v : Visit) (after : start ≤ v.now) (before : v.now ≤ end) where
      abbrev next_state : State
      next_state = (increment (key_of v) (pos 1) cfg.period v.now s).0

      -- A visit to k within the window is counted, and leaves the window's end where it was.
      counts :
          key_of v ≡ k
          → n + 1 < 2 ^ 63
          → (increment (key_of v) (pos 1) cfg.period v.now s).1 ≡ ok (pos (n + 1), some end)
      counts e h = rw e (
          C.increment_counter k (pos 1) cfg.period v.now s _ (pos n) (counted v.now after before)
            (parse_int-format_int (pos n) (record { upper = omega arith; lower = omega arith }))
          ∙ ap (λ (a : ℤ). ok (a, some end)) (add_one_int64 n h))

      Counted-hit : key_of v ≡ k → n + 1 < 2 ^ 63 → Counted k v.now end next_state (n + 1)
      Counted-hit e h t lo hi = ground (
        arith,
        ===_iff (key_of v) k,
        C.increment_sets (key_of v) (pos 1) cfg.period v.now s (pos (n + 1)) (some end) t k
            (counts e h) lo,
      )

      -- A visit to another key leaves the count alone, whatever the store answers.
      Counted-miss : key_of v ≢ k → Counted k v.now end next_state n
      Counted-miss ne t lo hi =
          elim (Result-cases (increment (key_of v) (pos 1) cfg.period v.now s).1) [
            | inl ((m, x), e) ↦ ground (
              arith,
              ===_iff (key_of v) k,
              C.increment_sets (key_of v) (pos 1) cfg.period v.now s m x t k e lo,
              counted t (omega arith) hi,
            )
            | inr (f, e) ↦
                C.increment_fails (key_of v) (pos 1) cfg.period v.now s f t k e
                ∙ counted t (omega arith) hi
          ]

    -- Once n visits are counted, the next `limit - n` pass, and no others until the window ends.
    admissions-Counted :
        (k : Text) (start end n : ℕ) (vs : List Visit) (s : State)
        → cfg.on_limited ≡ none
        → Counted k start end s n
        → Within start end vs
        → n + length vs < 2 ^ 63
        → admissions k vs s ≡ admits (limit - n) (visits_to k vs)
    unfolding admissions
    admissions-Counted k start end n [] s q c w h = refl
    admissions-Counted k start end n (v ∷ vs) s q c (lo, hi, w) h =
        elim (Bool-cases (key_of v === k)) [
          | inl hit ↦
              let e : key_of v ≡ k = (===_iff (key_of v) k).0 hit in
              let c' = Counted-hit k start end n s c v lo hi e (omega arith) in
              let rest = admissions-Counted k v.now end (n + 1) vs _ q c' w (omega arith) in
              rw hit (
                ap₂ ◌∷◌
                  (answer_ok v s (n + 1) (some end) q
                    (counts k start end n s c v lo hi e (omega arith)))
                  (ap (admissions k vs) (state_after v s q) ∙ rest)
                ∙ sym (admits-step limit n (visits_to k vs)))
          | inr miss ↦
              let c' =
                Counted-miss k start end n s c v lo hi
                  (λ e. ground (arith, ===_iff (key_of v) k)) in
              let rest = admissions-Counted k v.now end n vs _ q c' w (omega arith) in
              rw miss (ap (admissions k vs) (state_after v s q) ∙ rest)
        ]

    -- The first visit to a key with no count opens a window of one period.
    Counted-first :
        (v : Visit) (s : State) (period : ℕ)
        → cfg.period ≡ pos period
        → 0 < period
        → live s v.now (key_of v) ≡ none
        → ((increment (key_of v) (pos 1) cfg.period v.now s).1 ≡ ok (pos 1, some (v.now + period)))
          × Counted
              (key_of v)
              v.now
              (v.now + period)
              (increment (key_of v) (pos 1) cfg.period v.now s).0
              1
    Counted-first v s period p pos' fresh =
        let e : expiry cfg.period v.now ≡ some (v.now + period) = ground arith in
        let first = C.increment_fresh (key_of v) (pos 1) cfg.period v.now s fresh in
        let first' = first ∙ ap (λ (x : Option ℕ). ok (pos 1, x)) e in
        (
          first',
          λ t lo hi. ground (
            arith,
            ===_iff (key_of v) (key_of v),
            C.increment_sets (key_of v) (pos 1) cfg.period v.now s (pos 1) (some (v.now + period)) t
                (key_of v) first' lo,
          ),
        )

    -- Over a store that keeps the contract, with the built-in answer and a positive period: of
    -- the visits to a key from one at which it has no live count until the period is over,
    -- exactly the first `limit` pass, however many visits to other keys come between. The clock
    -- does not run back, and the visits are fewer than 2^63.
    pub window_admits :
        (v : Visit) (vs : List Visit) (s : State) (period : ℕ)
        → cfg.on_limited ≡ none
        → cfg.period ≡ pos period
        → 0 < period
        → live s v.now (key_of v) ≡ none
        → Within v.now (v.now + period) vs
        → length vs + 1 < 2 ^ 63
        → admissions (key_of v) (v ∷ vs) s ≡ admits limit (suc (visits_to (key_of v) vs))
    unfolding admissions
    window_admits v vs s period q p pos' fresh w h =
        let (first, c) = Counted-first v s period p pos' fresh in
        let k = key_of v in
        rw (===_refl k) (
          ap₂ ◌∷◌ (answer_ok v s 1 (some (v.now + period)) q first) (
            ap (admissions k vs) (state_after v s q)
            ∙ admissions-Counted k v.now (v.now + period) 1 vs _ q c w (omega arith))
          ∙ sym (admits-step limit 0 (visits_to k vs))
          ∙ ap (λ (b : ℕ). admits b (suc (visits_to k vs))) (omega arith))

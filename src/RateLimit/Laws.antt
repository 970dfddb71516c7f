-- ===== src/RateLimit/Laws.antt =====
-- The three outcomes of one request, and what a client over its limit is told.
use trails.Base.{
  ◌⊎◌, inl, inr, Result-cases, Bool-cases, ℕ, ◌/◌, ◌^◌, ◌≡◌, refl, true, false, Option, none, arith,
  Text, codes, ℤ, pos, leb_ℤ, Result, ok, err, ◌===◌,
}
use trails.Base.Decimal.{format_int}
use trails.Cache.Store.{Store}
use trails.Web.Header.{get, canonical}
use trails.Web.Header.Laws.{same_name, get-set}
use trails.Web.Context.{Context, Handler, Failure, http_error, rate_exceeded, other}
use trails.RateLimit.{Config, build_key, middleware, until}

retry_after_name : same_name (codes "Retry-After") (codes "Retry-After") ≡ true
unfolding codes canonical ◌===◌
retry_after_name = refl

module _ (S : Store) {W : Type 0} (describe : S.Failure → Text) (limit : ℤ)
    (cfg : Config (S.State × W)) (now later : ℕ) (next : Handler (S.State × W)) (c : Context)
    (s : S.State) (w : W) where
  abbrev counting : S.State × Result S.Failure (ℤ × Option ℕ)
  counting = S.increment (build_key cfg c) (pos 1) cfg.period now s

  abbrev outcome : Context × (S.State × W) × Result Failure (Unit {0})
  outcome = middleware S describe limit cfg now later next c (s, w)

  -- If the store fails, the request fails with the store's error and nothing else happens.
  store_failure :
      (e : S.Failure)
      → counting.1 ≡ err e
      → outcome ≡ (c, (counting.0, w), err (other (describe e)))
  unfolding middleware
  store_failure e h = ground arith

  -- A request within its limit runs the handlers behind, after the count.
  within_limit :
      (n : ℤ) (x : Option ℕ)
      → counting.1 ≡ ok (n, x)
      → leb_ℤ n limit ≡ true
      → outcome ≡ next c (counting.0, w)
  unfolding middleware
  within_limit n x h l = ground arith

  -- A request over its limit, with the built-in answer, is refused with 429 and told to wait for the
  -- whole seconds left in the window; the handlers behind do not run.
  over_limit :
      (n : ℤ) (x : Option ℕ)
      → cfg.on_limited ≡ none
      → counting.1 ≡ ok (n, x)
      → leb_ℤ n limit ≡ false
      → (outcome.1 ≡ (counting.0, w))
        × (outcome.2 ≡ err (http_error 429 (rate_exceeded limit cfg.period)))
        × (get (codes "Retry-After") outcome.0.header ≡ format_int (pos (until x later / 10 ^ 9)))
  unfolding middleware
  over_limit n x q h l = (
    ground arith,
    ground arith,
    ground (
      arith,
      get-set (codes "Retry-After") (codes "Retry-After")
          (format_int (pos (until x later / 10 ^ 9))) c.header,
      retry_after_name,
    ),
  )

  -- The store fails; or its count is within the limit; or it is over the limit.
  abbrev pub Outcomes : Type 0
  Outcomes =
      ((e : S.Failure) × (counting.1 ≡ err e)
        × (outcome ≡ (c, (counting.0, w), err (other (describe e)))))
      ⊎ ((n : ℤ) × (x : Option ℕ) × (counting.1 ≡ ok (n, x))
          × (((leb_ℤ n limit ≡ true) × (outcome ≡ next c (counting.0, w)))
              ⊎ ((leb_ℤ n limit ≡ false)
                  × (outcome.1 ≡ (counting.0, w))
                  × (outcome.2 ≡ err (http_error 429 (rate_exceeded limit cfg.period)))
                  × (get (codes "Retry-After") outcome.0.header
                      ≡ format_int (pos (until x later / 10 ^ 9))))))

  -- A request, with the built-in answer, ends in one of three ways: the store fails, and so does the
  -- request, with the store's error; or its count is within the limit, and the handlers behind run;
  -- or its count is over the limit, they do not run, and it is refused with 429 and told to wait for
  -- the whole seconds left in the window.
  pub middleware_outcomes : cfg.on_limited ≡ none → Outcomes
  middleware_outcomes q = elim (Result-cases counting.1) [
    | inr (e, h) ↦ inl (e, h, store_failure e h)
    | inl ((n, x), h) ↦ elim (Bool-cases (leb_ℤ n limit)) [
      | inl l ↦ inr (n, x, h, inl (l, within_limit n x h l))
      | inr l ↦ let (a, b, g) = over_limit n x q h l in inr (n, x, h, inr (l, a, b, g))
    ]
  ]

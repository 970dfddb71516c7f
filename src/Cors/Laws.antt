-- ===== src/Cors/Laws.antt =====
-- Which origins are granted access, and with what.
use trails.Base.{
  ◌≡◌, ◌≢◌, ◌<◌, ◌⊎◌, inl, inr, true, false, none, some, [], arith, Text, codes, ===_iff, length,
  ok, Bool-cases,
}
use trails.Web.Header.{Header, get, contains}
use trails.Web.Context.{Context, Handler, write_header}
use trails.Cors.{
  Config, match_origin, allow_origin_value, is_preflight, add_vary, grant_actual, preflight,
  middleware,
}
use trails.Cors.Grants.{
  allow_origin, allow_credentials, as_is, credentials_after, add_vary-Grants,
  grant_preflight-Grants, grant_actual-Grants,
}

-- Which value is sent: the wildcard only without credentials and with every origin allowed, and
-- otherwise the request's own origin, which is allowed.
abbrev pub Sends : Config → Text → Text → Type 0
Sends cfg origin v =
    ((v ≡ codes "*") × (cfg.allow_any_origin ≡ true) × (cfg.allow_credentials ≡ false))
    ⊎ ((v ≡ origin)
        × (origin ≢ [])
        × ((cfg.allow_any_origin ≡ true) ⊎ (contains origin cfg.allowed_origins ≡ true)))

allow_origin_value-Sends :
    (cfg : Config) (origin : Text)
    → match_origin cfg origin ≡ true
    → Sends cfg origin (allow_origin_value cfg origin)
unfolding match_origin allow_origin_value
allow_origin_value-Sends cfg origin m = ground (arith, ===_iff origin [])

Sends-eq :
    (cfg : Config) (origin : Text) {u v : Text} → u ≡ v → Sends cfg origin v → Sends cfg origin u
Sends-eq cfg origin e s = rw e s

abbrev pub request_origin : Context → Text
request_origin c = get (codes "Origin") c.request.header

-- What a preflight request comes to.
abbrev pub IsAnswered : {W : Type 0} → Config → Handler W → Context → W → Type 0
IsAnswered cfg next c w =
    (c' : Context) × (middleware cfg next c w ≡ (c', w, ok tt))
    × (c'.status ≡ some 204)
    × (((match_origin cfg (request_origin c) ≡ true)
          × Sends cfg (request_origin c) (get allow_origin c'.header)
          × (get allow_credentials c'.header ≡ credentials_after cfg c.header))
        ⊎ ((match_origin cfg (request_origin c) ≡ false)
            × (get allow_origin c'.header ≡ get allow_origin c.header)
            × (get allow_credentials c'.header ≡ get allow_credentials c.header)))

-- With origins configured, a preflight request whose response has no status yet is answered 204
-- without running the handlers behind, whatever its origin. Its origin is granted access exactly
-- if it matches; otherwise neither header is touched.
pub preflight_answer :
    {W : Type 0} (cfg : Config) (next : Handler W) (c : Context) (w : W)
    → 0 < length cfg.allowed_origins
    → is_preflight c.request ≡ true
    → c.status ≡ none
    → IsAnswered cfg next c w
unfolding middleware preflight write_header
preflight_answer cfg next c w on pre fresh =
    let origin = request_origin c in
    let before = add_vary-Grants (as_is c.header) in
    let g = grant_preflight-Grants cfg c.request origin (add_vary c.header) in
    (
      preflight cfg origin c,
      ground arith,
      ground arith,
      elim (Bool-cases (match_origin cfg origin)) [
        | inl m ↦ inl (
          m,
          Sends-eq cfg origin (ground (arith, g, m)) (allow_origin_value-Sends cfg origin m),
          ground (arith, g, m, before),
        )
        | inr n ↦ inr (n, ground (arith, n, before), ground (arith, n, before))
      ],
    )

-- What any other request comes to.
abbrev pub PassesOn : {W : Type 0} → Config → Handler W → Context → W → Type 0
PassesOn cfg next c w =
    ((match_origin cfg (request_origin c) ≡ false) × (middleware cfg next c w ≡ next c w))
    ⊎ ((match_origin cfg (request_origin c) ≡ true)
        × ((h : Header) × (middleware cfg next c w ≡ next (record c { header = h }) w)
            × Sends cfg (request_origin c) (get allow_origin h)
            × (get allow_credentials h ≡ credentials_after cfg c.header)))

-- With origins configured, any request but a preflight runs the handlers behind, with the two
-- headers set if its origin matches and with the context as it was if it does not.
pub actual_request :
    {W : Type 0} (cfg : Config) (next : Handler W) (c : Context) (w : W)
    → 0 < length cfg.allowed_origins
    → is_preflight c.request ≡ false
    → PassesOn cfg next c w
unfolding middleware
actual_request cfg next c w on pre =
    let origin = request_origin c in
    let g = grant_actual-Grants cfg origin c.header in
    elim (Bool-cases (match_origin cfg origin)) [
      | inl m ↦ inr (
        m,
        (
          grant_actual cfg origin c.header,
          ground (arith, m),
          Sends-eq cfg origin g.origin_is (allow_origin_value-Sends cfg origin m),
          g.credentials_is,
        ),
      )
      | inr n ↦ inl (n, ground (arith, n))
    ]

-- With no origins configured the middleware is no middleware at all.
pub unconfigured :
    {W : Type 0} (cfg : Config) (next : Handler W) (c : Context) (w : W)
    → cfg.allowed_origins ≡ []
    → middleware cfg next c w ≡ next c w
unfolding middleware
unconfigured cfg next c w e = ground arith

-- ===== src/Cors.antt =====
-- cors/cors.go: cross-origin headers on responses, and the answer to preflight requests.
pub mod Grants
pub mod Laws
mod Tests
use trails.Base.{
  ℕ, ◌/◌, ◌^◌, Bool, true, false, ◌&&◌, not, List, [], ◌∷◌, if◌then◌else◌, Text, codes, ◌===◌,
  length, ltb, ℤ, pos, ltb_ℤ, pos_part, Result, ok, err,
}
use trails.Base.Decimal.{format_int}
use trails.Web.Header.{Header, get, set, add, join, contains}
use trails.Web.Context.{Context, Request, Handler, MiddlewareFunc, write_header}

pub record Config : Type 0 where
  pub allowed_origins : List Text
  pub allow_any_origin : Bool
  pub allowed_methods : List Text
  pub allowed_headers : List Text
  pub allow_any_header : Bool
  pub exposed_headers : List Text
  pub allow_credentials : Bool
  pub max_age : ℤ

abbrev pub CorsOption : Type 0
CorsOption = Config → Config

unfoldable pub with_allowed_origins : List Text → CorsOption
with_allowed_origins origins c = record c {
  allowed_origins = origins;
  allow_any_origin = contains (codes "*") origins;
}

unfoldable pub with_allowed_methods : List Text → CorsOption
with_allowed_methods methods c = record c { allowed_methods = methods }

unfoldable pub with_allowed_headers : List Text → CorsOption
with_allowed_headers headers c = record c {
  allowed_headers = headers;
  allow_any_header = contains (codes "*") headers;
}

unfoldable pub with_exposed_headers : List Text → CorsOption
with_exposed_headers headers c = record c { exposed_headers = headers }

unfoldable pub with_allow_credentials : Bool → CorsOption
with_allow_credentials b c = record c { allow_credentials = b }

unfoldable pub with_max_age : ℤ → CorsOption
with_max_age d c = record c { max_age = d }

abbrev pub default_allowed_methods : List Text
default_allowed_methods =
    codes "GET"
    ∷ codes "HEAD"
    ∷ codes "POST"
    ∷ codes "PUT"
    ∷ codes "PATCH"
    ∷ codes "DELETE"
    ∷ codes "OPTIONS"
    ∷ []

abbrev pub default_allowed_headers : List Text
default_allowed_headers = codes "Accept" ∷ codes "Content-Type" ∷ codes "Authorization" ∷ []

apply_options : List CorsOption → Config → Config
apply_options [] c = c
apply_options (opt ∷ opts) c = apply_options opts (opt c)

unfoldable pub new_config : List CorsOption → Config
unfolding apply_options
new_config opts = apply_options opts (record {
  allowed_origins = [];
  allow_any_origin = false;
  allowed_methods = default_allowed_methods;
  allowed_headers = default_allowed_headers;
  allow_any_header = false;
  exposed_headers = [];
  allow_credentials = false;
  max_age = pos 0;
})

unfoldable pub match_origin : Config → Text → Bool
match_origin cfg origin =
    if origin === []
    then false
    else if cfg.allow_any_origin
    then true
    else contains origin cfg.allowed_origins

unfoldable pub allow_origin_value : Config → Text → Text
allow_origin_value cfg origin =
    if cfg.allow_any_origin && not cfg.allow_credentials then codes "*" else origin

unfoldable pub is_preflight : Request → Bool
is_preflight r =
    r.method === codes "OPTIONS"
    && not (get (codes "Access-Control-Request-Method") r.header === [])

pub add_vary : Header → Header
add_vary h = add (codes "Vary") (codes "Access-Control-Request-Headers") (
    add (codes "Vary") (codes "Access-Control-Request-Method")
      (add (codes "Vary") (codes "Origin") h))

pub set_credentials : Config → Header → Header
set_credentials cfg h =
    if cfg.allow_credentials
    then set (codes "Access-Control-Allow-Credentials") (codes "true") h
    else h

pub set_allow_headers : Config → Request → Header → Header
set_allow_headers cfg r h =
    let requested = get (codes "Access-Control-Request-Headers") r.header in
    let name = codes "Access-Control-Allow-Headers" in
    if cfg.allow_any_header
    then if requested === [] then h else set name requested h
    else set name (join (codes ", ") cfg.allowed_headers) h

pub set_max_age : Config → Header → Header
set_max_age cfg h =
    if ltb_ℤ (pos 0) cfg.max_age
    then set (codes "Access-Control-Max-Age") (format_int (pos (pos_part cfg.max_age / 10 ^ 9))) h
    else h

-- The headers that a preflight request of a matching origin gets, in the order of the code.
pub grant_preflight : Config → Request → Text → Header → Header
unfolding set_credentials set_allow_headers set_max_age
grant_preflight cfg r origin h =
    let h1 = set (codes "Access-Control-Allow-Origin") (allow_origin_value cfg origin) h in
    let h2 = set_credentials cfg h1 in
    let h3 =
      set (codes "Access-Control-Allow-Methods") (join (codes ", ") cfg.allowed_methods) h2 in
    set_max_age cfg (set_allow_headers cfg r h3)

-- The headers that any other request of a matching origin gets.
pub grant_actual : Config → Text → Header → Header
unfolding set_credentials
grant_actual cfg origin h =
    let h1 = add (codes "Vary") (codes "Origin") h in
    let h2 = set (codes "Access-Control-Allow-Origin") (allow_origin_value cfg origin) h1 in
    let h3 = set_credentials cfg h2 in
    if ltb 0 (length cfg.exposed_headers)
    then set (codes "Access-Control-Expose-Headers") (join (codes ", ") cfg.exposed_headers) h3
    else h3

pub preflight_handler : {W : Type 0} → Handler W
preflight_handler c w = (c, w, ok tt)

pub preflight : Config → Text → Context → Context
preflight cfg origin c =
    let h = add_vary c.header in
    let granted = if match_origin cfg origin then grant_preflight cfg c.request origin h else h in
    write_header 204 (record c { header = granted })

-- The handler that the middleware returns, for the configuration that its options made.
pub middleware : {W : Type 0} → Config → MiddlewareFunc W
unfolding preflight
middleware cfg next c w =
    let origin = get (codes "Origin") c.request.header in
    let actual = next (record c { header = grant_actual cfg origin c.header }) w in
    if ltb 0 (length cfg.allowed_origins)
    then if is_preflight c.request
      then (preflight cfg origin c, w, ok tt)
      else if match_origin cfg origin
      then actual
      else next c w
    else next c w

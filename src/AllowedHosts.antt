-- ===== src/AllowedHosts.antt =====
-- allowedhosts/allowedhosts.go: reject a request whose Host header is not on the list.
pub mod Laws
mod Tests
use trails.Base.{
  Bool, true, false, ◌||◌, Option, none, some, List, [], ◌∷◌, if◌then◌else◌, ◌==◌, Text, codes,
  ◌===◌, drop, length, ltb, Result, ok, err,
}
use trails.Web.Header.{lower, has_suffix, contains}
use trails.Web.Address.{split_host_port}
use trails.Web.Context.{Context, Request, Handler, MiddlewareFunc, http_error, host_not_permitted}

pub record Config : Type 0 where
  pub hosts : List Text
  pub allow_any : Bool

abbrev pub HostOption : Type 0
HostOption = Config → Config

unfoldable pub with_allowed_hosts : List Text → HostOption
with_allowed_hosts hosts c = record c { hosts = hosts; allow_any = contains (codes "*") hosts }

apply_options : List HostOption → Config → Config
apply_options [] c = c
apply_options (opt ∷ opts) c = apply_options opts (opt c)

unfoldable pub new_config : List HostOption → Config
unfolding apply_options
new_config opts = apply_options opts (record { hosts = []; allow_any = false })

unfoldable pub strip_port : Text → Text
strip_port hostport = elim (split_host_port hostport) [ none ↦ hostport | some (host, port) ↦ host ]

abbrev starts_with_dot : Text → Bool
starts_with_dot [] = false
starts_with_dot (c ∷ s) = c == b'.'

-- One round of the loop of `matches`: does the entry h, in lower case, take the host?
matches_entry : Text → Text → Bool
matches_entry host h =
    if starts_with_dot h then host === drop 1 h || has_suffix host h else host === h

matches_loop : Text → List Text → Bool
matches_loop host [] = false
matches_loop host (h ∷ hs) = matches_entry host (lower h) || matches_loop host hs

unfoldable pub matches : Config → Text → Bool
unfolding matches_loop matches_entry
matches cfg host = if cfg.allow_any then true else matches_loop (lower host) cfg.hosts

abbrev pub is_enabled : Config → Bool
is_enabled cfg = ltb 0 (length cfg.hosts)

unfoldable pub middleware : {W : Type 0} → List HostOption → MiddlewareFunc W
middleware opts next c w =
    let cfg = new_config opts in
    let host = strip_port c.request.host in
    if is_enabled cfg
    then if matches cfg host
      then next c w
      else (c, w, err (http_error 400 (host_not_permitted host)))
    else next c w

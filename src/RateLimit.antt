-- ===== src/RateLimit.antt =====
-- ratelimit/ratelimit.go: a fixed-window limit per key, counted by a cache store. The middleware
-- reads the clock twice, through the store's `Increment` and by `time.Until`.
pub mod Window
pub mod Laws
mod Tests
use trails.Base.{
  ℕ, ◌-◌, ◌+◌, ◌/◌, ◌^◌, Bool, true, false, Option, none, some, List, [], ◌∷◌, ◌++◌, if◌then◌else◌,
  Text, codes, ◌===◌, ℤ, pos, leb_ℤ, Result, ok, err,
}
use trails.Base.Decimal.{format_int}
use trails.Cache.Store.{Store}
use trails.Web.Header.{set}
use trails.Web.Address.{split_host_port}
use trails.Web.Context.{
  Context, Request, Handler, MiddlewareFunc, Failure, http_error, rate_exceeded, other,
}

unfoldable pub peer_host : Text → Text
peer_host remote_addr = elim (split_host_port remote_addr) [
  | none ↦ remote_addr
  | some (host, port) ↦ host
]

unfoldable pub identity : Context → Text
unfolding peer_host
identity c = if c.client_ip === [] then peer_host c.request.remote_addr else c.client_ip

unfoldable pub default_key_func : Context → Text
unfolding identity
default_key_func c =
    c.request.method ++ (codes " " ++ (c.request.path ++ (codes " " ++ identity c)))

-- The time left in the window, at `later`; a window that never ends, or has ended, leaves none.
abbrev pub until : Option ℕ → ℕ → ℕ
until none later = 0
until (some t) later = t - later

pub record Config (W : Type 0) : Type 0 where
  pub period : ℤ
  pub key_func : Context → Text
  pub name : Text
  -- Called with the nanoseconds left.
  pub on_limited : Option (ℕ → Handler W)

unfoldable pub build_key : {W : Type 0} → Config W → Context → Text
build_key cfg c =
    let key = cfg.key_func c in if cfg.name === [] then key else cfg.name ++ (codes " " ++ key)

-- Options, over the defaults: a minute, and the default key.
abbrev pub LimitOption : Type 0 → Type 0
LimitOption W = Config W → Config W

module _ {W : Type 0} where
  pub with_period : ℤ → LimitOption W
  with_period d c = record c { period = d }

  pub with_key_func : (Context → Text) → LimitOption W
  with_key_func fn c = record c { key_func = fn }

  pub with_name : Text → LimitOption W
  with_name name c = record c { name = name }

  pub with_on_limited : (ℕ → Handler W) → LimitOption W
  with_on_limited fn c = record c { on_limited = some fn }

  apply_options : List (LimitOption W) → Config W → Config W
  apply_options [] c = c
  apply_options (opt ∷ opts) c = apply_options opts (opt c)

  unfoldable pub new_config : List (LimitOption W) → Config W
  unfolding apply_options
  new_config opts = apply_options opts (record {
    period = pos 60000000000;
    key_func = default_key_func;
    name = [];
    on_limited = none;
  })

module _ (S : Store) {W : Type 0} where
  -- The answer to a client over its limit.
  limited : ℤ → Config (S.State × W) → ℕ → Handler (S.State × W)
  limited limit cfg retry_after = elim cfg.on_limited [
    | none ↦ λ c w. (
      record c {
        header = set (codes "Retry-After") (format_int (pos (retry_after / 10 ^ 9))) c.header;
      },
      w,
      err (http_error 429 (rate_exceeded limit cfg.period)),
    )
    | some on_limited ↦ on_limited retry_after
  ]

  -- The handler's state is the store's and the rest of the program's.
  unfoldable pub middleware :
      (S.Failure → Text) → ℤ → Config (S.State × W) → ℕ → ℕ → MiddlewareFunc (S.State × W)
  unfolding limited
  middleware describe limit cfg now later next c (s, w) =
      let (s', counted) = S.increment (build_key cfg c) (pos 1) cfg.period now s in
      elim counted [
        | err e ↦ (c, (s', w), err (other (describe e)))
        | ok (count, expires_at) ↦
            if leb_ℤ count limit
            then next c (s', w)
            else limited limit cfg (until expires_at later) c (s', w)
      ]

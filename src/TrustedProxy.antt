-- ===== src/TrustedProxy.antt =====
-- trustedproxy/trustedproxy.go: the client's address and scheme, from X-Forwarded-* headers if the
-- peer is a trusted proxy. `net/netip` is a parameter.
pub mod Walk
pub mod Laws
mod Tests
use trails.Base.{
  Bool, true, false, ◌&&◌, ◌||◌, Option, none, some, List, [], ◌∷◌, ◌++◌, if◌then◌else◌, ◌==◌, Text,
  codes, ◌===◌, leb, ℕ, split_comma,
}
use mathlib.Core.List.{reverse}
use trails.Web.Header
use trails.Web.Header.{trim_space}
use trails.Web.Address.{split_host_port, has_byte}
use trails.Web.Context.{Context, Request, Handler, MiddlewareFunc}

-- What the handlers behind the middleware read.
abbrev pub client_ip : Context → Text
client_ip c = c.client_ip

abbrev pub scheme : Context → Text
scheme c = c.scheme

pub is_secure : Context → Bool
is_secure c = scheme c === codes "https"

abbrev pub private_cidrs : List Text
private_cidrs =
    codes "127.0.0.1/8"
    ∷ codes "::1/128"
    ∷ codes "10.0.0.0/8"
    ∷ codes "172.16.0.0/12"
    ∷ codes "192.168.0.0/16"
    ∷ codes "fc00::/7"
    ∷ []

-- net/netip.
pub record Netip : Type 1 where
  pub Addr : Type 0
  pub Prefix : Type 0
  pub parse_addr : Text → Option Addr
  pub parse_prefix : Text → Option Prefix
  -- `PrefixFrom(addr, addr.BitLen())`
  pub prefix_of_addr : Addr → Prefix
  pub contains : Prefix → Addr → Bool
  pub to_text : Addr → Text

unfoldable pub peer_host : Text → Text
peer_host remote_addr = elim (split_host_port remote_addr) [
  | none ↦ remote_addr
  | some (host, port) ↦ host
]

abbrev head_or_empty : List Text → Text
head_or_empty [] = []
head_or_empty (p ∷ ps) = p

-- `strings.Cut(s, ",")` keeps what stands before the first comma.
unfoldable pub first_entry : Text → Text
unfolding split_comma trim_space
first_entry header_value = trim_space (head_or_empty (split_comma header_value))

abbrev not_empty : Text → Bool
not_empty [] = false
not_empty (c ∷ s) = true

abbrev or_else : Text → Option Text → Text
or_else peer none = peer
or_else peer (some resolved) = resolved

module _ (N : Netip) where
  open N use {Addr, Prefix, parse_addr, parse_prefix, prefix_of_addr, to_text}

  pub record Config : Type 0 where
    pub trusted_proxies : List Prefix
    pub assume_ssl : Bool

  abbrev pub ProxyOption : Type 0
  ProxyOption = Config → Option Config

  unfoldable pub read_prefix : Text → Option Prefix
  unfolding has_byte
  read_prefix raw =
      if has_byte b'/' raw
      then parse_prefix raw
      else elim (parse_addr raw) [ none ↦ none | some addr ↦ some (prefix_of_addr addr) ]

  -- `none` is the panic on an entry that does not parse.
  unfoldable pub with_trusted_proxies : List Text → ProxyOption
  with_trusted_proxies [] c = some c
  with_trusted_proxies (raw ∷ cidrs) c = elim (read_prefix raw) [
    | none ↦ none
    | some prefix ↦
        with_trusted_proxies cidrs (record c { trusted_proxies = c.trusted_proxies ++ prefix ∷ [] })
  ]

  unfoldable pub with_assume_ssl : Bool → ProxyOption
  with_assume_ssl assume_ssl c = some (record c { assume_ssl = assume_ssl })

  is_trusted_by : List Prefix → Addr → Bool
  is_trusted_by [] addr = false
  is_trusted_by (p ∷ ps) addr = N.contains p addr || is_trusted_by ps addr

  unfoldable pub is_trusted : Config → Addr → Bool
  unfolding is_trusted_by
  is_trusted cfg addr = is_trusted_by cfg.trusted_proxies addr

  abbrev host_of : Text → Option (Text × Text) → Text
  host_of entry none = entry
  host_of entry (some (host, port)) = host

  unfoldable pub forwarded_addr : Text → Option Addr
  unfolding trim_space
  forwarded_addr entry =
      parse_addr (host_of (trim_space entry) (split_host_port (trim_space entry)))

  -- The loop of `resolveClientIP`, over the parts from the last to the first.
  walk : Config → List Text → Option Text
  walk cfg [] = none
  walk cfg (part ∷ parts) =
      let rest = walk cfg parts in
      elim (forwarded_addr part) [
        | none ↦ none
        | some addr ↦ if is_trusted cfg addr then rest else some (to_text addr)
      ]

  unfoldable pub resolve_client_ip : Config → Text → Option Text
  unfolding walk split_comma
  resolve_client_ip cfg xff = walk cfg (reverse (split_comma xff))

  abbrev is_trusted_peer : Config → Option Addr → Bool
  is_trusted_peer cfg none = false
  is_trusted_peer cfg (some addr) = is_trusted cfg addr

  -- The client's address, for a peer that is trusted or not.
  client_ip_for : Config → Request → Bool → Text
  unfolding resolve_client_ip
  client_ip_for cfg r trusted =
      let xff = Header.get (codes "X-Forwarded-For") r.header in
      let peer = peer_host r.remote_addr in
      if trusted && not_empty xff then or_else peer (resolve_client_ip cfg xff) else peer

  scheme_for : Config → Request → Bool → Text
  unfolding first_entry
  scheme_for cfg r trusted =
      let xfp = Header.get (codes "X-Forwarded-Proto") r.header in
      let scheme = if r.tls then codes "https" else codes "http" in
      let proto = first_entry xfp in
      if cfg.assume_ssl
      then codes "https"
      else if trusted && not_empty xfp && not_empty proto
      then Header.lower proto
      else scheme

  run_options : List ProxyOption → Config → Option Config
  run_options [] c = some c
  run_options (opt ∷ opts) c = elim (opt c) [ none ↦ none | some c' ↦ run_options opts c' ]

  unfoldable pub new_config : List ProxyOption → Option Config
  unfolding run_options
  new_config opts = run_options opts (record { trusted_proxies = []; assume_ssl = false })

  -- The handler that the middleware returns, for the configuration that its options made.
  unfoldable pub middleware : {W : Type 0} → Config → MiddlewareFunc W
  unfolding client_ip_for scheme_for peer_host
  middleware cfg next c w =
      let r = c.request in
      let trusted = is_trusted_peer cfg (parse_addr (peer_host r.remote_addr)) in
      next (record c { client_ip = client_ip_for cfg r trusted; scheme = scheme_for cfg r trusted })
        w

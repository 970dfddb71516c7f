-- ===== src/TrustedProxy/Laws.antt =====
-- What the handlers behind the middleware see.
use trails.Base.{◌≡◌, refl, true, false, [], ◌∷◌, arith, Text, codes, if◌then◌else◌}
use trails.Web.Header
use trails.Web.Context.{Context, Request, Handler}
use trails.TrustedProxy.{
  Netip, Config, peer_host, is_trusted_peer, resolve_client_ip, client_ip_for, scheme_for,
  middleware, not_empty, or_else, first_entry,
}

proto_of_empty : (v : Text) → not_empty v ≡ false → not_empty (first_entry v) ≡ false
unfolding first_entry
proto_of_empty [] h = refl
proto_of_empty (c ∷ v) h = absurd (cc)

module _ (N : Netip) (cfg : Config N) where
  -- The peer's address parses, and a configured range holds it.
  abbrev pub IsTrustedPeer : Request → Type 0
  IsTrustedPeer r = is_trusted_peer N cfg (N.parse_addr (peer_host r.remote_addr)) ≡ true

  abbrev pub own_scheme : Request → Text
  own_scheme r =
      if cfg.assume_ssl then codes "https" else if r.tls then codes "https" else codes "http"

  -- Behind an untrusted peer no X-Forwarded header is read: the handlers see the peer's own
  -- address, and the scheme of its connection (or https, where TLS is assumed).
  pub middleware_untrusted :
      {W : Type 0} (next : Handler W) (c : Context) (w : W)
      → (¬ IsTrustedPeer c.request)
      → middleware N cfg next c w
        ≡ next
            (record c {
              client_ip = peer_host c.request.remote_addr;
              scheme = own_scheme c.request;
            })
            w
  unfolding middleware client_ip_for scheme_for
  middleware_untrusted next c w h = ground arith

  -- Behind a trusted peer the address is the one that X-Forwarded-For vouches for, or the peer's
  -- own if there is none; the scheme is https where TLS is assumed, else the lower-cased first
  -- entry of X-Forwarded-Proto, if any, else that of the connection.
  pub middleware_trusted :
      {W : Type 0} (next : Handler W) (c : Context) (w : W)
      → IsTrustedPeer c.request
      → middleware N cfg next c w
        ≡ next
            (record c {
              client_ip =
                  let xff = Header.get (codes "X-Forwarded-For") c.request.header in
                  let peer = peer_host c.request.remote_addr in
                  if not_empty xff then or_else peer (resolve_client_ip N cfg xff) else peer;
              scheme =
                  let proto =
                    first_entry (Header.get (codes "X-Forwarded-Proto") c.request.header) in
                  if cfg.assume_ssl
                  then codes "https"
                  else if not_empty proto
                  then Header.lower proto
                  else own_scheme c.request;
            })
            w
  unfolding middleware client_ip_for scheme_for
  middleware_trusted next c w h =
      ground (arith, proto_of_empty (Header.get (codes "X-Forwarded-Proto") c.request.header))

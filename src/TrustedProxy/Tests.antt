-- ===== src/TrustedProxy/Tests.antt =====
-- One trusted proxy, with addresses that are texts.
use mathlib.Core.List.{reverse}
use trails.Base.{split_comma, ◌≡◌, ◌↔◌, refl, false, none, some, [], ◌∷◌, ◌++◌, Text, codes, ◌===◌}
use trails.Web.Header.{trim_space}
use trails.Web.Address.{split_host_port}
use trails.TrustedProxy.{Netip, Config, is_trusted, resolve_client_ip, forwarded_addr}
use trails.TrustedProxy.Walk.{Vouched, resolve_client_ip_iff, resolve_client_ip_unforgeable}

abbrev texts : Netip
texts = record {
  Addr = Text;
  Prefix = Text;
  parse_addr = λ s. elim s [ [] ↦ none | c ∷ cs ↦ some (c ∷ cs) ];
  parse_prefix = λ s. none;
  prefix_of_addr = λ a. a;
  contains = λ p a. p === a;
  to_text = λ a. a;
}

abbrev behind_proxy : Config texts
behind_proxy = record { trusted_proxies = codes "10.0.0.1" ∷ []; assume_ssl = false }

resolve_client_ip_iff_example :
    (resolve_client_ip texts behind_proxy (codes "6.6.6.6, 7.7.7.7, 10.0.0.1")
      ≡ some (codes "7.7.7.7"))
    ↔ Vouched texts behind_proxy
        (codes "7.7.7.7")
        (reverse (split_comma (codes "6.6.6.6, 7.7.7.7, 10.0.0.1")))
resolve_client_ip_iff_example =
    resolve_client_ip_iff texts behind_proxy (codes "6.6.6.6, 7.7.7.7, 10.0.0.1") (codes "7.7.7.7")

resolve_client_ip_unforgeable_example :
    resolve_client_ip texts behind_proxy (codes "6.6.6.6" ++ b',' ∷ codes "7.7.7.7, 10.0.0.1")
    ≡ some (codes "7.7.7.7")
unfolding codes resolve_client_ip split_comma trim_space split_host_port is_trusted forwarded_addr
    ◌===◌
resolve_client_ip_unforgeable_example =
    resolve_client_ip_unforgeable texts behind_proxy (codes "6.6.6.6") (codes "7.7.7.7, 10.0.0.1")
      (codes "7.7.7.7") refl

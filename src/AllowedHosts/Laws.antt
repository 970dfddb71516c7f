-- ===== src/AllowedHosts/Laws.antt =====
-- Which hosts pass, stated without the code's loops.
use trails.Base.{
  ◌-◌, ◌==◌, ==_iff, Bool-cases, AnyOf, take-append-drop, ◌≡◌, refl, ◌↔◌, ◌⊎◌, inl, inr, ◌≢◌, true,
  ◌||◌, List, [], ◌∷◌, ◌++◌, arith, Text, codes, ◌===◌, ===_iff, drop, take, length, length-append,
  drop-append_length, err,
}
use trails.Web.Header.{lower, has_suffix, contains}
use trails.Web.Address.Laws.{
  Lacks, IsPlain, split_host_port_bare, split_host_port_plain, split_host_port_bracketed,
}
use trails.Web.Context.{Context, Handler, http_error, host_not_permitted}
use trails.AllowedHosts.{
  strip_port, matches, matches_entry, matches_loop, middleware, new_config, with_allowed_hosts,
}

-- A host with no colon and no bracket is found with a port, without one, and in brackets.
pub strip_port_plain :
    (host port : Text)
    → IsPlain host
    → IsPlain port
    → (strip_port (host ++ b':' ∷ port) ≡ host)
      × (strip_port host ≡ host)
      × (strip_port (b'[' ∷ (host ++ b']' ∷ b':' ∷ port)) ≡ host)
unfolding strip_port
strip_port_plain host port h p = (
  ground (arith, split_host_port_plain host port h p),
  ground (arith, split_host_port_bare host h.no_colon),
  ground (arith, split_host_port_bracketed host port h.no_open h.no_close p),
)

-- A host with no bracket, such as an IPv6 literal, in brackets in front of its port is found
-- without them.
pub strip_port_bracketed :
    (host port : Text)
    → Lacks b'[' host
    → Lacks b']' host
    → IsPlain port
    → strip_port (b'[' ∷ (host ++ b']' ∷ b':' ∷ port)) ≡ host
unfolding strip_port
strip_port_bracketed host port h k p = ground (arith, split_host_port_bracketed host port h k p)

-- An entry ".d" takes d and every name that ends in ".d"; any other entry takes itself.
pub data Permits (h host : Text) : Type 0 where
  same : host ≡ h → Permits h host
  domain : (d : Text) → h ≡ b'.' ∷ d → host ≡ d → Permits h host
  subdomain : (d p : Text) → h ≡ b'.' ∷ d → host ≡ p ++ h → Permits h host

has_suffix→append : (s suffix : Text) → has_suffix s suffix ≡ true → (p : Text) × (s ≡ p ++ suffix)
unfolding has_suffix
has_suffix→append s suffix h = (
  take (length s - length suffix) s,
  ground (
    arith,
    ===_iff (drop (length s - length suffix) s) suffix,
    take-append-drop (length s - length suffix) s,
  ),
)

has_suffix-append : (p suffix : Text) → has_suffix (p ++ suffix) suffix ≡ true
unfolding has_suffix
has_suffix-append p suffix =
    ground (arith, length-append p suffix, ===_iff suffix suffix, drop-append_length p suffix)

dotted_sound :
    (host d : Text) → (host === d || has_suffix host (b'.' ∷ d)) ≡ true → Permits (b'.' ∷ d) host
dotted_sound host d e = elim (Bool-cases (host === d)) [
  | inl hit ↦ domain d refl ((===_iff host d).0 hit)
  | inr miss ↦ let (p, q) = has_suffix→append host (b'.' ∷ d) (ground arith) in subdomain d p refl q
]

matches_entry_sound : (host h : Text) → matches_entry host h ≡ true → Permits h host
unfolding matches_entry
matches_entry_sound host [] e = same ((===_iff host []).0 e)
matches_entry_sound host (c ∷ d) e = elim (Bool-cases (c == b'.')) [
  | inl dot ↦
      let q : c ≡ b'.' = (==_iff c b'.').0 dot in rw q (dotted_sound host d (ground (arith, q)))
  | inr plain ↦ same (ground (arith, ===_iff host (c ∷ d)))
]

matches_entry_complete : (host h : Text) → Permits h host → matches_entry host h ≡ true
unfolding matches_entry
matches_entry_complete host [] (same e) = ground (arith, ===_iff host [])
matches_entry_complete host (c ∷ s) (same e) =
    ground (arith, ===_iff host (c ∷ s), has_suffix-append [] (c ∷ s))
matches_entry_complete host h (domain d e q) = ground (arith, ===_iff host d)
matches_entry_complete host h (subdomain d p e q) = ground (arith, has_suffix-append p h)

matches_loop_iff :
    (host : Text) (hs : List Text)
    → (matches_loop host hs ≡ true) ↔ AnyOf (λ h. Permits (lower h) host) hs
unfolding matches_loop
matches_loop_iff host [] = (λ e. cc, λ n. absurd n)
matches_loop_iff host (h ∷ hs) = (
  λ e. elim (Bool-cases (matches_entry host (lower h))) [
    | inl hit ↦ inl (matches_entry_sound host (lower h) hit)
    | inr miss ↦ inr ((matches_loop_iff host hs).0 (ground arith))
  ],
  λ a. elim a [
    | inl p ↦ rw (matches_entry_complete host (lower h) p) refl
    | inr q ↦ ground (arith, (matches_loop_iff host hs).1 q)
  ],
)

-- `*` stands on the list, or an entry takes the host, both in lower case.
abbrev pub IsAllowed : List Text → Text → Type 0
IsAllowed hosts host =
    (contains (codes "*") hosts ≡ true) ⊎ AnyOf (λ h. Permits (lower h) (lower host)) hosts

-- A host matches exactly if the list has the wildcard, or an entry permits the host, both in
-- lower case.
pub matches_iff :
    (hosts : List Text) (host : Text)
    → (matches (new_config (with_allowed_hosts hosts ∷ [])) host ≡ true) ↔ IsAllowed hosts host
unfolding matches new_config with_allowed_hosts
matches_iff hosts host = elim (Bool-cases (contains (codes "*") hosts)) [
  | inl star ↦ (λ _. inl star, λ _. rw star refl)
  | inr named ↦ (
    λ e. inr ((matches_loop_iff (lower host) hosts).0 (ground arith)),
    λ a. elim a [
      | inl star ↦ rw star refl
      | inr some_entry ↦ ground (arith, (matches_loop_iff (lower host) hosts).1 some_entry)
    ],
  )
]

-- With a list configured, a request whose host is allowed runs the handlers behind, and any other
-- request is answered 400 with the context and the state untouched.
pub middleware_lem :
    {W : Type 0} (hosts : List Text) (next : Handler W) (c : Context) (w : W)
    → hosts ≢ []
    → (IsAllowed hosts (strip_port c.request.host)
        × (middleware (with_allowed_hosts hosts ∷ []) next c w ≡ next c w))
      ⊎ ((¬ IsAllowed hosts (strip_port c.request.host))
          × (middleware (with_allowed_hosts hosts ∷ []) next c w
              ≡ (c, w, err (http_error 400 (host_not_permitted (strip_port c.request.host))))))
unfolding middleware new_config with_allowed_hosts
middleware_lem {W} [] next c w ne = absurd (ne refl)
middleware_lem {W} (h ∷ hs) next c w ne =
    let cfg = new_config (with_allowed_hosts (h ∷ hs) ∷ []) in
    elim (Bool-cases (matches cfg (strip_port c.request.host))) [
      | inl hit ↦ inl ((matches_iff (h ∷ hs) _).0 hit, ground (arith, hit))
      | inr miss ↦ inr (λ a. ground (arith, (matches_iff (h ∷ hs) _).1 a), ground (arith, miss))
    ]

-- With no list the middleware is no middleware at all.
pub middleware_unconfigured :
    {W : Type 0} (next : Handler W) (c : Context) (w : W)
    → (middleware [] next c w ≡ next c w)
      × (middleware (with_allowed_hosts [] ∷ []) next c w ≡ next c w)
unfolding middleware new_config with_allowed_hosts
middleware_unconfigured next c w = (refl, refl)

-- ===== src/TrustedProxy/Walk.antt =====
-- The walk over X-Forwarded-For: what it returns, and that no client can forge it.
use mathlib.Core.List.{reverse, reverse-append}
use trails.Base.{
  ◌≡◌, ◌↔◌, refl, ap, ◌∙◌, inl, inr, true, false, some, List, [], ◌∷◌, ◌++◌, arith, ◌==◌, Text,
  split_comma, Bool-cases, Option-cases,
}
use trails.TrustedProxy.{Netip, Config, is_trusted, forwarded_addr, walk, resolve_client_ip}

-- There is always a part.
split_comma-cons : (s : Text) → (p : Text) × (ps : List Text) × (split_comma s ≡ p ∷ ps)
unfolding split_comma
split_comma-cons [] = ([], [], refl)
split_comma-cons (c ∷ s) = elim (Bool-cases (c == b',')) [
  | inl comma ↦ ([], split_comma s, rw comma refl)
  | inr byte ↦ let (p, ps, e) = split_comma-cons s in (c ∷ p, ps, ground (arith, e, byte))
]

-- Joining two lists of hops by a comma joins their parts.
split_comma-append : (s t : Text) → split_comma (s ++ b',' ∷ t) ≡ split_comma s ++ split_comma t
unfolding split_comma
split_comma-append [] t = refl
split_comma-append (c ∷ s) t = elim (Bool-cases (c == b',')) [
  | inl comma ↦ ground (arith, split_comma-append s t)
  | inr byte ↦
      let (p, ps, e) = split_comma-cons s in ground (arith, split_comma-append s t, e, byte)
]

module _ (N : Netip) (cfg : Config N) where
  -- The entry parses, and its address is that of a trusted proxy.
  abbrev pub IsTrustedHop : Text → Type 0
  IsTrustedHop part = (a : N.Addr) × (forwarded_addr N part ≡ some a) × (is_trusted N cfg a ≡ true)

  abbrev pub IsClientHop : Text → Text → Type 0
  IsClientHop part ip =
      (a : N.Addr) × (forwarded_addr N part ≡ some a)
      × (is_trusted N cfg a ≡ false)
      × (ip ≡ N.to_text a)

  -- The hops from the right: trusted ones, then the client.
  pub data Vouched (ip : Text) : List Text → Type 0 where
    client : (part : Text) (older : List Text) → IsClientHop part ip → Vouched ip (part ∷ older)
    proxy :
        (part : Text) (older : List Text)
        → IsTrustedHop part
        → Vouched ip older
        → Vouched ip (part ∷ older)

  walk_sound : (parts : List Text) (ip : Text) → walk N cfg parts ≡ some ip → Vouched ip parts
  unfolding walk
  walk_sound [] ip h = absurd (cc)
  walk_sound (part ∷ parts) ip h = elim (Option-cases (forwarded_addr N part)) [
    | inl bad ↦ absurd (ground (arith, bad))
    | inr (a, e) ↦ elim (Bool-cases (is_trusted N cfg a)) [
      | inl t ↦ proxy part parts (a, e, t) (walk_sound parts ip (ground (arith, e, t)))
      | inr f ↦ client part parts (a, e, f, ground (arith, e, f))
    ]
  ]

  walk_complete : (parts : List Text) (ip : Text) → Vouched ip parts → walk N cfg parts ≡ some ip
  unfolding walk
  walk_complete [] ip v = elim v [ ]
  walk_complete (part ∷ parts) ip (client _ _ (a, e, f, q)) = ground (arith, e, f, q)
  walk_complete (part ∷ parts) ip (proxy _ _ (a, e, t) v) =
      ground (arith, e, t, walk_complete parts ip v)

  -- The walk finds an address exactly if trusted hops, read from the right, lead to it.
  pub resolve_client_ip_iff :
      (xff ip : Text)
      → (resolve_client_ip N cfg xff ≡ some ip) ↔ Vouched ip (reverse (split_comma xff))
  unfolding resolve_client_ip
  resolve_client_ip_iff xff ip = (walk_sound _ ip, walk_complete _ ip)

  walk-append :
      (parts older : List Text) (ip : Text)
      → walk N cfg parts ≡ some ip
      → walk N cfg (parts ++ older) ≡ some ip
  unfolding walk
  walk-append [] older ip h = absurd (cc)
  walk-append (part ∷ parts) older ip h = ground (arith, walk-append parts older ip)

  -- If the walk over X-Forwarded-For finds an address, it finds the same with any hops that a
  -- client writes in front.
  pub resolve_client_ip_unforgeable :
      (forged xff : Text) (ip : Text)
      → resolve_client_ip N cfg xff ≡ some ip
      → resolve_client_ip N cfg (forged ++ b',' ∷ xff) ≡ some ip
  unfolding resolve_client_ip
  resolve_client_ip_unforgeable forged xff ip h =
      ap (λ ps. walk N cfg (reverse ps)) (split_comma-append forged xff)
      ∙ ap (walk N cfg) (reverse-append (split_comma forged) (split_comma xff))
      ∙ walk-append (reverse (split_comma xff)) (reverse (split_comma forged)) ip h

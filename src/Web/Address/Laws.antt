-- ===== src/Web/Address/Laws.antt =====
-- What `split_host_port` does with the addresses that a server sees.
use trails.Base.{
  ℕ, suc, ◌+◌, ◌≡◌, refl, ap, ◌∙◌, false, ◌||◌, none, some, [], ◌∷◌, ◌++◌, arith, Text, length,
  length-append, drop, take-append_length, append_assoc,
}
use trails.Web.Address.{has_byte, index_byte, last_index_byte, split_host_port, starts_with_byte}

-- A byte that stands nowhere in the text.
abbrev pub Lacks : ℕ → Text → Type 0
Lacks c s = has_byte c s ≡ false

-- No colon and no bracket: a name, an IPv4 address or a port.
pub record IsPlain (s : Text) : Type 0 where
  pub no_colon : Lacks b':' s
  pub no_open : Lacks b'[' s
  pub no_close : Lacks b']' s

has_byte-append : (c : ℕ) (s t : Text) → has_byte c (s ++ t) ≡ (has_byte c s || has_byte c t)
unfolding has_byte
has_byte-append c [] t = refl
has_byte-append c (d ∷ s) t = ground (arith, has_byte-append c s t)

last_index_byte_lacking : (c : ℕ) (s : Text) → Lacks c s → last_index_byte c s ≡ none
unfolding has_byte last_index_byte
last_index_byte_lacking c [] h = refl
last_index_byte_lacking c (d ∷ s) h = ground (arith, last_index_byte_lacking c s)

last_index_byte-append :
    (c : ℕ) (s t : Text) → Lacks c t → last_index_byte c (s ++ c ∷ t) ≡ some (length s)
unfolding last_index_byte
last_index_byte-append c [] t h = ground (arith, last_index_byte_lacking c t)
last_index_byte-append c (d ∷ s) t h = ground (arith, last_index_byte-append c s t)

index_byte-append : (c : ℕ) (s t : Text) → Lacks c s → index_byte c (s ++ c ∷ t) ≡ some (length s)
unfolding index_byte has_byte
index_byte-append c [] t h = ground arith
index_byte-append c (d ∷ s) t h = ground (arith, index_byte-append c s t)

drop-length-add-one : (s : Text) (c : ℕ) (t : Text) → drop (length s + 1) (s ++ c ∷ t) ≡ t
drop-length-add-one [] c t = refl
drop-length-add-one (d ∷ s) c t =
    let e : suc (length s) + 1 ≡ suc (length s + 1) = omega arith in
    ap (λ (n : ℕ). drop n (d ∷ (s ++ c ∷ t))) e ∙ drop-length-add-one s c t

starts_plain :
    (s : Text) (c : ℕ) (t : Text)
    → Lacks b'[' s
    → Lacks b'[' (c ∷ [])
    → starts_with_byte b'[' (s ++ c ∷ t) ≡ false
unfolding has_byte starts_with_byte
starts_plain [] c t h k = ground arith
starts_plain (d ∷ s) c t h k = ground arith

pub split_host_port_bare : (s : Text) → Lacks b':' s → split_host_port s ≡ none
unfolding split_host_port
split_host_port_bare s h = ground (arith, last_index_byte_lacking b':' s h)

pub split_host_port_plain :
    (host port : Text)
    → IsPlain host
    → IsPlain port
    → split_host_port (host ++ b':' ∷ port) ≡ some (host, port)
unfolding split_host_port
split_host_port_plain host port h p = ground (
  arith,
  last_index_byte-append b':' host port p.no_colon,
  starts_plain host b':' port h.no_open (unfold has_byte in refl),
  take-append_length host (b':' ∷ port),
  drop-length-add-one host b':' port,
  has_byte-append b'[' host (b':' ∷ port),
  has_byte-append b']' host (b':' ∷ port),
)

-- In brackets the host may hold colons.
pub split_host_port_bracketed :
    (host port : Text)
    → Lacks b'[' host
    → Lacks b']' host
    → IsPlain port
    → split_host_port (b'[' ∷ (host ++ b']' ∷ b':' ∷ port)) ≡ some (host, port)
unfolding split_host_port
split_host_port_bracketed host port h k p = ground (
  arith,
  ap (last_index_byte b':') (append_assoc (b'[' ∷ host) (b']' ∷ []) (b':' ∷ port)),
  last_index_byte-append b':' (b'[' ∷ (host ++ b']' ∷ [])) port p.no_colon,
  length-append host (b']' ∷ []),
  length-append host (b']' ∷ b':' ∷ port),
  index_byte-append b']' host (b':' ∷ port) k,
  take-append_length host (b']' ∷ b':' ∷ port),
  drop-length-add-one (b'[' ∷ (host ++ b']' ∷ [])) b':' port,
  drop-length-add-one (b'[' ∷ host) b']' (b':' ∷ port),
  has_byte-append b'[' host (b']' ∷ b':' ∷ port),
  append_assoc host (b']' ∷ []) (b':' ∷ port),
)

-- ===== src/Web/Header.antt =====
-- net/http's `Header`, a map from canonical names to lists of values, with the operations that the
-- middlewares call, and the functions of `strings` that they apply to values (ASCII texts).
pub mod Laws
use mathlib.Core.List.{reverse}
use trails.Base.{
  ℕ, ◌+◌, ◌-◌, Bool, true, false, ◌&&◌, ◌||◌, Option, none, some, List, [], ◌∷◌, ◌++◌, map, leb,
  ◌==◌, if◌then◌else◌, Text, Table, lookup, insert, ◌===◌, length, drop,
}

abbrev pub Header : Type 0
Header = Table (List Text)

unfoldable pub to_lower : ℕ → ℕ
to_lower c = if leb b'A' c && leb c b'Z' then c + 32 else c

unfoldable pub to_upper : ℕ → ℕ
to_upper c = if leb b'a' c && leb c b'z' then c - 32 else c

-- `textproto.CanonicalMIMEHeaderKey` on a valid name: a capital at the start and behind a dash.
canonical_from : Bool → Text → Text
canonical_from upper [] = []
canonical_from upper (c ∷ cs) =
    (if upper then to_upper c else to_lower c) ∷ canonical_from (c == b'-') cs

unfoldable pub canonical : Text → Text
unfolding canonical_from to_lower to_upper
canonical k = canonical_from true k

abbrev first : Option (List Text) → Text
first none = []
first (some []) = []
first (some (v ∷ vs)) = v

abbrev values : Option (List Text) → List Text
values none = []
values (some vs) = vs

unfoldable pub get : Text → Header → Text
unfolding lookup canonical
get k h = first (lookup (canonical k) h)

unfoldable pub set : Text → Text → Header → Header
unfolding insert canonical
set k v h = insert (canonical k) (v ∷ []) h

unfoldable pub add : Text → Text → Header → Header
unfolding insert lookup canonical
add k v h = insert (canonical k) (values (lookup (canonical k) h) ++ v ∷ []) h

-- strings.ToLower, strings.HasSuffix, strings.Join.
unfoldable pub lower : Text → Text
unfolding to_lower
lower s = map to_lower s

unfoldable pub has_suffix : Text → Text → Bool
unfolding ◌===◌
has_suffix s suffix = leb (length suffix) (length s) && drop (length s - length suffix) s === suffix

unfoldable pub join : Text → List Text → Text
join sep [] = []
join sep (s ∷ []) = s
join sep (s ∷ t ∷ ts) = s ++ (sep ++ join sep (t ∷ ts))

unfoldable pub contains : Text → List Text → Bool
unfolding ◌===◌
contains s [] = false
contains s (t ∷ ts) = t === s || contains s ts

-- strings.TrimSpace, on ASCII.
abbrev pub is_space : ℕ → Bool
is_space c = (leb 9 c && leb c 13) || c == b' '

unfoldable pub trim_left : Text → Text
trim_left [] = []
trim_left (c ∷ s) = let rest = trim_left s in if is_space c then rest else c ∷ s

unfoldable pub trim_space : Text → Text
unfolding trim_left
trim_space s = reverse (trim_left (reverse (trim_left s)))

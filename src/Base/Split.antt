-- ===== src/Base/Split.antt =====
-- strings.Split at commas, strings.HasPrefix and strings.TrimPrefix, on texts of bytes.
use Prim.Native.Nat.{ℕ}
use mathlib.Core.Path.{◌≡◌, refl, ap, ◌∙◌}
use mathlib.Core.Logic.{◌≢◌}
use mathlib.Core.Bool.{Bool, true, false, ◌&&◌}
use mathlib.Core.List.{List, [], ◌∷◌, ◌++◌}
use native.Mathlib.Omega.{arith}
use trails.Base.Tests.{if◌then◌else◌, ◌==◌, ==_refl}
use trails.Base.Lists.{length, drop, All}
use trails.Base.Bytes.{Text}

-- strings.Split(s, ","): one part more than there are commas.
abbrev pub push_head : ℕ → List Text → List Text
push_head c [] = (c ∷ []) ∷ []
push_head c (p ∷ ps) = (c ∷ p) ∷ ps

unfoldable pub split_comma : Text → List Text
split_comma [] = [] ∷ []
split_comma (c ∷ s) = if c == b',' then [] ∷ split_comma s else push_head c (split_comma s)

-- strings.Join(parts, ",").
abbrev pub join_comma : List Text → Text
join_comma [] = []
join_comma (p ∷ []) = p
join_comma (p ∷ q ∷ ps) = p ++ b',' ∷ join_comma (q ∷ ps)

abbrev pub concat : List Text → Text
concat [] = []
concat (s ∷ ss) = s ++ concat ss

unfoldable pub has_prefix : Text → Text → Bool
has_prefix [] s = true
has_prefix (c ∷ p) [] = false
has_prefix (c ∷ p) (d ∷ s) = c == d && has_prefix p s

unfoldable pub trim_prefix : Text → Text → Text
unfolding has_prefix
trim_prefix p s = if has_prefix p s then drop (length p) s else s

abbrev pub LacksComma : Text → Type 0
LacksComma [] = Unit
LacksComma (c ∷ s) = (c ≢ b',') × LacksComma s

pub split_comma_lacking : (s : Text) → LacksComma s → split_comma s ≡ s ∷ []
unfolding split_comma
split_comma_lacking [] h = refl
split_comma_lacking (c ∷ s) (n, h) = ground (arith, split_comma_lacking s h)

split_comma-append : (s t : Text) → LacksComma s → split_comma (s ++ b',' ∷ t) ≡ s ∷ split_comma t
unfolding split_comma
split_comma-append [] t h = refl
split_comma-append (c ∷ s) t (n, h) = ground (arith, split_comma-append s t h)

-- Parts without commas, joined by commas, are split again.
pub split_comma-join_comma :
    (p : Text) (ps : List Text)
    → All LacksComma (p ∷ ps)
    → split_comma (join_comma (p ∷ ps)) ≡ p ∷ ps
split_comma-join_comma p [] (h, hs) = split_comma_lacking p h
split_comma-join_comma p (q ∷ ps) (h, hs) =
    split_comma-append p (join_comma (q ∷ ps)) h ∙ ap (◌∷◌ p) (split_comma-join_comma q ps hs)

pub has_prefix-append : (p s : Text) → has_prefix p (p ++ s) ≡ true
unfolding has_prefix
has_prefix-append [] s = refl
has_prefix-append (c ∷ p) s = ground (arith, ==_refl c, has_prefix-append p s)

drop-length : (p s : Text) → drop (length p) (p ++ s) ≡ s
drop-length [] s = refl
drop-length (c ∷ p) s = drop-length p s

pub trim_prefix-append : (p s : Text) → trim_prefix p (p ++ s) ≡ s
unfolding trim_prefix
trim_prefix-append p s = ground (arith, has_prefix-append p s, drop-length p s)

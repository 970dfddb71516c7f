-- ===== src/Pack/Snake.antt =====
-- pack/internal/schema/snakecase.go, on ASCII names: the default column name of a Go identifier.
pub mod Words
use trails.Base.{
  ℕ, suc, ◌*◌, ◌≤◌, ◌≡◌, refl, arith, Bool, false, ◌&&◌, ◌||◌, Option, none, some, [], ◌∷◌, leb,
  if◌then◌else◌, Text, length,
}
use trails.Web.Header.{to_lower}

abbrev pub is_upper : ℕ → Bool
is_upper c = leb b'A' c && leb c b'Z'

abbrev pub is_lower : ℕ → Bool
is_lower c = leb b'a' c && leb c b'z'

abbrev pub is_digit : ℕ → Bool
is_digit c = leb b'0' c && leb c b'9'

-- unicode.IsLower(runes[i+1]), where there is a next rune.
abbrev pub next_is_lower : Text → Bool
next_is_lower [] = false
next_is_lower (c ∷ s) = is_lower c

-- A word starts at `r`, behind the rune before it and in front of the runes behind it.
unfoldable pub starts_word : Option ℕ → ℕ → Text → Bool
starts_word none r rest = false
starts_word (some prev) r rest =
    is_upper r && ((is_lower prev || is_digit prev) || (is_upper prev && next_is_lower rest))

unfoldable pub snake_from : Option ℕ → Text → Text
unfolding to_lower starts_word
snake_from prev [] = []
snake_from prev (r ∷ rs) =
    let rest = snake_from (some r) rs in
    if starts_word prev r rs then b'_' ∷ to_lower r ∷ rest else to_lower r ∷ rest

unfoldable pub to_snake_case : Text → Text
unfolding snake_from
to_snake_case s = snake_from none s

-- No capital letter.
abbrev pub HasNoUpper : Text → Type 0
HasNoUpper [] = Unit
HasNoUpper (c ∷ s) = (is_upper c ≡ false) × HasNoUpper s

to_lower-is_upper : (c : ℕ) → is_upper (to_lower c) ≡ false
unfolding to_lower
to_lower-is_upper c = ground arith

snake_from-HasNoUpper : (prev : Option ℕ) (s : Text) → HasNoUpper (snake_from prev s)
unfolding snake_from
snake_from-HasNoUpper prev [] = tt
snake_from-HasNoUpper prev (r ∷ rs) =
    ground (arith, snake_from-HasNoUpper (some r) rs, to_lower-is_upper r)

snake_from_lower : (prev : Option ℕ) (s : Text) → HasNoUpper s → snake_from prev s ≡ s
unfolding snake_from starts_word to_lower
snake_from_lower none [] h = refl
snake_from_lower (some p) [] h = refl
snake_from_lower none (r ∷ rs) (u, h) = ground (arith, snake_from_lower (some r) rs h)
snake_from_lower (some p) (r ∷ rs) (u, h) = ground (arith, snake_from_lower (some r) rs h)

-- Converting a column name again leaves it as it is.
pub to_snake_case_idempotent : (s : Text) → to_snake_case (to_snake_case s) ≡ to_snake_case s
unfolding to_snake_case
to_snake_case_idempotent s =
    snake_from_lower none (snake_from none s) (snake_from-HasNoUpper none s)

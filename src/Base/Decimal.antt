-- ===== src/Base/Decimal.antt =====
-- Go's `strconv.FormatInt(n, 10)` and `strconv.ParseInt(s, 10, 64)` on bytes.
use trails.Base.Int.{ℤ, pos, negsuc, IsInt64}
use trails.Base.{
  ℕ, zero, suc, ◌+◌, ◌-◌, ◌*◌, ◌/◌, ◌%◌, ◌^◌, ◌≤◌, ◌<◌, ◌≡◌, refl, ◌∙◌, ap, Bool, true, false, ◌&&◌,
  Option, none, some, List, [], ◌∷◌, arith, ltb, leb, ◌==◌, if◌then◌else◌,
}

-- The digits of n in front of `rest`; n + 1 rounds are enough.
digits_before : ℕ → ℕ → List ℕ → List ℕ
digits_before zero n rest = rest
digits_before (suc fuel) n rest =
    let more = digits_before fuel (n / 10) ((b'0' + n % 10) ∷ rest) in
    if ltb n 10 then (b'0' + n) ∷ rest else more

unfoldable pub format_ℕ : ℕ → List ℕ
unfolding digits_before
format_ℕ n = digits_before (suc n) n []

unfoldable pub format_int : ℤ → List ℕ
unfolding format_ℕ
format_int (pos n) = format_ℕ n
format_int (negsuc n) = b'-' ∷ format_ℕ (suc n)

is_digit : ℕ → Bool
is_digit c = leb b'0' c && leb c b'9'

-- The digits read so far make `acc`.
parse_from : ℕ → List ℕ → Option ℕ
unfolding is_digit
parse_from acc [] = some acc
parse_from acc (c ∷ cs) =
    let rest = parse_from (acc * 10 + (c - b'0')) cs in if is_digit c then rest else none

unfoldable pub parse_uint : List ℕ → Option ℕ
unfolding parse_from
parse_uint [] = none
parse_uint (c ∷ cs) = parse_from 0 (c ∷ cs)

-- The magnitude must fit: below 2^63, or at most 2^63 behind a minus sign.
in_range : Bool → Option ℕ → Option ℤ
in_range negative none = none
in_range false (some n) = if ltb n (2 ^ 63) then some (pos n) else none
in_range true (some zero) = some (pos 0)
in_range true (some (suc n)) = if ltb n (2 ^ 63) then some (negsuc n) else none

unfoldable pub parse_int : List ℕ → Option ℤ
unfolding parse_uint in_range
parse_int [] = none
parse_int (c ∷ cs) =
    if c == b'+'
    then in_range false (parse_uint cs)
    else if c == b'-'
    then in_range true (parse_uint cs)
    else in_range false (parse_uint (c ∷ cs))

-- Reading the digits of n brings the reader to n, in front of the rest.
parse_from-digits_before :
    (fuel n : ℕ) (rest : List ℕ)
    → n < fuel
    → parse_from 0 (digits_before fuel n rest) ≡ parse_from n rest
unfolding digits_before parse_from
parse_from-digits_before zero n rest h = elim h [ ]
parse_from-digits_before (suc fuel) n rest h =
    ground (arith, parse_from-digits_before fuel (n / 10) ((b'0' + n % 10) ∷ rest))

-- A number is printed as one digit or more, and the first byte is a digit.
abbrev StartsWithDigit : List ℕ → Type 0
StartsWithDigit [] = ⊥
StartsWithDigit (c ∷ cs) = (b'0' ≤ c) × (c ≤ b'9')

digits_before-StartsWithDigit :
    (fuel n : ℕ) (rest : List ℕ) → n < fuel → StartsWithDigit (digits_before fuel n rest)
unfolding digits_before
digits_before-StartsWithDigit zero n rest h = elim h [ ]
digits_before-StartsWithDigit (suc fuel) n rest h =
    ground (arith, digits_before-StartsWithDigit fuel (n / 10) ((b'0' + n % 10) ∷ rest))

parse_uint_of_StartsWithDigit : (s : List ℕ) → StartsWithDigit s → parse_uint s ≡ parse_from 0 s
unfolding parse_uint
parse_uint_of_StartsWithDigit [] h = elim h [ ]
parse_uint_of_StartsWithDigit (c ∷ cs) h = refl

pub parse_uint-format_ℕ : (n : ℕ) → parse_uint (format_ℕ n) ≡ some n
unfolding format_ℕ
parse_uint-format_ℕ n =
    parse_uint_of_StartsWithDigit _ (digits_before-StartsWithDigit (suc n) n [] (omega arith))
    ∙ parse_from-digits_before (suc n) n [] (omega arith)
    ∙ unfold parse_from in refl

parse_int_of_StartsWithDigit :
    (s : List ℕ) → StartsWithDigit s → parse_int s ≡ in_range false (parse_uint s)
unfolding parse_int
parse_int_of_StartsWithDigit [] h = elim h [ ]
parse_int_of_StartsWithDigit (c ∷ cs) h = ground arith

-- An int64 is read back as it was printed.
pub parse_int-format_int : (a : ℤ) → IsInt64 a → parse_int (format_int a) ≡ some a
unfolding format_int format_ℕ
parse_int-format_int (pos n) h =
    parse_int_of_StartsWithDigit _ (digits_before-StartsWithDigit (suc n) n [] (omega arith))
    ∙ ap (in_range false) (parse_uint-format_ℕ n)
    ∙ unfold in_range in ground arith
parse_int-format_int (negsuc n) h =
    unfold parse_int in
    ap (in_range true) (parse_uint-format_ℕ (suc n)) ∙ unfold in_range in ground arith

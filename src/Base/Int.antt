-- ===== src/Base/Int.antt =====
-- Signed integers over the native numbers, under the library's names (its ℤ stands on the unary
-- ℕ), and the wrap-around of Go's int64.
use Prim.Native.Nat.{ℕ, suc, ◌+◌, ◌-◌, ◌%◌, ◌^◌, ◌≤◌, ◌<◌}
use mathlib.Core.Path.{◌≡◌}
use mathlib.Core.Bool.{Bool}
use native.Mathlib.Omega.{arith}
use trails.Base.Tests.{ltb, leb, if◌then◌else◌}

-- `negsuc n` is -(n + 1).
pub data ℤ : Type 0 where
  pos : ℕ → ℤ
  negsuc : ℕ → ℤ

abbrev pub pos_part : ℤ → ℕ
pos_part (pos n) = n
pos_part (negsuc n) = 0

abbrev pub neg_part : ℤ → ℕ
neg_part (pos n) = 0
neg_part (negsuc n) = suc n

-- a - b, as an integer.
abbrev pub sub_ℕ : ℕ → ℕ → ℤ
sub_ℕ a b = if leb b a then pos (a - b) else negsuc (b - a - 1)

infixl 65 ◌+ℤ◌
infix 50 ◌≤ℤ◌
unfoldable pub ◌+ℤ◌ : ℤ → ℤ → ℤ
a +ℤ b = sub_ℕ (pos_part a + pos_part b) (neg_part a + neg_part b)

abbrev pub ◌≤ℤ◌ : ℤ → ℤ → Type 0
a ≤ℤ b = pos_part a + neg_part b ≤ pos_part b + neg_part a

abbrev pub ltb_ℤ : ℤ → ℤ → Bool
ltb_ℤ a b = ltb (pos_part a + neg_part b) (pos_part b + neg_part a)

abbrev pub leb_ℤ : ℤ → ℤ → Bool
leb_ℤ a b = leb (pos_part a + neg_part b) (pos_part b + neg_part a)

-- The bit pattern of an integer, 64 bits of two's complement, and back.
unfoldable pub bits_of : ℤ → ℕ
bits_of (pos n) = n % 2 ^ 64
bits_of (negsuc n) = 2 ^ 64 - 1 - n % 2 ^ 64

unfoldable pub int64_of : ℕ → ℤ
int64_of u = if ltb u (2 ^ 63) then pos u else negsuc (2 ^ 64 - 1 - u)

-- Go's `a + b` on int64.
unfoldable pub add_int64 : ℤ → ℤ → ℤ
unfolding bits_of int64_of
add_int64 a b = int64_of ((bits_of a + bits_of b) % 2 ^ 64)

pub record IsInt64 (a : ℤ) : Type 0 where
  pub upper : pos_part a < 2 ^ 63
  pub lower : neg_part a ≤ 2 ^ 63

-- The sum of two int64 values is an int64, and exact where the true sum is one.
pub add_int64-IsInt64 : (a b : ℤ) → IsInt64 (add_int64 a b)
unfolding add_int64
add_int64-IsInt64 a b = ground arith

pub add_int64_exact : (a b : ℤ) → IsInt64 a → IsInt64 b → IsInt64 (a +ℤ b) → add_int64 a b ≡ a +ℤ b
unfolding add_int64 ◌+ℤ◌
add_int64_exact a b h k s = ground arith

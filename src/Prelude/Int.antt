-- ===== src/Prelude/Int.antt =====
-- Signed integers over the native numbers, for the source's `int` values that can be negative.
use Prim.Native.Nat.{ℕ, suc, ◌+◌, ◌-◌, ◌%◌, ◌^◌, ◌<◌}
use mathlib.Core.Path.{◌≡◌}
use mathlib.Core.Bool.{Bool}
use native.Mathlib.Omega.{arith}
use cse130_git.Prelude.Tests.{leb, if◌then◌else◌}

-- `negsuc n` is -(n + 1).
pub data ℤ : Type 0 where
  pos : ℕ → ℤ
  negsuc : ℕ → ℤ

abbrev pub pos_part : ℤ → ℕ
pos_part (pos n) = n
pos_part (negsuc n) = 0

abbrev pub neg_part : ℤ → ℕ
neg_part (pos n) = 0
neg_part (negsuc n) = suc n

-- a - b, as an integer.
abbrev pub sub_ℕ : ℕ → ℕ → ℤ
sub_ℕ a b = if leb b a then pos (a - b) else negsuc (b - a - 1)

infixl 65 ◌+ℤ◌
unfoldable pub ◌+ℤ◌ : ℤ → ℤ → ℤ
a +ℤ b = sub_ℕ (pos_part a + pos_part b) (neg_part a + neg_part b)

-- One equation lets `omega` work with sums that stay shut.
pub +ℤ_parts :
    (a b : ℤ)
    → pos_part (a +ℤ b) + neg_part a + neg_part b ≡ neg_part (a +ℤ b) + pos_part a + pos_part b
unfolding ◌+ℤ◌
+ℤ_parts a b = ground arith

-- Not positive: what a comparator returns for "less or equal".
abbrev pub nonpos : ℤ → Bool
nonpos a = leb (pos_part a) 0

-- `(int)u` for an unsigned 32-bit `u`, in two's complement.
abbrev pub int_of_u32 : ℕ → ℤ
int_of_u32 u = if leb (2 ^ 31) u then negsuc (2 ^ 32 - u - 1) else pos u

-- `a - b` on unsigned 32-bit values, and the reading of an `int` as one.
abbrev pub sub_u32 : ℕ → ℕ → ℕ
sub_u32 a b = (a + 2 ^ 32 - b) % 2 ^ 32

abbrev pub u32_of_int : ℤ → ℕ
u32_of_int (pos n) = n % 2 ^ 32
u32_of_int (negsuc n) = (2 ^ 32 - 1) - n % 2 ^ 32

-- Below 2^31 the wrapped difference of two unsigned values, read as an `int`, orders them.
pub nonpos-int_of_u32 :
    (a b : ℕ) → a < 2 ^ 31 → b < 2 ^ 31 → nonpos (int_of_u32 (sub_u32 a b)) ≡ leb a b
nonpos-int_of_u32 a b ha hb = ground arith

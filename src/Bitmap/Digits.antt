-- ===== src/Bitmap/Digits.antt =====
-- The binary digits of the words that bitmap.c masks.
use Prim.Native.Nat.{
  min, max, digits, differ, bit_and, bit_or, bit_xor, bit_and-bitwise, bit_or-bitwise,
  bit_xor-bitwise,
}
use cse130_git.Prelude.{
  ℕ, zero, suc, ◌+◌, ◌-◌, ◌*◌, ◌/◌, ◌%◌, ◌^◌, ◌≡◌, ◌≤◌, ◌<◌, ◌==◌, if◌then◌else◌, arith, refl, ap,
  ◌∙◌,
}

abbrev pub bit_at : ℕ → ℕ → ℕ
bit_at zero w = w % 2
bit_at (suc k) w = bit_at k (w / 2)

pub bit_at_small : (k w : ℕ) → bit_at k w < 2
bit_at_small zero w = omega arith
bit_at_small (suc k) w = bit_at_small k (w / 2)

-- An operation that goes by the digits, `f` on each of them.
module _ (z : ℕ → ℕ) (f : ℕ → ℕ → ℕ) (z_step : (b : ℕ) → z b ≡ z (b / 2) * 2 + f 0 (b % 2))
    (f_small : (x y : ℕ) → x < 2 → y < 2 → f x y < 2) where
  any_fuel : (n m a b : ℕ) → a ≤ n → a ≤ m → digits z f n a b ≡ digits z f m a b
  any_fuel zero zero a b h k = refl
  any_fuel zero (suc m) zero b h k = refl
  any_fuel zero (suc m) (suc a) b h k = absurd (omega arith)
  any_fuel (suc n) zero zero b h k = refl
  any_fuel (suc n) zero (suc a) b h k = absurd (omega arith)
  any_fuel (suc n) (suc m) zero b h k = refl
  any_fuel (suc n) (suc m) (suc a) b h k =
      omega (arith, any_fuel n m (suc a / 2) (b / 2) (omega arith) (omega arith))

  lowest :
      (n a b : ℕ) → a ≤ n → digits z f n a b ≡ digits z f n (a / 2) (b / 2) * 2 + f (a % 2) (b % 2)
  lowest zero zero b h = z_step b
  lowest zero (suc a) b h = absurd (omega arith)
  lowest (suc n) zero b h = z_step b
  lowest (suc n) (suc a) b h =
      omega (arith, any_fuel n (suc n) (suc a / 2) (b / 2) (omega arith) (omega arith))

  pub bit_at-digits :
      (k n a b : ℕ) → a ≤ n → bit_at k (digits z f n a b) ≡ f (bit_at k a) (bit_at k b)
  bit_at-digits zero n a b h =
      omega (arith, lowest n a b h, f_small (a % 2) (b % 2) (omega arith) (omega arith))
  bit_at-digits (suc k) n a b h =
      let half : digits z f n a b / 2 ≡ digits z f n (a / 2) (b / 2) =
        omega (arith, lowest n a b h, f_small (a % 2) (b % 2) (omega arith) (omega arith)) in
      rw (half) (bit_at-digits k n (a / 2) (b / 2) (omega arith))

pub bit_at-bit_and : (k a b : ℕ) → bit_at k (bit_and a b) ≡ min (bit_at k a) (bit_at k b)
bit_at-bit_and k a b =
    ap (bit_at k) (bit_and-bitwise a b)
    ∙ bit_at-digits (λ b. 0) min (λ b. omega arith) (λ x y h l. omega arith) k a a b (omega arith)

pub bit_at-bit_or : (k a b : ℕ) → bit_at k (bit_or a b) ≡ max (bit_at k a) (bit_at k b)
bit_at-bit_or k a b =
    ap (bit_at k) (bit_or-bitwise a b)
    ∙ bit_at-digits (λ b. b) max (λ b. omega arith) (λ x y h l. omega arith) k a a b (omega arith)

differ_small : (x y : ℕ) → x < 2 → y < 2 → differ x y < 2
differ_small zero y h l = l
differ_small (suc x) zero h l = h
differ_small (suc x) (suc y) h l = differ_small x y (omega arith) (omega arith)

pub bit_at-bit_xor : (k a b : ℕ) → bit_at k (bit_xor a b) ≡ differ (bit_at k a) (bit_at k b)
bit_at-bit_xor k a b =
    ap (bit_at k) (bit_xor-bitwise a b)
    ∙ bit_at-digits (λ b. b) differ (λ b. omega arith) differ_small k a a b (omega arith)

bit_at-zero : (k : ℕ) → bit_at k 0 ≡ 0
bit_at-zero zero = refl
bit_at-zero (suc k) = bit_at-zero k

-- A word with one digit of 1.
pub bit_at-power : (k j : ℕ) → bit_at j (2 ^ k) ≡ (if j == k then 1 else 0)
bit_at-power zero zero = refl
bit_at-power zero (suc j) = ground (arith, bit_at-zero j)
bit_at-power (suc k) zero = ground arith
bit_at-power (suc k) (suc j) =
    let half : 2 ^ suc k / 2 ≡ 2 ^ k = omega arith in rw (half) (bit_at-power k j ∙ ground arith)

-- The complement of a word of `n` digits.
pub bit_at-complement : (n j w : ℕ) → w < 2 ^ n → j < n → bit_at j (2 ^ n - 1 - w) ≡ 1 - bit_at j w
bit_at-complement zero j w h l = absurd (omega arith)
bit_at-complement (suc n) zero w h l = omega (arith, h)
bit_at-complement (suc n) (suc j) w h l =
    let half : (2 ^ suc n - 1 - w) / 2 ≡ 2 ^ n - 1 - w / 2 = omega (arith, h) in
    rw (half) (bit_at-complement n j (w / 2) (omega (arith, h)) (omega (arith, l)))

digits_zero : (n a : ℕ) → digits (λ b. 0) min n a 0 ≡ 0
digits_zero zero a = refl
digits_zero (suc n) zero = refl
digits_zero (suc n) (suc a) = omega (arith, digits_zero n (suc a / 2))

bit_and_step : (a b : ℕ) → bit_and a b ≡ bit_and (a / 2) (b / 2) * 2 + min (a % 2) (b % 2)
bit_and_step a b = omega (
  arith,
  bit_and-bitwise a b,
  bit_and-bitwise (a / 2) (b / 2),
  lowest (λ b. 0) min (λ b. omega arith) (λ x y h l. omega arith) a a b (omega arith),
  any_fuel (λ b. 0) min (λ b. omega arith) (λ x y h l. omega arith) a (a / 2) (a / 2) (b / 2)
      (omega arith) (omega arith),
)

-- What a mask of one digit keeps.
pub bit_and-power : (k w : ℕ) → bit_and w (2 ^ k) ≡ (if bit_at k w == 0 then 0 else 2 ^ k)
bit_and-power zero w =
    ground (arith, bit_and_step w 1, bit_and-bitwise (w / 2) 0, digits_zero (w / 2) (w / 2))
bit_and-power (suc k) w =
    let half : 2 ^ suc k / 2 ≡ 2 ^ k = omega arith in
    let raw : bit_and w (2 ^ suc k) ≡ bit_and (w / 2) (2 ^ suc k / 2) * 2 =
      omega (arith, bit_and_step w (2 ^ suc k)) in
    let step : bit_and w (2 ^ suc k) ≡ bit_and (w / 2) (2 ^ k) * 2 = rw (half) at raw in
    ground (arith, step, bit_and-power k (w / 2))

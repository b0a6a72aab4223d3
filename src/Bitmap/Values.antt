-- ===== src/Bitmap/Values.antt =====
-- A bitmap as a function from its places to booleans, and what the operations do to it.
use Prim.Native.Nat.{differ, bit_and, bit_or, bit_xor}
use native.Mathlib.Nat.{pow-le-pow_right}
use cse130_git.Prelude.{
  ℕ, zero, suc, ◌-◌, ◌/◌, ◌%◌, ◌^◌, ◌≡◌, ◌<◌, some, Bool, true, false, not, ltb, ◌==◌,
  if◌then◌else◌, arith, refl, ap, Bool-cases, inl, inr,
}
use cse130_git.Bitmap.Digits.{
  bit_at, bit_at_small, bit_at-bit_and, bit_at-bit_or, bit_at-bit_xor, bit_at-power,
  bit_at-complement, bit_and-power,
}
use cse130_git.Bitmap.Ops.{
  Bitmap, set_word, elem_bits, bitmap_mark, bitmap_reset, bitmap_flip, bitmap_set, bitmap_test,
}

-- The bit of a word at a place below 32, and of a bitmap at any place.
abbrev pub digit : ℕ → ℕ → Bool
digit w k = bit_at k w == 1

abbrev pub value_at : Bitmap → ℕ → Bool
value_at b j = digit (b.bits (j / elem_bits)) (j % elem_bits)

-- Two places in the same word at the same digit are the same.
place_lem : (i j : ℕ) → i / 32 ≡ j / 32 → (i % 32 == j % 32) ≡ (i == j)
place_lem i j e = ground (arith, e)

other_word : (i j : ℕ) → (i / 32 == j / 32) ≡ false → (i == j) ≡ false
other_word i j e = ground (arith, e)

digit-or : (w k m : ℕ) → digit (bit_or w (2 ^ m)) k ≡ (if m == k then true else digit w k)
digit-or w k m = rw (bit_at-bit_or k w (2 ^ m), bit_at-power m k) (ground (arith, bit_at_small k w))

differ_digit :
    (x : ℕ) (c : Bool)
    → x < 2
    → (differ x (if c then 1 else 0) == 1) ≡ (if c then not (x == 1) else x == 1)
differ_digit zero true h = refl
differ_digit zero false h = refl
differ_digit (suc zero) true h = refl
differ_digit (suc zero) false h = refl
differ_digit (suc (suc x)) c h = absurd (omega arith)

==_sym : (a b : ℕ) → (a == b) ≡ (b == a)
==_sym a b = ground arith

digit-xor :
    (w k m : ℕ) → digit (bit_xor w (2 ^ m)) k ≡ (if m == k then not (digit w k) else digit w k)
digit-xor w k m =
    rw (bit_at-bit_xor k w (2 ^ m), bit_at-power m k, ==_sym k m)
      (differ_digit (bit_at k w) (m == k) (bit_at_small k w))

digit-and :
    (w k m : ℕ)
    → k < 32
    → m < 32
    → digit (bit_and w (2 ^ 32 - 1 - 2 ^ m)) k ≡ (if m == k then false else digit w k)
digit-and w k m h l =
    let low : 2 ^ m < 2 ^ 32 =
      omega (arith, pow-le-pow_right {n = 2} (omega arith) {i = m} {j = 31} (omega (arith, l))) in
    rw
      (
        bit_at-bit_and k w (2 ^ 32 - 1 - 2 ^ m),
        bit_at-complement 32 k (2 ^ m) low h,
        bit_at-power m k,
      )
      (ground (arith, bit_at_small k w))

-- A word that is stored changes the bitmap as it changes its digits.
stored :
    (b : Bitmap) (i j w : ℕ) (new : Bool → Bool)
    → digit w (j % 32) ≡ (
        if i % 32 == j % 32
        then new (digit (b.bits (i / 32)) (j % 32))
        else digit (b.bits (i / 32)) (j % 32))
    → value_at (set_word b (i / 32) w) j ≡ (if i == j then new (value_at b j) else value_at b j)
stored b i j w new h = elim (Bool-cases (i / 32 == j / 32)) [
  | inr e ↦ rw (e, other_word i j e) refl
  | inl e ↦ let q : i / 32 ≡ j / 32 = ground (arith, e) in rw (e, h, place_lem i j q, q) refl
]

pub bitmap_mark_lem :
    (b : Bitmap) (i j : ℕ) → value_at (bitmap_mark b i) j ≡ (if i == j then true else value_at b j)
unfolding bitmap_mark
bitmap_mark_lem b i j =
    stored b i j (bit_or (b.bits (i / 32)) (2 ^ (i % 32))) (λ v. true)
      (digit-or (b.bits (i / 32)) (j % 32) (i % 32))

pub bitmap_reset_lem :
    (b : Bitmap) (i j : ℕ)
    → value_at (bitmap_reset b i) j ≡ (if i == j then false else value_at b j)
unfolding bitmap_reset
bitmap_reset_lem b i j =
    stored b i j (bit_and (b.bits (i / 32)) (2 ^ 32 - 1 - 2 ^ (i % 32))) (λ v. false)
      (digit-and (b.bits (i / 32)) (j % 32) (i % 32) (omega arith) (omega arith))

-- `bitmap_flip` negates one bit and leaves the others.
pub bitmap_flip_lem :
    (b : Bitmap) (i j : ℕ)
    → value_at (bitmap_flip b i) j ≡ (if i == j then not (value_at b j) else value_at b j)
unfolding bitmap_flip
bitmap_flip_lem b i j =
    stored b i j (bit_xor (b.bits (i / 32)) (2 ^ (i % 32))) not
      (digit-xor (b.bits (i / 32)) (j % 32) (i % 32))

power_positive : (k : ℕ) → 0 < 2 ^ k
power_positive zero = omega arith
power_positive (suc k) = omega (arith, power_positive k)

tested : (x p : ℕ) → x < 2 → 0 < p → not ((if x == 0 then 0 else p) == 0) ≡ (x == 1)
tested zero p h l = refl
tested (suc zero) p h l = ground (arith, l)
tested (suc (suc x)) p h l = absurd (omega arith)

pub bitmap_test_lem : (b : Bitmap) (j : ℕ) → j < b.bit_cnt → bitmap_test b j ≡ some (value_at b j)
unfolding bitmap_test
bitmap_test_lem b j h =
    let room : ltb j b.bit_cnt ≡ true = ground (arith, h) in
    let w = b.bits (j / 32) in
    rw (bitmap_test, room, bit_and-power (j % 32) w)
      (ap some (
        tested (bit_at (j % 32) w) (2 ^ (j % 32)) (bit_at_small (j % 32) w)
          (power_positive (j % 32))))

-- What one store makes of the bits.
pub bitmap_set_lem :
    (b : Bitmap) (i : ℕ) (v : Bool)
    → i < b.bit_cnt
    → (b' : Bitmap) × (bitmap_set b i v ≡ some b'
        × (b'.bit_cnt ≡ b.bit_cnt
            × ((j : ℕ) → value_at b' j ≡ (if i == j then v else value_at b j))))
unfolding bitmap_set bitmap_mark bitmap_reset
bitmap_set_lem b i true h =
    let room : ltb i b.bit_cnt ≡ true = ground (arith, h) in
    rw (bitmap_set, room) (bitmap_mark b i, (refl, (refl, λ j. bitmap_mark_lem b i j)))
bitmap_set_lem b i false h =
    let room : ltb i b.bit_cnt ≡ true = ground (arith, h) in
    rw (bitmap_set, room) (bitmap_reset b i, (refl, (refl, λ j. bitmap_reset_lem b i j)))

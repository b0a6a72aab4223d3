-- ===== src/Bitmap/Ops.antt =====
-- The functions of bitmap.c, on an array of words of 32 bits. An `ASSERT` that fails is none.
use Prim.Native.Nat.{bit_and, bit_or, bit_xor}
use cse130_git.Prelude.{
  ℕ, zero, suc, ◌+◌, ◌-◌, ◌*◌, ◌/◌, ◌%◌, ◌^◌, Option, none, some, Bool, true, false, not, ◌&&◌,
  ◌||◌, ltb, leb, ◌==◌, if◌then◌else◌, update,
}

abbrev pub elem_bits : ℕ
elem_bits = 32

abbrev pub bitmap_error : ℕ
bitmap_error = 2 ^ 32 - 1

-- `bits` gives the word at an index.
pub record Bitmap : Type 0 where
  pub bit_cnt : ℕ
  pub bits : ℕ → ℕ

abbrev pub elem_idx : ℕ → ℕ
elem_idx bit_idx = bit_idx / elem_bits

abbrev pub bit_mask : ℕ → ℕ
bit_mask bit_idx = 2 ^ (bit_idx % elem_bits)

abbrev pub elem_cnt : ℕ → ℕ
elem_cnt bit_cnt = (bit_cnt + elem_bits - 1) % 2 ^ 32 / elem_bits

abbrev pub byte_cnt : ℕ → ℕ
byte_cnt bit_cnt = 4 * elem_cnt bit_cnt

abbrev pub bitmap_buf_size : ℕ → ℕ
bitmap_buf_size bit_cnt = 8 + byte_cnt bit_cnt

abbrev pub bitmap_size : Bitmap → ℕ
bitmap_size b = b.bit_cnt

-- A word stored at an index.
abbrev pub set_word : Bitmap → ℕ → ℕ → Bitmap
set_word b idx w = record b { bits = update b.bits idx w }

unfoldable pub bitmap_mark : Bitmap → ℕ → Bitmap
bitmap_mark b bit_idx =
    let idx = elem_idx bit_idx in set_word b idx (bit_or (b.bits idx) (bit_mask bit_idx))

-- `~mask` on an `unsigned long` of 32 bits.
unfoldable pub bitmap_reset : Bitmap → ℕ → Bitmap
bitmap_reset b bit_idx =
    let idx = elem_idx bit_idx in
    set_word b idx (bit_and (b.bits idx) (2 ^ 32 - 1 - bit_mask bit_idx))

unfoldable pub bitmap_flip : Bitmap → ℕ → Bitmap
bitmap_flip b bit_idx =
    let idx = elem_idx bit_idx in set_word b idx (bit_xor (b.bits idx) (bit_mask bit_idx))

unfoldable pub bitmap_set : Bitmap → ℕ → Bool → Option Bitmap
bitmap_set b idx value =
    if ltb idx b.bit_cnt
    then some (if value then bitmap_mark b idx else bitmap_reset b idx)
    else none

unfoldable pub bitmap_test : Bitmap → ℕ → Option Bool
bitmap_test b idx =
    if ltb idx b.bit_cnt
    then some (not (bit_and (b.bits (elem_idx idx)) (bit_mask idx) == 0))
    else none

-- The two assertions on a range; the sum wraps.
abbrev pub in_range : Bitmap → (start cnt : ℕ) → Bool
in_range b start cnt = leb start b.bit_cnt && leb ((start + cnt) % 2 ^ 32) b.bit_cnt

-- The loop from the bit `i` on, over `n` bits.
unfoldable pub set_from : Bitmap → (i n : ℕ) → Bool → Option Bitmap
set_from b i zero value = some b
set_from b i (suc n) value = elim (bitmap_set b i value) [
  | none ↦ none
  | some b' ↦ set_from b' (i + 1) n value
]

abbrev pub bitmap_set_multiple : Bitmap → (start cnt : ℕ) → Bool → Option Bitmap
bitmap_set_multiple b start cnt value =
    if in_range b start cnt then set_from b start cnt value else none

abbrev pub bitmap_set_all : Bitmap → Bool → Option Bitmap
bitmap_set_all b value = bitmap_set_multiple b 0 (bitmap_size b) value

-- Told whether each `malloc` finds memory, and what is in it. The outer none is a failed assertion, the
-- inner one the null pointer.
unfoldable pub bitmap_create : (found found_bits : Bool) → (ℕ → ℕ) → ℕ → Option (Option Bitmap)
bitmap_create false found_bits raw bit_cnt = some none
bitmap_create true found_bits raw bit_cnt =
    if found_bits || bit_cnt == 0
    then elim (bitmap_set_all (record { bit_cnt = bit_cnt; bits = raw }) false) [
      | none ↦ none
      | some b ↦ some (some b)
    ]
    else some none

-- In storage that is there, told its size and what it holds.
unfoldable pub bitmap_create_in_buf : (ℕ → ℕ) → (bit_cnt block_size : ℕ) → Option Bitmap
bitmap_create_in_buf raw bit_cnt block_size =
    if leb (bitmap_buf_size bit_cnt) block_size
    then bitmap_set_all (record { bit_cnt = bit_cnt; bits = raw }) false
    else none

abbrev pub same : Bool → Bool → Bool
same true v = v
same false v = not v

abbrev pub add_one : Option ℕ → Option ℕ
add_one none = none
add_one (some n) = some (n + 1)

unfoldable pub count_from : Bitmap → (i n : ℕ) → Bool → Option ℕ
count_from b i zero value = some 0
count_from b i (suc n) value = elim (bitmap_test b i) [
  | none ↦ none
  | some t ↦ let rest = count_from b (i + 1) n value in if same t value then add_one rest else rest
]

abbrev pub bitmap_count : Bitmap → (start cnt : ℕ) → Bool → Option ℕ
bitmap_count b start cnt value = if in_range b start cnt then count_from b start cnt value else none

unfoldable pub contains_from : Bitmap → (i n : ℕ) → Bool → Option Bool
contains_from b i zero value = some false
contains_from b i (suc n) value = elim (bitmap_test b i) [
  | none ↦ none
  | some t ↦ elim (same t value) [ true ↦ some true | false ↦ contains_from b (i + 1) n value ]
]

abbrev pub bitmap_contains : Bitmap → (start cnt : ℕ) → Bool → Option Bool
bitmap_contains b start cnt value =
    if in_range b start cnt then contains_from b start cnt value else none

abbrev pub negated : Option Bool → Option Bool
negated none = none
negated (some t) = some (not t)

abbrev pub bitmap_any : Bitmap → (start cnt : ℕ) → Option Bool
bitmap_any b start cnt = bitmap_contains b start cnt true

abbrev pub bitmap_none : Bitmap → (start cnt : ℕ) → Option Bool
bitmap_none b start cnt = negated (bitmap_contains b start cnt true)

abbrev pub bitmap_all : Bitmap → (start cnt : ℕ) → Option Bool
bitmap_all b start cnt = negated (bitmap_contains b start cnt false)

-- The loop from `i` on, with `n` places left up to `last`.
unfoldable pub scan_from : Bitmap → (i n cnt : ℕ) → Bool → Option ℕ
scan_from b i zero cnt value = some bitmap_error
scan_from b i (suc n) cnt value = elim (bitmap_contains b i cnt (not value)) [
  | none ↦ none
  | some true ↦ scan_from b (i + 1) n cnt value
  | some false ↦ some i
]

unfoldable pub bitmap_scan : Bitmap → (start cnt : ℕ) → Bool → Option ℕ
bitmap_scan b start cnt value =
    if leb start b.bit_cnt
    then (if leb cnt b.bit_cnt
        then scan_from b start (b.bit_cnt - cnt + 1 - start) cnt value
        else some bitmap_error)
    else none

unfoldable pub bitmap_scan_and_flip : Bitmap → (start cnt : ℕ) → Bool → Option (ℕ × Bitmap)
bitmap_scan_and_flip b start cnt value = elim (bitmap_scan b start cnt value) [
  | none ↦ none
  | some idx ↦
      if idx == bitmap_error
      then some (idx, b)
      else elim (bitmap_set_multiple b idx cnt (not value)) [
        | none ↦ none
        | some b' ↦ some (idx, b')
      ]
]

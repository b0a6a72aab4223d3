-- ===== src/Bitmap/Ranges.antt =====
-- The functions of bitmap.c over ranges of bits.
use mathlib.Core.Path.{subst}
use cse130_git.Prelude.{
  ℕ, zero, suc, ◌+◌, ◌%◌, ◌^◌, ◌≡◌, ◌≤◌, ◌<◌, ◌⊎◌, Option, some, Bool, true, false, not, ◌&&◌, ltb,
  leb, ◌==◌, if◌then◌else◌, arith, refl, sym, ◌∙◌, Bool-cases, inl, inr,
}
use cse130_git.Bitmap.Ops.{
  Bitmap, set_from, bitmap_set_multiple, in_range, same, contains_from, bitmap_contains,
  bitmap_create, bitmap_create_in_buf, bitmap_buf_size, bitmap_set_all, count_from, bitmap_count,
}
use cse130_git.Bitmap.Values.{value_at, bitmap_test_lem, bitmap_set_lem}

abbrev pub within : (start cnt j : ℕ) → Bool
within start cnt j = leb start j && ltb j (start + cnt)

-- The bits are as before but for a range, which has one value.
abbrev pub Filled : Bitmap → Bitmap → (start cnt : ℕ) → Bool → Type 0
Filled b b' start cnt v =
    b'.bit_cnt ≡ b.bit_cnt
    × ((j : ℕ) → value_at b' j ≡ (if within start cnt j then v else value_at b j))

set_from_lem :
    (n : ℕ) (b : Bitmap) (i : ℕ) (v : Bool)
    → i + n ≤ b.bit_cnt
    → (b' : Bitmap) × (set_from b i n v ≡ some b' × Filled b b' i n v)
unfolding set_from
set_from_lem zero b i v h = (b, (refl, (refl, λ j. ground arith)))
set_from_lem (suc n) b i v h =
    let (b1, (e, (c, f))) = bitmap_set_lem b i v (omega (arith, h)) in
    let (b2, (e', (c', f'))) = set_from_lem n b1 (i + 1) v (omega (arith, h, c)) in
    rw (set_from, e) (b2, (e', (c' ∙ c, λ j. f' j ∙ (rw (f j) (ground arith)))))

pub in_range_lem :
    (b : Bitmap) (start cnt : ℕ)
    → start + cnt ≤ b.bit_cnt
    → b.bit_cnt < 2 ^ 32
    → in_range b start cnt ≡ true
in_range_lem b start cnt h low =
    let e : (start + cnt) % 2 ^ 32 ≡ start + cnt = omega (arith, h, low) in
    rw (e) (ground (arith, h))

-- `bitmap_set_multiple` of a range that lies in the bitmap fills it and leaves the other bits.
pub bitmap_set_multiple_lem :
    (b : Bitmap) (start cnt : ℕ) (v : Bool)
    → start + cnt ≤ b.bit_cnt
    → b.bit_cnt < 2 ^ 32
    → (b' : Bitmap) × (bitmap_set_multiple b start cnt v ≡ some b' × Filled b b' start cnt v)
bitmap_set_multiple_lem b start cnt v h low =
    rw (bitmap_set_multiple, in_range_lem b start cnt h low) (set_from_lem cnt b start v h)

abbrev pub AllAre : Bitmap → (start cnt : ℕ) → Bool → Type 0
AllAre b start cnt v = (j : ℕ) → start ≤ j → j < start + cnt → value_at b j ≡ v

-- A search of a range for a value: it is found at some place, or the others stand at all places.
abbrev pub Searched : Bitmap → (start cnt : ℕ) → Bool → Option Bool → Type 0
Searched b start cnt v r =
    (r ≡ some true × ((j : ℕ) × (start ≤ j × (j < start + cnt × value_at b j ≡ v))))
    ⊎ (r ≡ some false × AllAre b start cnt (not v))

same-true : (t v : Bool) → same t v ≡ true → t ≡ v
same-true true v e = sym e
same-true false true e = e
same-true false false e = refl

same-false : (t v : Bool) → same t v ≡ false → t ≡ not v
same-false true true e = e
same-false true false e = refl
same-false false v e = sym e

-- A statement on a range, from its first place and the rest.
pub from_first :
    {P : ℕ → Type 0} (i end : ℕ)
    → P i
    → ((j : ℕ) → i + 1 ≤ j → j < end → P j)
    → (j : ℕ) → i ≤ j
    → j < end
    → P j
from_first {P = P} i end p f j l m = elim (Bool-cases (i == j)) [
  | inl e ↦ let q : i ≡ j = ground (arith, e) in subst P q p
  | inr e ↦ f j (ground (arith, e, l)) m
]

contains_from_lem :
    (n : ℕ) (b : Bitmap) (i : ℕ) (v : Bool)
    → i + n ≤ b.bit_cnt
    → Searched b i n v (contains_from b i n v)
unfolding contains_from
contains_from_lem zero b i v h = inr (refl, λ j l m. absurd (omega arith))
contains_from_lem (suc n) b i v h =
    let t = bitmap_test_lem b i (omega (arith, h)) in
    elim (Bool-cases (same (value_at b i) v)) [
      | inl s ↦
          rw (contains_from, t)
            (rw (s) (inl (refl, (i, (omega arith, (omega arith, same-true (value_at b i) v s))))))
      | inr s ↦
          rw (contains_from, t)
            (rw (s) (elim (contains_from_lem n b (i + 1) v (omega (arith, h))) [
              | inl (e, (j, (l, (m, f)))) ↦ inl (e, (j, (omega (arith, l), (omega (arith, m), f))))
              | inr (e, f) ↦ inr (
                e,
                from_first {P = λ j. value_at b j ≡ not v} i (i + suc n)
                    (same-false (value_at b i) v s) (λ j l m. f j l (omega (arith, m))),
              )
            ]))
    ]

pub bitmap_contains_lem :
    (b : Bitmap) (start cnt : ℕ) (v : Bool)
    → start + cnt ≤ b.bit_cnt
    → b.bit_cnt < 2 ^ 32
    → Searched b start cnt v (bitmap_contains b start cnt v)
bitmap_contains_lem b start cnt v h low =
    rw (bitmap_contains, in_range_lem b start cnt h low) (contains_from_lem cnt b start v h)

within_zero : (n j : ℕ) → j < n → within 0 n j ≡ true
within_zero n j h = ground (arith, h)

count_from_both :
    (n : ℕ) (b : Bitmap) (i : ℕ)
    → i + n ≤ b.bit_cnt
    → (set : ℕ) × ((clear : ℕ) × (count_from b i n true ≡ some set
          × (count_from b i n false ≡ some clear × set + clear ≡ n)))
unfolding count_from
count_from_both zero b i h = (0, (0, (refl, (refl, refl))))
count_from_both (suc n) b i h =
    let t = bitmap_test_lem b i (omega (arith, h)) in
    let (set, (clear, (e, (f, g)))) = count_from_both n b (i + 1) (omega (arith, h)) in
    elim (Bool-cases (value_at b i)) [
      | inl v ↦
          rw (count_from, t)
            (rw (v) (rw (e, f) (set + 1, (clear, (refl, (refl, omega (arith, g)))))))
      | inr v ↦
          rw (count_from, t)
            (rw (v) (rw (e, f) (set, (clear + 1, (refl, (refl, omega (arith, g)))))))
    ]

-- All bits of a bitmap are cleared, whatever the memory held.
bitmap_set_all_lem :
    (raw : ℕ → ℕ) (n : ℕ)
    → n < 2 ^ 32
    → (b : Bitmap) × (bitmap_set_all (record { bit_cnt = n; bits = raw }) false ≡ some b
        × (b.bit_cnt ≡ n × ((j : ℕ) → j < n → value_at b j ≡ false)))
bitmap_set_all_lem raw n low =
    let fresh : Bitmap = record { bit_cnt = n; bits = raw } in
    let (b, (e, (c, f))) = bitmap_set_multiple_lem fresh 0 n false (omega arith) low in
    (b, (e, (c, λ j h. f j ∙ rw (within_zero n j h) refl)))

-- A new bitmap has all its bits clear.
pub bitmap_create_lem :
    (raw : ℕ → ℕ) (n : ℕ)
    → n < 2 ^ 32
    → (b : Bitmap) × (bitmap_create true true raw n ≡ some (some b)
        × (b.bit_cnt ≡ n × ((j : ℕ) → j < n → value_at b j ≡ false)))
unfolding bitmap_create
bitmap_create_lem raw n low =
    let (b, (e, (c, f))) = bitmap_set_all_lem raw n low in rw (bitmap_create, e) (b, (refl, (c, f)))

pub bitmap_create_in_buf_lem :
    (raw : ℕ → ℕ) (n block_size : ℕ)
    → n < 2 ^ 32
    → bitmap_buf_size n ≤ block_size
    → (b : Bitmap) × (bitmap_create_in_buf raw n block_size ≡ some b
        × (b.bit_cnt ≡ n × ((j : ℕ) → j < n → value_at b j ≡ false)))
unfolding bitmap_create_in_buf
bitmap_create_in_buf_lem raw n block_size low fits =
    let room : leb (bitmap_buf_size n) block_size ≡ true = ground (arith, fits) in
    rw (bitmap_create_in_buf, room) (bitmap_set_all_lem raw n low)

-- `bitmap_count` counts each bit of the range for one of the two values.
pub bitmap_count_both :
    (b : Bitmap) (start cnt : ℕ)
    → start + cnt ≤ b.bit_cnt
    → b.bit_cnt < 2 ^ 32
    → (set : ℕ) × ((clear : ℕ) × (bitmap_count b start cnt true ≡ some set
          × (bitmap_count b start cnt false ≡ some clear × set + clear ≡ cnt)))
bitmap_count_both b start cnt h low =
    rw (bitmap_count, in_range_lem b start cnt h low) (count_from_both cnt b start h)

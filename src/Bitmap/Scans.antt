-- ===== src/Bitmap/Scans.antt =====
-- The scan of bitmap.c for a group of equal bits.
use mathlib.Core.Bool.{true≢false}
use cse130_git.Prelude.{
  ℕ, zero, suc, ◌+◌, ◌-◌, ◌^◌, ◌≡◌, ◌≢◌, ◌≤◌, ◌<◌, ◌⊎◌, Option, some, Bool, true, false, not, leb,
  ◌==◌, arith, refl, sym, ◌∙◌, Bool-cases, inl, inr,
}
use cse130_git.Bitmap.Ops.{Bitmap, scan_from, bitmap_scan, bitmap_scan_and_flip, bitmap_error}
use cse130_git.Bitmap.Ranges.{
  Filled, AllAre, bitmap_contains_lem, bitmap_set_multiple_lem, from_first,
}

not-ne : (v : Bool) → not v ≢ v
not-ne true e = true≢false (sym e)
not-ne false e = true≢false e

not-not : (v : Bool) → not (not v) ≡ v
not-not true = refl
not-not false = refl

-- A group of equal bits at a place, and none at the places before it from a first one on; or none at all.
abbrev pub IsFirst : Bitmap → (start cnt : ℕ) → Bool → ℕ → Type 0
IsFirst b start cnt v idx =
    start ≤ idx × (AllAre b idx cnt v × ((k : ℕ) → start ≤ k → k < idx → ¬ AllAre b k cnt v))

abbrev Scanned : Bitmap → (start n cnt : ℕ) → Bool → Option ℕ → Type 0
Scanned b start n cnt v r =
    ((idx : ℕ) × (r ≡ some idx × (idx < start + n × IsFirst b start cnt v idx)))
    ⊎ (r ≡ some bitmap_error × ((k : ℕ) → start ≤ k → k < start + n → ¬ AllAre b k cnt v))

scan_from_lem :
    (n : ℕ) (b : Bitmap) (i cnt : ℕ) (v : Bool)
    → ((k : ℕ) → i ≤ k → k < i + n → k + cnt ≤ b.bit_cnt)
    → b.bit_cnt < 2 ^ 32
    → Scanned b i n cnt v (scan_from b i n cnt v)
unfolding scan_from
scan_from_lem zero b i cnt v h low = inr (refl, λ k l m. absurd (omega arith))
scan_from_lem (suc n) b i cnt v h low =
    elim (bitmap_contains_lem b i cnt (not v) (h i (omega arith) (omega arith)) low) [
      | inr (e, f) ↦
          rw (scan_from, e)
            (inl (
              i,
              (
                refl,
                (
                  omega arith,
                  (omega arith, (λ j l m. f j l m ∙ not-not v, λ k l m. absurd (omega arith))),
                ),
              ),
            ))
      | inl (e, (j, (l, (m, w)))) ↦
          rw (scan_from, e)
            (elim (scan_from_lem n b (i + 1) cnt v
              (λ k o p. h k (omega (arith, o)) (omega (arith, p))) low) [
                | inl (idx, (e', (in_time, (after, (all, first))))) ↦ inl (
                  idx,
                  (
                    e',
                    (
                      omega (arith, in_time),
                      (
                        omega (arith, after),
                        (
                          all,
                          from_first {P = λ k. ¬ AllAre b k cnt v} i idx
                              (λ a. not-ne v (sym w ∙ a j l m)) first,
                        ),
                      ),
                    ),
                  ),
                )
                | inr (e', f) ↦ inr (
                  e',
                  from_first {P = λ k. ¬ AllAre b k cnt v} i (i + suc n)
                      (λ a. not-ne v (sym w ∙ a j l m)) (λ k o p. f k o (omega (arith, p))),
                )
              ])
    ]

bitmap_scan_lem :
    (b : Bitmap) (start cnt : ℕ) (v : Bool)
    → start ≤ b.bit_cnt
    → b.bit_cnt < 2 ^ 32
    → ((idx : ℕ) × (bitmap_scan b start cnt v ≡ some idx
          × (idx + cnt ≤ b.bit_cnt × IsFirst b start cnt v idx)))
      ⊎ (bitmap_scan b start cnt v ≡ some bitmap_error
          × ((k : ℕ) → start ≤ k → k + cnt ≤ b.bit_cnt → ¬ AllAre b k cnt v))
unfolding bitmap_scan
bitmap_scan_lem b start cnt v h low =
    let room : leb start b.bit_cnt ≡ true = ground (arith, h) in
    elim (Bool-cases (leb cnt b.bit_cnt)) [
      | inr e ↦ rw (bitmap_scan, room, e) (inr (refl, λ k l m. absurd (ground (arith, e, m))))
      | inl e ↦
          let fits : cnt ≤ b.bit_cnt = ground (arith, e) in
          rw (bitmap_scan, room, e)
            (elim (scan_from_lem (b.bit_cnt - cnt + 1 - start) b start cnt v
              (λ k o p. omega (arith, o, p, fits)) low) [
                | inl (idx, (e', (in_time, first))) ↦
                    inl (idx, (e', (omega (arith, in_time, fits, first.0), first)))
                | inr (e', f) ↦ inr (e', λ k o p. f k o (omega (arith, o, p, fits)))
              ])
    ]

-- For a start in the bitmap, `bitmap_scan_and_flip` either finds the first group of `cnt` bits of the
-- value at or after the start, flips exactly these bits, and returns the group's place, or there is no such
-- group, and it returns BITMAP_ERROR and leaves the bitmap.
pub bitmap_scan_and_flip_lem :
    (b : Bitmap) (start cnt : ℕ) (v : Bool)
    → start ≤ b.bit_cnt
    → b.bit_cnt < 2 ^ 32 - 1
    → ((idx : ℕ) × ((b' : Bitmap) × (bitmap_scan_and_flip b start cnt v ≡ some (idx, b')
            × ((idx + cnt ≤ b.bit_cnt × IsFirst b start cnt v idx) × Filled b b' idx cnt (not v)))))
      ⊎ (bitmap_scan_and_flip b start cnt v ≡ some (bitmap_error, b)
          × ((k : ℕ) → start ≤ k → k + cnt ≤ b.bit_cnt → ¬ AllAre b k cnt v))
unfolding bitmap_scan_and_flip
bitmap_scan_and_flip_lem b start cnt v h low =
    elim (bitmap_scan_lem b start cnt v h (omega (arith, low))) [
      | inr (e, f) ↦ rw (bitmap_scan_and_flip, e) (inr (refl, f))
      | inl (idx, (e, (fits, first))) ↦
          let other : idx == bitmap_error ≡ false = ground (arith, fits, low) in
          let (b', (s, filled)) =
            bitmap_set_multiple_lem b idx cnt (not v) fits (omega (arith, low)) in
          rw (bitmap_scan_and_flip, e)
            (rw (other) (rw (s) (inl (idx, (b', (refl, ((fits, first), filled)))))))
    ]

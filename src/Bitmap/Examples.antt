-- ===== src/Bitmap/Examples.antt =====
-- A bitmap of eight bits.
use cse130_git.Prelude.{ℕ, ◌+◌, ◌≡◌, ◌≤◌, ◌⊎◌, some, true, false, refl, arith}
use cse130_git.Bitmap.Ops.{
  Bitmap, bitmap_scan_and_flip, bitmap_scan, scan_from, contains_from, bitmap_test, bitmap_error,
}
use cse130_git.Bitmap.Ranges.{AllAre, Filled}
use cse130_git.Bitmap.Scans.{IsFirst, bitmap_scan_and_flip_lem}

-- Bits 0 and 2 are set.
abbrev five : Bitmap
five = record { bit_cnt = 8; bits = λ i. 5 }

scan_five : bitmap_scan five 0 2 false ≡ some 3
unfolding bitmap_scan scan_from contains_from bitmap_test
scan_five = refl

-- With no bits to look for, the scan gives the start.
scan_nothing : bitmap_scan five 6 0 false ≡ some 6
unfolding bitmap_scan scan_from contains_from bitmap_test
scan_nothing = refl

bitmap_scan_and_flip_lem_example :
    ((idx : ℕ) × ((b' : Bitmap) × (bitmap_scan_and_flip five 0 2 false ≡ some (idx, b')
          × ((idx + 2 ≤ 8 × IsFirst five 0 2 false idx) × Filled five b' idx 2 true))))
    ⊎ (bitmap_scan_and_flip five 0 2 false ≡ some (bitmap_error, five)
        × ((k : ℕ) → 0 ≤ k → k + 2 ≤ 8 → ¬ AllAre five k 2 false))
bitmap_scan_and_flip_lem_example =
    bitmap_scan_and_flip_lem five 0 2 false (omega arith) (omega arith)

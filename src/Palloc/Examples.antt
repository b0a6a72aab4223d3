-- ===== src/Palloc/Examples.antt =====
-- Two pools of eight pages; in both the pages 0 and 2 are used.
use cse130_git.Prelude.{ℕ, ◌+◌, ◌≡◌, ◌⊎◌, ◌≤◌, ◌*◌, some, true, false, refl, arith}
use cse130_git.Bitmap.Ops.{
  Bitmap, bitmap_mark, bitmap_set, bitmap_scan_and_flip, bitmap_scan, scan_from, contains_from,
  bitmap_test, set_from,
}
use cse130_git.Bitmap.Ranges.{AllAre, Filled}
use cse130_git.Bitmap.Scans.{IsFirst}
use cse130_git.Palloc.{
  Flags, Machine, set_map, palloc_get_multiple, palloc_free_multiple, palloc_init,
}
use cse130_git.Palloc.Init.{Unused, palloc_init-IsMachine}
use cse130_git.Palloc.Pages.{IsMachine, cleared, palloc_get_multiple_lem}
use cse130_git.Palloc.Freed.{SamePages, palloc_free-get}

abbrev five : Bitmap
five = record { bit_cnt = 8; bits = λ i. 5 }

abbrev machine : Machine
machine = record {
  kernel_pool = record { used_map = five; base = 4096 };
  user_pool = record { used_map = five; base = 65536 };
  memory = λ a. 1;
}

machine-IsMachine : IsMachine machine
machine-IsMachine = (
  (omega arith, (omega arith, omega arith)),
  ((omega arith, (omega arith, omega arith)), omega arith),
)

abbrev user_page : Flags
user_page = record { pal_assert = false; pal_zero = false; pal_user = true }

abbrev with_page : Machine
with_page = set_map true (bitmap_mark five 1) machine

get_page : palloc_get_multiple user_page 1 machine ≡ some (69632, with_page)
unfolding palloc_get_multiple bitmap_scan_and_flip bitmap_scan scan_from contains_from bitmap_test
    set_from bitmap_set bitmap_mark
get_page = refl

palloc_free-get_example :
    (m : Machine) × (palloc_free_multiple 69632 1 with_page ≡ some m × SamePages machine m)
palloc_free-get_example =
    palloc_free-get user_page 1 machine with_page 69632 machine-IsMachine (omega arith) get_page
      (omega arith)

palloc_get_multiple_lem_example :
    ((idx : ℕ) × ((map : Bitmap) × (palloc_get_multiple user_page 2 machine
            ≡ some (
              65536 + 4096 * idx,
              cleared user_page 2 (65536 + 4096 * idx) (set_map true map machine),
            )
          × ((idx + 2 ≤ 8 × IsFirst five 0 2 false idx) × Filled five map idx 2 true))))
    ⊎ (palloc_get_multiple user_page 2 machine ≡ some (0, machine)
        × ((k : ℕ) → k + 2 ≤ 8 → ¬ AllAre five k 2 false))
palloc_get_multiple_lem_example =
    palloc_get_multiple_lem user_page 2 machine machine-IsMachine (omega arith)

abbrev raw : ℕ → ℕ
raw i = 9

palloc_init-IsMachine_example :
    (m : Machine) × (palloc_init 1024 raw raw raw 100 ≡ some m
      × (IsMachine m × (Unused m.kernel_pool × Unused m.user_pool)))
palloc_init-IsMachine_example =
    palloc_init-IsMachine 1024 raw raw raw 100 (omega arith) (omega arith) (omega arith)

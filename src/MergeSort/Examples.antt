-- ===== src/MergeSort/Examples.antt =====
-- An array of ten numbers in descending order.
use cse130_git.Prelude.{ℕ, ◌-◌, ◌≤◌, ◌≡◌, some, arith}
use cse130_git.MergeSort.Ranges.{Permutes}
use cse130_git.MergeSort.Merge.{Sorted}
use cse130_git.MergeSort.Sort.{multi_threaded_merge_sort}
use cse130_git.MergeSort.Process.{multi_process_merge_sort}
use cse130_git.MergeSort.Halves.{multi_process_lem}
use cse130_git.MergeSort.Multi.{multi_lem}
use cse130_git.MergeSort.Listed.{list_merge}

abbrev descending : ℕ → ℕ
descending i = 20 - i

multi_lem_example :
    (b : ℕ → ℕ) × (multi_threaded_merge_sort list_merge 10 descending 0 9 ≡ some b)
    × Sorted ◌≤◌ b 0 10
    × Permutes descending b 0 10
multi_lem_example =
    multi_lem list_merge 10 0 9 descending 10 (omega arith) (omega arith) (omega arith)

-- The shared memory is zeroed.
multi_process_lem_example :
    (b : ℕ → ℕ) × (multi_process_merge_sort list_merge 10 (λ i. 0) descending 0 9 ≡ some b)
    × Sorted ◌≤◌ b 0 10
    × Permutes descending b 0 10
multi_process_lem_example =
    multi_process_lem list_merge 10 (λ i. 0) descending 0 9 10 (omega arith) (omega arith)
      (omega arith)

-- ===== src/MergeSort/Process.antt =====
-- Assignment1/usort.c and psort.c: a child process sorts one half in shared memory.
use cse130_git.Prelude.{
  ℕ, ◌+◌, ◌-◌, ◌/◌, Option, none, some, true, false, ltb, leb, ◌&&◌, if◌then◌else◌,
}
use cse130_git.MergeSort.Merge.{MergeLib}
use cse130_git.MergeSort.Sort.{single_threaded_merge_sort}

module _ {A : Type 0} {le : A → A → Type 0} (M : MergeLib A le) where
  -- `singleProcessMergeSort` is `singleThreadedMergeSort` of sort.c, word for word.
  abbrev pub single_process_merge_sort : ℕ → (ℕ → A) → ℕ → ℕ → Option (ℕ → A)
  single_process_merge_sort = single_threaded_merge_sort M

  -- The copy into the shared memory, over what it holds at first.
  abbrev pub copy_out : (ℕ → A) → (ℕ → A) → ℕ → ℕ → ℕ → A
  copy_out arr shmem left rel_mid i = if ltb i rel_mid then arr (left + i) else shmem i

  -- The copy back into the array.
  abbrev pub copy_back : (ℕ → A) → (ℕ → A) → ℕ → ℕ → ℕ → A
  copy_back arr shmem left rel_mid j =
      if leb left j && ltb j (left + rel_mid) then shmem (j - left) else arr j

  -- After the early return: the child sorts the shared memory and exits, the parent sorts the other half
  -- of the array, waits for the child, copies back, and merges.
  unfoldable pub two_processes : ℕ → (shmem arr : ℕ → A) → ℕ → ℕ → Option (ℕ → A)
  two_processes fuel shmem arr left right =
      let rel_mid = (left + right) / 2 - left + 1 in
      let rel_right = 1 + (right - left) in
      elim (single_process_merge_sort fuel (copy_out arr shmem left rel_mid) 0 (rel_mid - 1)) [
        | none ↦ none
        | some shared ↦
            elim (single_process_merge_sort fuel arr (left + rel_mid) (left + rel_right - 1)) [
              | none ↦ none
              | some arr1 ↦
                  some
                    (M.merge (copy_back arr1 shared left rel_mid) left ((left + right) / 2) right)
            ]
      ]

  -- `multiProcessMergeSort` of usort.c.
  unfoldable pub multi_process_merge_sort : ℕ → (shmem arr : ℕ → A) → ℕ → ℕ → Option (ℕ → A)
  multi_process_merge_sort fuel shmem arr left right = elim (leb right left) [
    | true ↦ some arr
    | false ↦ two_processes fuel shmem arr left right
  ]

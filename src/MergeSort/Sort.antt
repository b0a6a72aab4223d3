-- ===== src/MergeSort/Sort.antt =====
-- `singleThreadedMergeSort` and `multiThreadedMergeSort`. A range is given by its first index and its
-- last, as in the source; the last is one below the first for an empty range.
use cse130_git.Prelude.{ℕ, zero, suc, ◌+◌, ◌-◌, ◌*◌, ◌/◌, Option, none, some, true, false, ltb, leb}
use cse130_git.MergeSort.Merge.{MergeLib}

module _ {A : Type 0} {le : A → A → Type 0} (M : MergeLib A le) where
  -- `none` is for too little fuel.
  unfoldable pub single_threaded_merge_sort : ℕ → (ℕ → A) → ℕ → ℕ → Option (ℕ → A)
  single_threaded_merge_sort zero arr left right = none
  single_threaded_merge_sort (suc fuel) arr left right = elim (ltb left right) [
    | false ↦ some arr
    | true ↦
        let middle = (left + right) / 2 in
        elim (single_threaded_merge_sort fuel arr left middle) [
          | none ↦ none
          | some arr1 ↦ elim (single_threaded_merge_sort fuel arr1 (middle + 1) right) [
            | none ↦ none
            | some arr2 ↦ some (M.merge arr2 left middle right)
          ]
        ]
  ]

  -- The three threads that `Test` runs in, for `i` of 0, 1 and 2.
  unfoldable pub sort_part : ℕ → (ℕ → A) → ℕ → ℕ → ℕ → Option (ℕ → A)
  sort_part fuel arr left base_num i =
      single_threaded_merge_sort fuel arr (left + i * base_num + i) (left + (i + 1) * base_num + i)

  -- The threads in one order; they work on ranges of their own. `Test2` and the first merge of the main
  -- thread do as well.
  unfoldable pub multi_threaded_merge_sort : ℕ → (ℕ → A) → ℕ → ℕ → Option (ℕ → A)
  multi_threaded_merge_sort fuel arr left right = elim (leb right (left + 4)) [
    | true ↦ single_threaded_merge_sort fuel arr left right
    | false ↦
        (let base_num = (right - left) / 4 in
          elim (sort_part fuel arr left base_num 0) [
            | none ↦ none
            | some arr0 ↦ elim (sort_part fuel arr0 left base_num 1) [
              | none ↦ none
              | some arr1 ↦ elim (sort_part fuel arr1 left base_num 2) [
                | none ↦ none
                | some arr2 ↦
                    elim (single_threaded_merge_sort fuel arr2 (left + 3 * base_num + 3) right) [
                      | none ↦ none
                      | some arr3 ↦
                          let right0 = left + 2 * base_num + 1 in
                          let arr4 = M.merge arr3 left ((left + right0) / 2) right0 in
                          let arr5 =
                            M.merge arr4 (left + base_num * 2 + 2) (left + base_num * 3 + 2)
                              right in
                          some (M.merge arr5 left right0 right)
                    ]
              ]
            ]
          ])
  ]

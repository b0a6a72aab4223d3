-- ===== src/MergeSort/Merge.antt =====
-- The function `merge` of merge.a, which comes without its source, as merge.h describes it.
use cse130_git.Prelude.{ℕ, ◌+◌, ◌≤◌, ◌<◌}
use cse130_git.MergeSort.Ranges.{Permutes}

-- The `n` elements from `l` on are in order.
abbrev pub Sorted : {A : Type 0} → (A → A → Type 0) → (ℕ → A) → ℕ → ℕ → Type 0
Sorted le a l n = (i j : ℕ) → l ≤ i → i < j → j < l + n → le (a i) (a j)

-- `merge (arr, left, middle, right)`: two sub-arrays in order, `[left .. middle]` and
-- `[middle + 1 .. right]`, become one. It rearranges the range, and touches nothing else.
pub record MergeLib (A : Type 0) (le : A → A → Type 0) : Type 0 where
  pub merge : (ℕ → A) → ℕ → ℕ → ℕ → ℕ → A
  pub merge-Permutes :
      (a : ℕ → A) (left m n : ℕ)
      → Permutes a (merge a left (left + m) (left + m + n)) left (m + n + 1)
  pub merge-Sorted :
      (a : ℕ → A) (left m n : ℕ)
      → Sorted le a left (m + 1)
      → Sorted le a (left + m + 1) n
      → Sorted le (merge a left (left + m) (left + m + n)) left (m + n + 1)

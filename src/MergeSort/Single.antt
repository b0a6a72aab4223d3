-- ===== src/MergeSort/Single.antt =====
-- `singleThreadedMergeSort` sorts its range.
use cse130_git.Prelude.{
  ℕ, zero, suc, ◌+◌, ◌-◌, ◌/◌, ◌≤◌, ◌<◌, ◌≡◌, refl, ◌⊎◌, inl, inr, Option, some, ltb, ltb→lt, arith,
  Bool-cases,
}
use cse130_git.MergeSort.Ranges.{Permutes, same-Permutes, trans-Permutes, within-Permutes}
use cse130_git.MergeSort.Merge.{MergeLib, Sorted}
use cse130_git.MergeSort.Sort.{single_threaded_merge_sort}

module _ {A : Type 0} (le : A → A → Type 0) where
  -- What was in order outside a rearranged range still is.
  pub frame-Sorted :
      (a b : ℕ → A) (l n l' n' : ℕ)
      → (l + n ≤ l') ⊎ (l' + n' ≤ l)
      → Permutes a b l' n'
      → Sorted le a l n
      → Sorted le b l n
  frame-Sorted a b l n l' n' apart f s i j x y z =
      rw
        (f.outside i (away i x (omega (arith, y, z))), f.outside j (away j (omega (arith, x, y)) z))
        (s i j x y z)
    where
      away : (k : ℕ) → l ≤ k → k < l + n → (k < l') ⊎ (l' + n' ≤ k)
      away k x y = elim apart [
        | inl q ↦ inl (omega (arith, x, y, q))
        | inr q ↦ inr (omega (arith, x, y, q))
      ]

  pub within-Sorted :
      (a : ℕ → A) (l n l' n' : ℕ) → l ≤ l' → l' + n' ≤ l + n → Sorted le a l n → Sorted le a l' n'
  within-Sorted a l n l' n' x y s i j p q r = s i j (omega (arith, x, p)) q (omega (arith, y, r))

  pub short-Sorted : (a : ℕ → A) (l n : ℕ) → n ≤ 1 → Sorted le a l n
  short-Sorted a l n x i j p q r = absurd (omega (arith, x, p, q, r))

  module _ (M : MergeLib A le) where
    -- `merge`, for a middle and a right end that are given by equations.
    pub merge_lem :
        (a : ℕ → A) (left middle right m n : ℕ)
        → middle ≡ left + m
        → right ≡ left + m + n
        → Sorted le a left (m + 1)
        → Sorted le a (left + m + 1) n
        → Sorted le (M.merge a left middle right) left (m + n + 1)
          × Permutes a (M.merge a left middle right) left (m + n + 1)
    merge_lem a left middle right m n e f s t =
        rw (e, f) (M.merge-Sorted a left m n s t, M.merge-Permutes a left m n)

    -- The result of a sort of the `n` elements from `left` on.
    abbrev pub Sorts : Option (ℕ → A) → (ℕ → A) → ℕ → ℕ → Type 0
    Sorts result a left n =
        (b : ℕ → A) × (result ≡ some b) × Sorted le b left n × Permutes a b left n

    halves_lem :
        (a a1 a2 : ℕ → A) (left right m q : ℕ)
        → (left + right) / 2 ≡ left + m
        → right ≡ left + m + (q + 1)
        → Sorted le a1 left (m + 1)
        → Permutes a a1 left (m + 1)
        → Sorted le a2 (left + m + 1) (q + 1)
        → Permutes a1 a2 (left + m + 1) (q + 1)
        → Sorted le (M.merge a2 left ((left + right) / 2) right) left (m + (q + 1) + 1)
          × Permutes a (M.merge a2 left ((left + right) / 2) right) left (m + (q + 1) + 1)
    halves_lem a a1 a2 left right m q e f s1 p1 s2 p2 =
        let (s, p) =
          merge_lem a2 left ((left + right) / 2) right m (q + 1) e f
            (frame-Sorted a1 a2 left (m + 1) (left + m + 1) (q + 1) (inl (omega arith)) p2 s1) s2 in
        (
          s,
          trans-Permutes a a2 (M.merge a2 left ((left + right) / 2) right) left (m + (q + 1) + 1)
              (trans-Permutes a a1 a2 left (m + (q + 1) + 1)
                (within-Permutes a a1 left (m + (q + 1) + 1) left (m + 1) (omega arith)
                  (omega arith) p1)
                (within-Permutes a1 a2 left (m + (q + 1) + 1) (left + m + 1) (q + 1) (omega arith)
                  (omega arith) p2))
              p,
        )

    -- With fuel for each element of the range, `singleThreadedMergeSort` ends, its range is in order, and
    -- it holds the same elements as before, and nothing outside the range changes.
    pub single_lem :
        (fuel : ℕ) (a : ℕ → A) (left right n : ℕ)
        → right + 1 ≡ left + n
        → n ≤ fuel
        → 1 ≤ fuel
        → (b : ℕ → A) × (single_threaded_merge_sort M fuel a left right ≡ some b)
          × Sorted le b left n
          × Permutes a b left n
    unfolding single_threaded_merge_sort
    single_lem zero a left right n e x y = absurd (omega (arith, y))
    single_lem (suc fuel) a left right n e x y = elim (Bool-cases (ltb left right)) [
      | inr f ↦ (
        a,
        rw (single_threaded_merge_sort, f) refl,
        short-Sorted a left n (ground (arith, e, f)),
        same-Permutes a left n,
      )
      | inl f ↦
          let below = ltb→lt left right f in
          let m : ℕ = (left + right) / 2 - left in
          let q : ℕ = right - (left + right) / 2 - 1 in
          let d : (left + right) / 2 ≡ left + m = omega (arith, below) in
          let g : right ≡ left + m + (q + 1) = omega (arith, below) in
          let (a1, e1, s1, p1) =
            single_lem fuel a left ((left + right) / 2) (m + 1) (omega (arith, d))
              (omega (arith, e, g, x)) (omega (arith, e, g, x)) in
          let (a2, e2, s2, p2) =
            single_lem fuel a1 ((left + right) / 2 + 1) right (q + 1) (omega (arith, d, g))
              (omega (arith, e, g, x)) (omega (arith, e, g, x)) in
          let (s, p) =
            halves_lem a a1 a2 left right m q d g s1 p1
              (within-Sorted a2 ((left + right) / 2 + 1) (q + 1) (left + m + 1) (q + 1)
                (omega (arith, d)) (omega (arith, d)) s2)
              (within-Permutes a1 a2 (left + m + 1) (q + 1) ((left + right) / 2 + 1) (q + 1)
                (omega (arith, d)) (omega (arith, d)) p2) in
          let sorted = M.merge a2 left ((left + right) / 2) right in
          (
            sorted,
            rw (single_threaded_merge_sort, f, e1, e2) refl,
            within-Sorted sorted left (m + (q + 1) + 1) left n (omega arith) (omega (arith, e, g))
                s,
            within-Permutes a sorted left n left (m + (q + 1) + 1) (omega arith)
                (omega (arith, e, g)) p,
          )
    ]

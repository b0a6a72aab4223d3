-- ===== src/MergeSort/Halves.antt =====
-- `multiProcessMergeSort` sorts its range, whatever the shared memory holds at first.
use cse130_git.Prelude.{
  ℕ, zero, suc, ◌+◌, ◌-◌, ◌/◌, ◌≤◌, ◌<◌, ◌≡◌, refl, sym, ap, ◌∙◌, ◌⊎◌, inl, inr, Option, some, Bool,
  leb, lt→ltb, leb→le, arith, Bool-cases,
}
use cse130_git.MergeSort.Ranges.{
  count_range, count_range-cong, Permutes, same-Permutes, trans-Permutes, within-Permutes,
}
use cse130_git.MergeSort.Merge.{MergeLib, Sorted}
use cse130_git.MergeSort.Process.{copy_out, copy_back, two_processes, multi_process_merge_sort}
use cse130_git.MergeSort.Sort.{single_threaded_merge_sort}
use cse130_git.MergeSort.Single.{within-Sorted, short-Sorted, merge_lem, single_lem}

module _ {A : Type 0} where
  count_shift :
      (p : A → Bool) (a b : ℕ → A) (s l n : ℕ)
      → ((i : ℕ) → i < n → b (s + i) ≡ a (l + i))
      → count_range p b s n ≡ count_range p a l n
  count_shift p a b s l zero h = refl
  count_shift p a b s l (suc n) h =
      let e : s + 0 ≡ s = omega arith in
      let f : l + 0 ≡ l = omega arith in
      let first : b s ≡ a l = rw (e, f) at (h 0 (omega arith)) in
      ground (arith, first, count_shift p a b (s + 1) (l + 1) n (λ i x. next i x))
    where
      next : (i : ℕ) → i < n → b (s + 1 + i) ≡ a (l + 1 + i)
      next i x =
          let e : s + suc i ≡ s + 1 + i = omega arith in
          let f : l + suc i ≡ l + 1 + i = omega arith in rw (e, f) at (h (suc i) (omega (arith, x)))

  module _ (le : A → A → Type 0) (M : MergeLib A le) (shmem a arr1 shared : ℕ → A)
      (left m k : ℕ) where
    -- The array after the copy back.
    abbrev back : ℕ → A
    back = copy_back M arr1 shared left m

    back_in : (j : ℕ) → left ≤ j → j < left + m → back j ≡ shared (j - left)
    back_in j x y = ground (arith, x, y)

    back_out : (j : ℕ) → (j < left) ⊎ (left + m ≤ j) → back j ≡ arr1 j
    back_out j x = ground (arith, x)

    back_at : (i : ℕ) → i < m → back (left + i) ≡ shared (0 + i)
    back_at i x =
        let e : left + i - left ≡ 0 + i = omega arith in
        back_in (left + i) (omega arith) (omega (arith, x)) ∙ ap shared e

    copied_at : (i : ℕ) → i < m → copy_out M a shmem left m (0 + i) ≡ a (left + i)
    copied_at i x = let e : 0 + i ≡ i = omega arith in rw (e, lt→ltb i m x) refl

    pub back_lem :
        Sorted le shared 0 m
        → Permutes (copy_out M a shmem left m) shared 0 m
        → Sorted le arr1 (left + m) k
        → Permutes a arr1 (left + m) k
        → Sorted le back left m × Sorted le back (left + m) k × Permutes a back left (m + k)
    back_lem s p t q = (
      front,
      rear,
      trans-Permutes a arr1 back left (m + k)
          (within-Permutes a arr1 left (m + k) (left + m) k (omega arith) (omega arith) q)
          (within-Permutes arr1 back left (m + k) left m (omega arith) (omega arith) copied),
    )
      where
        front : Sorted le back left m
        front i j x y z =
            rw (back_in i x (omega (arith, y, z)), back_in j (omega (arith, x, y)) z)
              (s (i - left) (j - left) (omega arith) (omega (arith, x, y)) (omega (arith, x, y, z)))

        rear : Sorted le back (left + m) k
        rear i j x y z =
            rw (back_out i (inr x), back_out j (inr (omega (arith, x, y)))) (t i j x y z)

        copied : Permutes arr1 back left m
        copied = record {
          counts = λ r.
              sym (count_shift r back shared 0 left m (λ i x. sym (back_at i x)))
              ∙ (p.counts r
                  ∙ (count_shift r a (copy_out M a shmem left m) 0 left m copied_at
                      ∙ count_range-cong r a arr1 left m (λ i x y. sym (q.outside i (inl y)))));
          outside = λ i h. back_out i h;
        }

module _ {A : Type 0} {le : A → A → Type 0} (M : MergeLib A le) (fuel : ℕ) (shmem a : ℕ → A)
    (left right : ℕ) where
  abbrev Sorts : Option (ℕ → A) → ℕ → Type 0
  Sorts result n = (b : ℕ → A) × (result ≡ some b) × Sorted le b left n × Permutes a b left n

  processes_run :
      (m : ℕ) (shared arr1 : ℕ → A)
      → (left + right) / 2 - left + 1 ≡ m
      → single_threaded_merge_sort M fuel (copy_out M a shmem left m) 0 (m - 1) ≡ some shared
      → single_threaded_merge_sort M fuel a (left + m) (left + (1 + (right - left)) - 1) ≡ some arr1
      → two_processes M fuel shmem a left right
        ≡ some (M.merge (copy_back M arr1 shared left m) left ((left + right) / 2) right)
  unfolding two_processes
  processes_run m shared arr1 em y z = rw (two_processes, em, y) (rw (em, z) (rw em refl))

  halves_from :
      (m k : ℕ)
      → (left + right) / 2 - left + 1 ≡ m
      → (left + right) / 2 ≡ left + (m - 1)
      → right + 1 ≡ left + (m + k)
      → left ≤ right
      → m + k ≤ fuel
      → Sorts (two_processes M fuel shmem a left right) (m + k)
  halves_from m k em mid len order enough =
      let (shared, y, s, p) =
        single_lem le M fuel (copy_out M a shmem left m) 0 (m - 1) m (omega (arith, em))
          (omega (arith, enough)) (omega (arith, enough, em)) in
      let (arr1, z, t, q) =
        single_lem le M fuel a (left + m) (left + (1 + (right - left)) - 1) k
          (omega (arith, len, order)) (omega (arith, enough)) (omega (arith, enough, em)) in
      let (u, v, w) = back_lem le M shmem a arr1 shared left m k s p t q in
      let back = copy_back M arr1 shared left m in
      let (merged, r) =
        merge_lem le M back left ((left + right) / 2) right (m - 1) k mid (omega (arith, len, em))
          (within-Sorted le back left m left (m - 1 + 1) (omega arith) (omega (arith, em)) u)
          (within-Sorted le back (left + m) k (left + (m - 1) + 1) k (omega (arith, em))
            (omega (arith, em)) v) in
      let sorted = M.merge back left ((left + right) / 2) right in
      (
        sorted,
        processes_run m shared arr1 em y z,
        within-Sorted le sorted left (m - 1 + k + 1) left (m + k) (omega arith) (omega (arith, em))
            merged,
        trans-Permutes a back sorted left (m + k) w (
            within-Permutes back sorted left (m + k) left (m - 1 + k + 1) (omega arith)
              (omega (arith, em)) r),
      )

  -- With fuel for each element of the range, `multiProcessMergeSort` ends, its range is in order, and it
  -- holds the same elements as before, and nothing outside the range changes, whatever the shared memory
  -- held at first.
  pub multi_process_lem :
      (n : ℕ)
      → right + 1 ≡ left + n
      → left ≤ right
      → n ≤ fuel
      → (b : ℕ → A) × (multi_process_merge_sort M fuel shmem a left right ≡ some b)
        × Sorted le b left n
        × Permutes a b left n
  unfolding multi_process_merge_sort
  multi_process_lem n len order enough = elim (Bool-cases (leb right left)) [
    | inl f ↦ (
      a,
      rw (multi_process_merge_sort, f) refl,
      short-Sorted le a left n (omega (arith, len, leb→le right left f)),
      same-Permutes a left n,
    )
    | inr f ↦
        let m = (left + right) / 2 - left + 1 in
        let k = n - m in
        let e : m + k ≡ n = omega (arith, len, order) in
        let (b, y, s, p) =
          halves_from m k refl (omega (arith, order)) (omega (arith, len, order)) order
            (omega (arith, len, order, enough)) in
        (
          b,
          rw (multi_process_merge_sort, f) y,
          within-Sorted le b left (m + k) left n (omega arith) (omega (arith, e)) s,
          within-Permutes a b left n left (m + k) (omega arith) (omega (arith, e)) p,
        )
  ]

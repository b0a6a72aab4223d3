-- ===== src/MergeSort/Multi.antt =====
-- `multiThreadedMergeSort` sorts its range.
use cse130_git.Prelude.{
  ℕ, ◌+◌, ◌-◌, ◌*◌, ◌/◌, ◌≤◌, ◌≡◌, refl, inl, inr, Option, some, false, leb, arith, Bool-cases,
}
use cse130_git.MergeSort.Ranges.{Permutes, trans-Permutes, within-Permutes}
use cse130_git.MergeSort.Merge.{MergeLib, Sorted}
use cse130_git.MergeSort.Sort.{single_threaded_merge_sort, sort_part, multi_threaded_merge_sort}
use cse130_git.MergeSort.Single.{frame-Sorted, within-Sorted, merge_lem, single_lem}

module _ {A : Type 0} {le : A → A → Type 0} (M : MergeLib A le) (fuel left right : ℕ) where
  -- The four parts of the range: `w` elements each, the last one with `z`.
  abbrev Parts : (ℕ → A) → ℕ → ℕ → Type 0
  Parts a w z =
      Sorted le a left w
      × Sorted le a (left + w) w
      × Sorted le a (left + w + w) w
      × Sorted le a (left + w + w + w) z

  -- The merges of neighbours, and of the halves, for a `base_num` of `b`.
  abbrev merges : (ℕ → A) → ℕ → ℕ → A
  merges a3 b =
      let right0 = left + 2 * b + 1 in
      let a4 = M.merge a3 left ((left + right0) / 2) right0 in
      let a5 = M.merge a4 (left + b * 2 + 2) (left + b * 3 + 2) right in
      M.merge a5 left right0 right

  merges_lem :
      (a3 : ℕ → A) (b w z : ℕ)
      → w ≡ b + 1
      → right + 1 ≡ left + w + w + w + z
      → Parts a3 w z
      → Sorted le (merges a3 b) left (w + w + w + z)
        × Permutes a3 (merges a3 b) left (w + w + w + z)
  merges_lem a3 b w z pos e (s0, s1, s2, s3) =
      let right0 = left + 2 * b + 1 in
      let a4 = M.merge a3 left ((left + right0) / 2) right0 in
      let start = left + b * 2 + 2 in
      let a5 = M.merge a4 start (left + b * 3 + 2) right in
      let a6 = M.merge a5 left right0 right in
      let (s4, p4) =
        merge_lem le M a3 left ((left + right0) / 2) right0 b w (omega (arith, pos))
          (omega (arith, pos))
          (within-Sorted le a3 left w left (b + 1) (omega arith) (omega (arith, pos)) s0)
          (within-Sorted le a3 (left + w) w (left + b + 1) w (omega (arith, pos))
            (omega (arith, pos)) s1) in
      let (s5, p5) =
        merge_lem le M a4 start (left + b * 3 + 2) right b z (omega arith) (omega (arith, pos, e))
          (within-Sorted le a4 (left + w + w) w start (b + 1) (omega (arith, pos))
            (omega (arith, pos))
            (frame-Sorted le a3 a4 (left + w + w) w left (b + w + 1) (inr (omega (arith, pos))) p4
              s2))
          (within-Sorted le a4 (left + w + w + w) z (start + b + 1) z (omega (arith, pos))
            (omega (arith, pos))
            (frame-Sorted le a3 a4 (left + w + w + w) z left (b + w + 1) (inr (omega (arith, pos)))
              p4 s3)) in
      let (s6, p6) =
        merge_lem le M a5 left right0 right (2 * b + 1) (w + z) (omega arith)
          (omega (arith, pos, e))
          (within-Sorted le a5 left (b + w + 1) left (2 * b + 1 + 1) (omega arith)
            (omega (arith, pos))
            (frame-Sorted le a4 a5 left (b + w + 1) start (b + z + 1) (inl (omega (arith, pos))) p5
              s4))
          (within-Sorted le a5 start (b + z + 1) (left + (2 * b + 1) + 1) (w + z)
            (omega (arith, pos)) (omega (arith, pos)) s5) in
      (
        within-Sorted le a6 left (2 * b + 1 + (w + z) + 1) left (w + w + w + z) (omega arith)
            (omega (arith, pos)) s6,
        trans-Permutes a3 a4 a6 left (w + w + w + z)
            (within-Permutes a3 a4 left (w + w + w + z) left (b + w + 1) (omega arith)
              (omega (arith, pos)) p4)
            (trans-Permutes a4 a5 a6 left (w + w + w + z)
              (within-Permutes a4 a5 left (w + w + w + z) start (b + z + 1) (omega arith)
                (omega (arith, pos)) p5)
              (within-Permutes a5 a6 left (w + w + w + z) left (2 * b + 1 + (w + z) + 1)
                (omega arith) (omega (arith, pos)) p6)),
      )

  -- One part is sorted, wherever its bounds are.
  part_lem :
      (a : ℕ → A) (i b w l : ℕ)
      → w ≤ fuel
      → 1 ≤ fuel
      → left + i * b + i ≡ l
      → left + (i + 1) * b + i + 1 ≡ l + w
      → (a' : ℕ → A) × (sort_part M fuel a left b i ≡ some a')
        × Sorted le a' l w
        × Permutes a a' l w
  unfolding sort_part
  part_lem a i b w l enough pos e f =
      let (a', y, s, p) =
        single_lem le M fuel a (left + i * b + i) (left + (i + 1) * b + i) w (omega (arith, e, f))
          enough pos in
      (
        a',
        y,
        within-Sorted le a' (left + i * b + i) w l w (omega (arith, e)) (omega (arith, e)) s,
        within-Permutes a a' l w (left + i * b + i) w (omega (arith, e)) (omega (arith, e)) p,
      )

  -- The parts, sorted one after the other, are in order at the end.
  parts_lem :
      (a a0 a1 a2 a3 : ℕ → A) (w z n : ℕ)
      → w + w + w + z ≡ n
      → Sorted le a0 left w
      → Permutes a a0 left w
      → Sorted le a1 (left + w) w
      → Permutes a0 a1 (left + w) w
      → Sorted le a2 (left + w + w) w
      → Permutes a1 a2 (left + w + w) w
      → Sorted le a3 (left + w + w + w) z
      → Permutes a2 a3 (left + w + w + w) z
      → Parts a3 w z × Permutes a a3 left n
  parts_lem a a0 a1 a2 a3 w z n e s0 p0 s1 p1 s2 p2 s3 p3 = (
    (
      frame-Sorted le a2 a3 left w (left + w + w + w) z (inl (omega arith)) p3 (
          frame-Sorted le a1 a2 left w (left + w + w) w (inl (omega arith)) p2
            (frame-Sorted le a0 a1 left w (left + w) w (inl (omega arith)) p1 s0)),
      frame-Sorted le a2 a3 (left + w) w (left + w + w + w) z (inl (omega arith)) p3
          (frame-Sorted le a1 a2 (left + w) w (left + w + w) w (inl (omega arith)) p2 s1),
      frame-Sorted le a2 a3 (left + w + w) w (left + w + w + w) z (inl (omega arith)) p3 s2,
      s3,
    ),
    trans-Permutes a a2 a3 left n
        (trans-Permutes a a1 a2 left n
          (trans-Permutes a a0 a1 left n
            (within-Permutes a a0 left n left w (omega arith) (omega (arith, e)) p0)
            (within-Permutes a0 a1 left n (left + w) w (omega arith) (omega (arith, e)) p1))
          (within-Permutes a1 a2 left n (left + w + w) w (omega arith) (omega (arith, e)) p2))
        (within-Permutes a2 a3 left n (left + w + w + w) z (omega arith) (omega (arith, e)) p3),
  )

  abbrev Sorts : Option (ℕ → A) → (ℕ → A) → ℕ → Type 0
  Sorts result a n = (b : ℕ → A) × (result ≡ some b) × Sorted le b left n × Permutes a b left n

  run_lem :
      (a a0 a1 a2 a3 : ℕ → A) (b : ℕ)
      → leb right (left + 4) ≡ false
      → (right - left) / 4 ≡ b
      → sort_part M fuel a left b 0 ≡ some a0
      → sort_part M fuel a0 left b 1 ≡ some a1
      → sort_part M fuel a1 left b 2 ≡ some a2
      → single_threaded_merge_sort M fuel a2 (left + 3 * b + 3) right ≡ some a3
      → multi_threaded_merge_sort M fuel a left right ≡ some (merges a3 b)
  unfolding multi_threaded_merge_sort
  run_lem a a0 a1 a2 a3 b far base y0 y1 y2 y3 =
      rw (multi_threaded_merge_sort, far)
        (rw (base, y0) (rw (base, y1) (rw (base, y2) (rw (base, y3) (rw base refl)))))

  four_threads :
      (a : ℕ → A) (b w z n : ℕ)
      → (right - left) / 4 ≡ b
      → w ≡ b + 1
      → right + 1 ≡ left + w + w + w + z
      → right + 1 ≡ left + n
      → n ≤ fuel
      → 1 ≤ fuel
      → leb right (left + 4) ≡ false
      → Sorts (multi_threaded_merge_sort M fuel a left right) a n
  four_threads a b w z n base we len e enough pos far =
      let (a0, y0, s0, p0) =
        part_lem a 0 b w left (omega (arith, len, e, enough)) pos (omega arith)
          (omega (arith, we)) in
      let (a1, y1, s1, p1) =
        part_lem a0 1 b w (left + w) (omega (arith, len, e, enough)) pos (omega (arith, we))
          (omega (arith, we)) in
      let (a2, y2, s2, p2) =
        part_lem a1 2 b w (left + w + w) (omega (arith, len, e, enough)) pos (omega (arith, we))
          (omega (arith, we)) in
      let (a3, y3, s3, p3) =
        single_lem le M fuel a2 (left + 3 * b + 3) right z (omega (arith, we, len))
          (omega (arith, len, e, enough)) pos in
      let (parts, p) =
        parts_lem a a0 a1 a2 a3 w z n (omega (arith, len, e)) s0 p0 s1 p1 s2 p2
          (within-Sorted le a3 (left + 3 * b + 3) z (left + w + w + w) z (omega (arith, we))
            (omega (arith, we)) s3)
          (within-Permutes a2 a3 (left + w + w + w) z (left + 3 * b + 3) z (omega (arith, we))
            (omega (arith, we)) p3) in
      let (s, q) = merges_lem a3 b w z we len parts in
      (
        merges a3 b,
        run_lem a a0 a1 a2 a3 b far base y0 y1 y2 y3,
        within-Sorted le (merges a3 b) left (w + w + w + z) left n (omega arith)
            (omega (arith, len, e)) s,
        trans-Permutes a a3 (merges a3 b) left n p (
            within-Permutes a3 (merges a3 b) left n left (w + w + w + z) (omega arith)
              (omega (arith, len, e)) q),
      )

  -- With fuel for each element of the range, `multiThreadedMergeSort` ends, its range is in order, and it
  -- holds the same elements as before, and nothing outside the range changes.
  pub multi_lem :
      (a : ℕ → A) (n : ℕ)
      → right + 1 ≡ left + n
      → n ≤ fuel
      → 1 ≤ fuel
      → (b : ℕ → A) × (multi_threaded_merge_sort M fuel a left right ≡ some b)
        × Sorted le b left n
        × Permutes a b left n
  unfolding multi_threaded_merge_sort
  multi_lem a n e enough pos = elim (Bool-cases (leb right (left + 4))) [
    | inl f ↦
        let (b, y, s, p) = single_lem le M fuel a left right n e enough pos in
        (b, rw (multi_threaded_merge_sort, f) y, s, p)
    | inr f ↦
        let far : left + 5 ≤ right = ground (arith, f) in
        four_threads a ((right - left) / 4) ((right - left) / 4 + 1)
          (right + 1 - (left + 3 * ((right - left) / 4 + 1))) n refl refl (omega (arith, far)) e
          enough pos f
  ]

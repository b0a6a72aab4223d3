-- ===== src/MergeSort/Listed.antt =====
-- A function that fills the place of `merge`: it sorts the whole range by insertion.
use cse130_git.Prelude.{
  ℕ, zero, suc, ◌+◌, ◌-◌, ◌≤◌, ◌<◌, ◌≡◌, refl, ◌∙◌, inl, inr, true, false, ltb, update, ◌==◌, arith,
  Bool-cases,
}
use cse130_git.MergeSort.Ranges.{
  count_range, Permutes, same-Permutes, trans-Permutes, within-Permutes,
}
use cse130_git.MergeSort.Merge.{MergeLib, Sorted}
use cse130_git.MergeSort.Single.{frame-Sorted, within-Sorted}

abbrev swap : (ℕ → ℕ) → ℕ → ℕ → ℕ
swap a l = update (update a l (a (l + 1))) (l + 1) (a l)

swap-Permutes : (a : ℕ → ℕ) (l : ℕ) → Permutes a (swap a l) l 2
swap-Permutes a l = record { counts = λ p. ground arith; outside = λ i h. ground (arith, h) }

-- The first element into the `n` ones behind it.
insert : (ℕ → ℕ) → ℕ → ℕ → ℕ → ℕ
insert a l zero = a
insert a l (suc n) = elim (ltb (a (l + 1)) (a l)) [ true ↦ insert (swap a l) (l + 1) n | false ↦ a ]

insert-Permutes : (a : ℕ → ℕ) (l n : ℕ) → Permutes a (insert a l n) l (n + 1)
unfolding insert
insert-Permutes a l zero = same-Permutes a l 1
insert-Permutes a l (suc n) = elim (Bool-cases (ltb (a (l + 1)) (a l))) [
  | inr f ↦ rw (insert, f) (same-Permutes a l (suc n + 1))
  | inl f ↦
      rw (insert, f)
        (trans-Permutes a (swap a l) (insert (swap a l) (l + 1) n) l (suc n + 1)
          (within-Permutes a (swap a l) l (suc n + 1) l 2 (omega arith) (omega arith)
            (swap-Permutes a l))
          (within-Permutes (swap a l) (insert (swap a l) (l + 1) n) l (suc n + 1) (l + 1) (n + 1)
            (omega arith) (omega arith) (insert-Permutes (swap a l) (l + 1) n)))
]

-- A range without small elements has none after a rearrangement.
no_small :
    (c : ℕ) (a : ℕ → ℕ) (l n : ℕ)
    → ((i : ℕ) → l ≤ i → i < l + n → c ≤ a i)
    → count_range (λ x. ltb x c) a l n ≡ 0
no_small c a l zero h = refl
no_small c a l (suc n) h = ground (
  arith,
  h l (omega arith) (omega arith),
  no_small c a (l + 1) n (λ i x y. h i (omega (arith, x)) (omega (arith, y))),
)

all_great :
    (c : ℕ) (a : ℕ → ℕ) (l n i : ℕ)
    → count_range (λ x. ltb x c) a l n ≡ 0
    → l ≤ i
    → i < l + n
    → c ≤ a i
all_great c a l zero i h x y = absurd (omega (arith, x, y))
all_great c a l (suc n) i h x y = elim (Bool-cases (l == i)) [
  | inl e ↦ ground (arith, h, e)
  | inr e ↦ all_great c a (l + 1) n i (ground (arith, h)) (ground (arith, e, x)) (omega (arith, y))
]

kept_great :
    (c : ℕ) (a b : ℕ → ℕ) (l n : ℕ)
    → Permutes a b l n
    → ((i : ℕ) → l ≤ i → i < l + n → c ≤ a i)
    → (i : ℕ) → l ≤ i
    → i < l + n
    → c ≤ b i
kept_great c a b l n p h i = all_great c b l n i (p.counts (λ x. ltb x c) ∙ no_small c a l n h)

swapped-Sorted :
    (a : ℕ → ℕ) (l n : ℕ) → Sorted ◌≤◌ a (l + 1) (suc n) → Sorted ◌≤◌ (swap a l) (l + 1 + 1) n
swapped-Sorted a l n s =
    frame-Sorted ◌≤◌ a (swap a l) (l + 1 + 1) n l 2 (inr (omega arith)) (swap-Permutes a l)
      (within-Sorted ◌≤◌ a (l + 1) (suc n) (l + 1 + 1) n (omega arith) (omega arith) s)

-- After a swap the first element is the least.
swapped_first :
    (a : ℕ → ℕ) (l n : ℕ)
    → Sorted ◌≤◌ a (l + 1) (suc n)
    → ltb (a (l + 1)) (a l) ≡ true
    → (j : ℕ) → l + 1 ≤ j
    → j < l + 1 + (n + 1)
    → a (l + 1) ≤ insert (swap a l) (l + 1) n j
swapped_first a l n s f =
    kept_great (a (l + 1)) (swap a l) (insert (swap a l) (l + 1) n) (l + 1) (n + 1)
      (insert-Permutes (swap a l) (l + 1) n)
      (λ i x y. elim (Bool-cases (i == l + 1)) [
        | inl e ↦ ground (arith, e, f)
        | inr e ↦
            ground
              (arith, e, x, s (l + 1) i (omega arith) (ground (arith, e, x)) (omega (arith, y)))
      ])

-- An element below all behind it, before a range in order.
cons-Sorted :
    (a : ℕ → ℕ) (l n : ℕ)
    → ((j : ℕ) → l + 1 ≤ j → j < l + 1 + n → a l ≤ a j)
    → Sorted ◌≤◌ a (l + 1) n
    → Sorted ◌≤◌ a l (n + 1)
cons-Sorted a l n below s = λ i j x y z. elim (Bool-cases (i == l)) [
  | inl e ↦ ground (arith, e, below j (ground (arith, e, y)) (omega (arith, z)))
  | inr e ↦ s i j (ground (arith, e, x)) y (omega (arith, z))
]

first_below :
    (a : ℕ → ℕ) (l n : ℕ)
    → Sorted ◌≤◌ a (l + 1) (suc n)
    → ltb (a (l + 1)) (a l) ≡ false
    → (j : ℕ) → l + 1 ≤ j
    → j < l + 1 + suc n
    → a l ≤ a j
first_below a l n s f j x y = elim (Bool-cases (j == l + 1)) [
  | inl g ↦ ground (arith, f, g)
  | inr g ↦ ground (arith, f, s (l + 1) j (omega arith) (ground (arith, x, g)) y)
]

insert-Sorted : (a : ℕ → ℕ) (l n : ℕ) → Sorted ◌≤◌ a (l + 1) n → Sorted ◌≤◌ (insert a l n) l (n + 1)
unfolding insert
insert-Sorted a l zero s = λ i j x y z. absurd (omega (arith, x, y, z))
insert-Sorted a l (suc n) s = elim (Bool-cases (ltb (a (l + 1)) (a l))) [
  | inr f ↦ rw (insert, f) (cons-Sorted a l (suc n) (first_below a l n s f) s)
  | inl f ↦
      let b = insert (swap a l) (l + 1) n in
      let same : b l ≡ a (l + 1) =
        (insert-Permutes (swap a l) (l + 1) n).outside l (inl (omega arith)) ∙ ground arith in
      let sorted : Sorted ◌≤◌ b (l + 1) (n + 1) =
        insert-Sorted (swap a l) (l + 1) n (swapped-Sorted a l n s) in
      let all : Sorted ◌≤◌ b l (n + 1 + 1) =
        cons-Sorted b l (n + 1) (λ j x y. omega (arith, same, swapped_first a l n s f j x y))
          sorted in
      rw (insert, f)
        (within-Sorted ◌≤◌ b l (n + 1 + 1) l (suc n + 1) (omega arith) (omega arith) all)
]

isort : (ℕ → ℕ) → ℕ → ℕ → ℕ → ℕ
isort a l zero = a
isort a l (suc n) = insert (isort a (l + 1) n) l n

isort-Permutes : (a : ℕ → ℕ) (l n : ℕ) → Permutes a (isort a l n) l n
unfolding isort
isort-Permutes a l zero = same-Permutes a l 0
isort-Permutes a l (suc n) =
    trans-Permutes a (isort a (l + 1) n) (insert (isort a (l + 1) n) l n) l (suc n)
      (within-Permutes a (isort a (l + 1) n) l (suc n) (l + 1) n (omega arith) (omega arith)
        (isort-Permutes a (l + 1) n))
      (within-Permutes (isort a (l + 1) n) (insert (isort a (l + 1) n) l n) l (suc n) l (n + 1)
        (omega arith) (omega arith) (insert-Permutes (isort a (l + 1) n) l n))

isort-Sorted : (a : ℕ → ℕ) (l n : ℕ) → Sorted ◌≤◌ (isort a l n) l n
unfolding isort
isort-Sorted a l zero = λ i j x y z. absurd (omega (arith, x, y, z))
isort-Sorted a l (suc n) =
    within-Sorted ◌≤◌ (isort a l (suc n)) l (n + 1) l (suc n) (omega arith) (omega arith)
      (insert-Sorted (isort a (l + 1) n) l n (isort-Sorted a (l + 1) n))

pub list_merge : MergeLib ℕ ◌≤◌
list_merge = record {
  merge = λ a left middle right. isort a left (right + 1 - left);
  merge-Permutes = λ a left m n.
      let e : left + m + n + 1 - left ≡ m + n + 1 = omega arith in
      rw e (isort-Permutes a left (m + n + 1));
  merge-Sorted = λ a left m n s t.
      let e : left + m + n + 1 - left ≡ m + n + 1 = omega arith in
      rw e (isort-Sorted a left (m + n + 1));
}

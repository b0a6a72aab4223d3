-- ===== src/Queue/Listed.antt =====
-- A queue library that keeps the promises of queue.h: lists, sorted by insertion.
use cse130_git.Prelude.{
  ℕ, ◌≤◌, ◌≡◌, refl, true, false, ◌++◌, [], ◌∷◌, List, ℤ, nonpos, leb, if◌then◌else◌, length, head?,
  tail, All, All-map, SameItems, Ascending, Bool-cases, inl, inr, arith,
}
use cse130_git.Queue.{QueueLib}

module _ {A : Type 0} where
  insert : (A → A → ℤ) → A → List A → List A
  insert c a [] = a ∷ []
  insert c a (x ∷ xs) = if nonpos (c a x) then a ∷ x ∷ xs else x ∷ insert c a xs

  unfoldable pub insertion_sort : List A → (A → A → ℤ) → List A
  unfolding insert
  insertion_sort [] c = []
  insertion_sort (x ∷ xs) c = insert c x (insertion_sort xs c)

  insert-SameItems : (c : A → A → ℤ) (a : A) (xs : List A) → SameItems (insert c a xs) (a ∷ xs)
  unfolding insert
  insert-SameItems c a [] p = refl
  insert-SameItems c a (x ∷ xs) p = elim (Bool-cases (nonpos (c a x))) [
    | inl e ↦ ground arith
    | inr e ↦ ground (arith, insert-SameItems c a xs p)
  ]

  pub insertion_sort-SameItems : (xs : List A) (c : A → A → ℤ) → SameItems (insertion_sort xs c) xs
  unfolding insertion_sort
  insertion_sort-SameItems [] c p = refl
  insertion_sort-SameItems (x ∷ xs) c p =
      omega (arith, insert-SameItems c x (insertion_sort xs c) p, insertion_sort-SameItems xs c p)

  insert-All :
      (c : A → A → ℤ) (P : A → Type 0) (a : A) (xs : List A)
      → P a
      → All P xs
      → All P (insert c a xs)
  unfolding insert
  insert-All c P a [] h hs = (h, tt)
  insert-All c P a (x ∷ xs) h hs =
      elim (nonpos (c a x)) as (λ b. All P (if b then a ∷ x ∷ xs else x ∷ insert c a xs)) [
        | true ↦ (h, hs)
        | false ↦ (hs.0, insert-All c P a xs h hs.1)
      ]

  pub insertion_sort-All :
      (xs : List A) (c : A → A → ℤ) (P : A → Type 0) → All P xs → All P (insertion_sort xs c)
  unfolding insertion_sort
  insertion_sort-All [] c P h = tt
  insertion_sort-All (x ∷ xs) c P h =
      insert-All c P x (insertion_sort xs c) h.0 (insertion_sort-All xs c P h.1)

  module _ (c : A → A → ℤ) (rank : A → ℕ) (P : A → Type 0)
      (ranked : (a b : A) → P a → P b → nonpos (c a b) ≡ leb (rank a) (rank b)) where
    insert-Ascending :
        (a : A) (xs : List A) → P a → All P xs → Ascending rank xs → Ascending rank (insert c a xs)
    unfolding insert
    insert-Ascending a [] h hs s = (tt, tt)
    insert-Ascending a (x ∷ xs) h hs s = elim (Bool-cases (nonpos (c a x))) [
      | inl e ↦
          let below : rank a ≤ rank x = ground (arith, ranked a x h hs.0) in
          rw e ((below, All-map xs (λ y (le : rank x ≤ rank y). omega arith) s.0), s)
      | inr e ↦
          let above : rank x ≤ rank a = ground (arith, ranked a x h hs.0) in
          rw e
            (insert-All c (λ y. rank x ≤ rank y) a xs above s.0, insert-Ascending a xs h hs.1 s.1)
    ]

    pub insertion_sort-Ascending : (xs : List A) → All P xs → Ascending rank (insertion_sort xs c)
    unfolding insertion_sort
    insertion_sort-Ascending [] h = tt
    insertion_sort-Ascending (x ∷ xs) h =
        insert-Ascending x (insertion_sort xs c) h.0 (insertion_sort-All xs c P h.1)
          (insertion_sort-Ascending xs h.1)

-- The library over lists.
abbrev pub list_queue : (A : Type 0) → QueueLib A
list_queue A = record {
  Queue = List A;
  queue_create = [];
  queue_enqueue = λ q a. q ++ a ∷ [];
  queue_dequeue = λ q. (head? q, tail q);
  queue_head = head?;
  queue_size = length;
  queue_sort = insertion_sort;
  items = λ q. q;
  items-create = refl;
  items-enqueue = λ q a. refl;
  dequeue-head = λ q. refl;
  items-dequeue = λ q. refl;
  head_lem = λ q. refl;
  size_lem = λ q. refl;
  sort-SameItems = insertion_sort-SameItems;
  sort-All = insertion_sort-All;
  sort-Ascending = λ q c rank P ranked. insertion_sort-Ascending c rank P ranked q;
}

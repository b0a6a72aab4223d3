-- ===== src/Kernel/Ordered.antt =====
-- `insert_ordered_thread_priority` of thread.c, on the list that its loop walks.
use mathlib.Core.List.{append-nil}
use cse130_git.Prelude.{
  ℕ, ◌≤◌, ◌<◌, ◌≡◌, ◌≢◌, refl, sym, List, [], ◌∷◌, ◌++◌, ltb, ◌==◌, if◌then◌else◌, All, Bool-cases,
  ltb→lt, inl, inr, SameItems, arith,
}

-- The thread goes before the first one with a smaller priority.
abbrev pub insert_ordered_thread_priority : (ℕ → ℕ) → List ℕ → ℕ → List ℕ
insert_ordered_thread_priority priority [] t = t ∷ []
insert_ordered_thread_priority priority (x ∷ xs) t =
    let rest = insert_ordered_thread_priority priority xs t in
    if ltb (priority x) (priority t) then t ∷ x ∷ xs else x ∷ rest

-- The highest priority first.
abbrev pub Descending : (ℕ → ℕ) → List ℕ → Type 0
Descending priority [] = Unit
Descending priority (x ∷ xs) = All (λ y. priority y ≤ priority x) xs × Descending priority xs

abbrev pub Distinct : List ℕ → Type 0
Distinct [] = Unit
Distinct (x ∷ xs) = All (λ y. y ≢ x) xs × Distinct xs

-- The threads of one priority, in the order of the list.
abbrev pub of_priority : (ℕ → ℕ) → ℕ → List ℕ → List ℕ
of_priority priority p [] = []
of_priority priority p (x ∷ xs) =
    let rest = of_priority priority p xs in if priority x == p then x ∷ rest else rest

module _ {ℓ} {P : ℕ → Type ℓ} where
  pub All-imp {κ} : {Q : ℕ → Type κ} (xs : List ℕ) → ((x : ℕ) → P x → Q x) → All P xs → All Q xs
  All-imp [] f h = tt
  All-imp (x ∷ xs) f h = (f x h.0, All-imp xs f h.1)

  pub All-both {κ μ} :
      {Q : ℕ → Type κ} {R : ℕ → Type μ} (xs : List ℕ)
      → ((x : ℕ) → P x → Q x → R x)
      → All P xs
      → All Q xs
      → All R xs
  All-both [] f h g = tt
  All-both (x ∷ xs) f h g = (f x h.0 g.0, All-both xs f h.1 g.1)

module _ (priority : ℕ → ℕ) (t : ℕ) where
  pub insert-All {ℓ} :
      (P : ℕ → Type ℓ) (xs : List ℕ)
      → P t
      → All P xs
      → All P (insert_ordered_thread_priority priority xs t)
  insert-All P [] p h = (p, tt)
  insert-All P (x ∷ xs) p h = elim (Bool-cases (ltb (priority x) (priority t))) [
    | inl e ↦ rw e (p, h)
    | inr e ↦ rw e (h.0, insert-All P xs p h.1)
  ]

  pub insert-SameItems :
      (xs : List ℕ) → SameItems (insert_ordered_thread_priority priority xs t) (t ∷ xs)
  insert-SameItems [] p = refl
  insert-SameItems (x ∷ xs) p = ground (arith, insert-SameItems xs p)

  pub insert-Distinct :
      (xs : List ℕ)
      → All (λ y. y ≢ t) xs
      → Distinct xs
      → Distinct (insert_ordered_thread_priority priority xs t)
  insert-Distinct [] n h = (tt, tt)
  insert-Distinct (x ∷ xs) n h = elim (Bool-cases (ltb (priority x) (priority t))) [
    | inl e ↦ rw e (n, h)
    | inr e ↦ rw e (insert-All (λ y. y ≢ x) xs (λ q. n.0 (sym q)) h.0, insert-Distinct xs n.1 h.1)
  ]

  pub insert-Descending :
      (xs : List ℕ)
      → Descending priority xs
      → Descending priority (insert_ordered_thread_priority priority xs t)
  insert-Descending [] h = (tt, tt)
  insert-Descending (x ∷ xs) h = elim (Bool-cases (ltb (priority x) (priority t))) [
    | inl e ↦ rw e (
      (
        omega (arith, ltb→lt (priority x) (priority t) e),
        All-imp xs (λ y l. omega (arith, l, ltb→lt (priority x) (priority t) e)) h.0,
      ),
      h,
    )
    | inr e ↦ rw e (
      insert-All (λ y. priority y ≤ priority x) xs (ground (arith, e)) h.0,
      insert-Descending xs h.1,
    )
  ]

  of_priority-none :
      (p : ℕ) (xs : List ℕ) → All (λ y. priority y < p) xs → of_priority priority p xs ≡ []
  of_priority-none p [] h = refl
  of_priority-none p (x ∷ xs) h = ground (arith, of_priority-none p xs h.1)

  -- Among threads of its own priority it comes last, and the others keep their order.
  pub insert-of_priority :
      (p : ℕ) (xs : List ℕ)
      → Descending priority xs
      → of_priority priority p (insert_ordered_thread_priority priority xs t)
        ≡ of_priority priority p xs ++ (if priority t == p then t ∷ [] else [])
  insert-of_priority p [] h = ground arith
  insert-of_priority p (x ∷ xs) h = elim (Bool-cases (ltb (priority x) (priority t))) [
    | inl e ↦ elim (Bool-cases (priority t == p)) [
      | inl f ↦
          let small : All (λ y. priority y < p) (x ∷ xs) =
            (ground arith, All-imp xs (λ y l. ground arith) h.0) in
          rw (e, f, of_priority-none p (x ∷ xs) small) refl
      | inr f ↦ rw (e, f) (sym (append-nil (of_priority priority p (x ∷ xs))))
    ]
    | inr e ↦ ground (arith, insert-of_priority p xs h.1)
  ]

-- The order depends on the members' priorities only.
pub Descending-cong :
    (f g : ℕ → ℕ) (xs : List ℕ) → All (λ t. f t ≡ g t) xs → Descending f xs → Descending g xs
Descending-cong f g [] e h = tt
Descending-cong f g (x ∷ xs) e h =
    (All-both xs (λ y a b. omega (arith, a, b, e.0)) e.1 h.0, Descending-cong f g xs e.1 h.1)

-- ===== src/Queue.antt =====
-- The queue library that Assignment4/queue.h and Assignment5/queue.h document (queue.a, delivered
-- without its source): a parameter of the scheduler's and the pager's models. A queue of pointers
-- to structures that nothing else points to is a queue of the structures.
pub mod Listed
use cse130_git.Prelude.{
  ℕ, ◌≡◌, ◌++◌, [], ◌∷◌, List, Option, ℤ, Bool, leb, nonpos, length, head?, tail, All, SameItems,
  Ascending,
}

pub record QueueLib (A : Type 0) : Type 1 where
  pub Queue : Type 0
  pub queue_create : Queue
  pub queue_enqueue : Queue → A → Queue
  -- `none` is NULL.
  pub queue_dequeue : Queue → Option A × Queue
  pub queue_head : Queue → Option A
  pub queue_size : Queue → ℕ
  pub queue_sort : Queue → (A → A → ℤ) → Queue
  -- What a queue holds, head first.
  pub items : Queue → List A
  pub items-create : items queue_create ≡ []
  pub items-enqueue : (q : Queue) (a : A) → items (queue_enqueue q a) ≡ items q ++ a ∷ []
  pub dequeue-head : (q : Queue) → (queue_dequeue q).0 ≡ head? (items q)
  pub items-dequeue : (q : Queue) → items (queue_dequeue q).1 ≡ tail (items q)
  pub head_lem : (q : Queue) → queue_head q ≡ head? (items q)
  pub size_lem : (q : Queue) → queue_size q ≡ length (items q)
  pub sort-SameItems : (q : Queue) (c : A → A → ℤ) → SameItems (items (queue_sort q c)) (items q)
  pub sort-All :
      (q : Queue) (c : A → A → ℤ) (P : A → Type 0)
      → All P (items q)
      → All P (items (queue_sort q c))
  -- A comparator that compares the elements by a rank sorts them by it.
  pub sort-Ascending :
      (q : Queue) (c : A → A → ℤ) (rank : A → ℕ) (P : A → Type 0)
      → ((a b : A) → P a → P b → nonpos (c a b) ≡ leb (rank a) (rank b))
      → All P (items q)
      → Ascending rank (items (queue_sort q c))

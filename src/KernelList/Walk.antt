-- ===== src/KernelList/Walk.antt =====
-- The loops of list.c that walk a list: they end, and find what a walk over its elements finds.
use mathlib.Core.List.{append-nil}
use cse130_git.Prelude.{
  ℕ, zero, suc, ◌+◌, ◌<◌, ◌≡◌, ◌≢◌, refl, ap, sym, ◌∙◌, some, List, [], ◌∷◌, ◌++◌, length,
  if◌then◌else◌, arith,
}
use cse130_git.KernelList.Links.{Heap, KList}
use cse130_git.KernelList.Ops.{
  list_next, list_insert, list_size, count_from, LessFunc, find_place, list_insert_ordered,
  max_from, list_max, min_from, list_min,
}
use cse130_git.KernelList.Chain.{Chain, Distinct, NotIn, Holds, append-All}
use cse130_git.KernelList.Lists.{IsFresh, head_of, list_insert_lem, list_push_back_lem}

pub Chain-begin :
    (h : Heap) (x t : ℕ) (ys : List ℕ) → Chain h x (ys ++ t ∷ []) → h.next x ≡ some (head_of ys t)
Chain-begin h x t [] c = c.0
Chain-begin h x t (y ∷ ys) c = c.0

Chain-next :
    (h : Heap) (x y t : ℕ) (ys : List ℕ)
    → Chain h x (y ∷ ys ++ t ∷ [])
    → list_next h y ≡ some (head_of ys t)
Chain-next h x y t ys c = ground (arith, c.1, Chain-begin h y t ys c.2)

-- The elements of a list are not its tail.
pub not_tail : (h : Heap) (l : KList) (xs : List ℕ) → Holds h l xs → NotIn l.tail xs
not_tail h l xs s = go xs (s.distinct.1)
  where
    go : (ys : List ℕ) → Distinct (ys ++ l.tail ∷ []) → NotIn l.tail ys
    go [] d = tt
    go (y ∷ ys) d = ((λ e. (append-All (λ z. z ≢ y) ys (l.tail ∷ []) d.0).1.0 (sym e)), go ys d.1)

module _ (h : Heap) (l : KList) where
  count_lem :
      (fuel x cnt : ℕ) (ys : List ℕ)
      → Chain h x (ys ++ l.tail ∷ [])
      → NotIn l.tail ys
      → length ys < fuel
      → count_from fuel h l (some (head_of ys l.tail)) cnt ≡ some (cnt + length ys)
  count_lem zero x cnt ys c n b = absurd (omega (arith, b))
  count_lem (suc fuel) x cnt [] c n b = ground arith
  count_lem (suc fuel) x cnt (y ∷ ys) c n b =
      rw (Chain-next h x y l.tail ys c)
        (ground (arith, n.0, count_lem fuel y (cnt + 1) ys c.2 n.1 (omega (arith, b))))

  -- `list_size` ends, and is the number of elements.
  pub list_size_lem :
      (xs : List ℕ) (fuel : ℕ)
      → Holds h l xs
      → length xs < fuel
      → list_size fuel h l ≡ some (length xs)
  list_size_lem xs fuel s b =
      rw (Chain-begin h l.head l.tail xs s.chain)
        (count_lem fuel l.head 0 xs s.chain (not_tail h l xs s) b ∙ ap some (omega arith))

  module _ (less : LessFunc) (elem : ℕ) where
    -- The list with the element before the first one that it is less than.
    abbrev pub ordered_insert : List ℕ → List ℕ
    ordered_insert [] = elem ∷ []
    ordered_insert (x ∷ xs) =
        let rest = ordered_insert xs in if less elem x then elem ∷ x ∷ xs else x ∷ rest

    -- The list up to that element, and from it on.
    abbrev stays : List ℕ → List ℕ
    stays [] = []
    stays (x ∷ xs) = let rest = stays xs in if less elem x then [] else x ∷ rest

    abbrev goes : List ℕ → List ℕ
    goes [] = []
    goes (x ∷ xs) = let rest = goes xs in if less elem x then x ∷ xs else rest

    stays-goes : (xs : List ℕ) → stays xs ++ goes xs ≡ xs
    stays-goes [] = refl
    stays-goes (x ∷ xs) = ground (arith, stays-goes xs)

    ordered_insert-stays : (xs : List ℕ) → ordered_insert xs ≡ stays xs ++ elem ∷ goes xs
    ordered_insert-stays [] = refl
    ordered_insert-stays (x ∷ xs) = ground (arith, ordered_insert-stays xs)

    find_lem :
        (fuel x : ℕ) (ys : List ℕ)
        → Chain h x (ys ++ l.tail ∷ [])
        → NotIn l.tail ys
        → length ys < fuel
        → find_place fuel h l less elem (some (head_of ys l.tail)) ≡ some (head_of (goes ys) l.tail)
    find_lem zero x ys c n b = absurd (omega (arith, b))
    find_lem (suc fuel) x [] c n b = ground arith
    find_lem (suc fuel) x (y ∷ ys) c n b =
        rw (Chain-next h x y l.tail ys c)
          (ground (arith, n.0, find_lem fuel y ys c.2 n.1 (omega (arith, b))))

    place_at :
        (xs ys : List ℕ)
        → Holds h l (xs ++ ys)
        → IsFresh l (xs ++ ys) elem
        → (h' : Heap) × (list_insert h (head_of ys l.tail) elem ≡ some h')
          × Holds h' l (xs ++ elem ∷ ys)
    place_at xs [] s f =
        list_push_back_lem h l xs elem (rw⁻¹ (append-nil xs) s) (rw⁻¹ (append-nil xs) f)
    place_at xs (y ∷ ys) s f = list_insert_lem h l xs y ys elem s f

    -- `list_insert_ordered` ends, and puts the new element before the first one that it is less than.
    pub list_insert_ordered_lem :
        (xs : List ℕ) (fuel : ℕ)
        → Holds h l xs
        → IsFresh l xs elem
        → length xs < fuel
        → (h' : Heap) × (list_insert_ordered fuel h l elem less ≡ some h')
          × Holds h' l (ordered_insert xs)
    list_insert_ordered_lem xs fuel s f b =
        let (h', y, t) =
          place_at (stays xs) (goes xs) (rw (stays-goes xs) s) (rw (stays-goes xs) f) in
        (
          h',
          rw
              (
                list_insert_ordered,
                Chain-begin h l.head l.tail xs s.chain,
                find_lem fuel l.head xs s.chain (not_tail h l xs s) b,
              )
              y,
          rw (ordered_insert-stays xs) t,
        )

  -- The first of the greatest elements, from `m` on.
  abbrev pub greatest : LessFunc → ℕ → List ℕ → ℕ
  greatest less m [] = m
  greatest less m (x ∷ xs) = greatest less (if less m x then x else m) xs

  max_lem :
      (less : LessFunc) (fuel x m : ℕ) (ys : List ℕ)
      → Chain h x (ys ++ l.tail ∷ [])
      → NotIn l.tail ys
      → length ys < fuel
      → max_from fuel h l less m (some (head_of ys l.tail)) ≡ some (greatest less m ys)
  max_lem less zero x m ys c n b = absurd (omega (arith, b))
  max_lem less (suc fuel) x m [] c n b = ground arith
  max_lem less (suc fuel) x m (y ∷ ys) c n b = rw (Chain-next h x y l.tail ys c) (
      ground
        (arith, n.0, max_lem less fuel y (if less m y then y else m) ys c.2 n.1 (omega (arith, b))))

  -- `list_max` ends, and finds in a list that is not empty the element that a walk over its elements
  -- keeps, which changes to a greater one only.
  pub list_max_lem :
      (less : LessFunc) (x : ℕ) (xs : List ℕ) (fuel : ℕ)
      → Holds h l (x ∷ xs)
      → length xs < fuel
      → list_max fuel h l less ≡ some (greatest less x xs)
  list_max_lem less x xs fuel s b =
      rw (list_max, s.chain.0, Chain-next h l.head x l.tail xs s.chain)
        (ground (
          arith,
          (not_tail h l (x ∷ xs) s).0,
          max_lem less fuel x x xs s.chain.2 (not_tail h l (x ∷ xs) s).1 b,
        ))

  -- The first of the least elements, from `m` on.
  abbrev pub least : LessFunc → ℕ → List ℕ → ℕ
  least less m [] = m
  least less m (x ∷ xs) = least less (if less x m then x else m) xs

  min_lem :
      (less : LessFunc) (fuel x m : ℕ) (ys : List ℕ)
      → Chain h x (ys ++ l.tail ∷ [])
      → NotIn l.tail ys
      → length ys < fuel
      → min_from fuel h l less m (some (head_of ys l.tail)) ≡ some (least less m ys)
  min_lem less zero x m ys c n b = absurd (omega (arith, b))
  min_lem less (suc fuel) x m [] c n b = ground arith
  min_lem less (suc fuel) x m (y ∷ ys) c n b = rw (Chain-next h x y l.tail ys c) (
      ground
        (arith, n.0, min_lem less fuel y (if less y m then y else m) ys c.2 n.1 (omega (arith, b))))

  -- `list_min` ends, and finds in a list that is not empty the element that a walk over its elements
  -- keeps, which changes to a smaller one only.
  pub list_min_lem :
      (less : LessFunc) (x : ℕ) (xs : List ℕ) (fuel : ℕ)
      → Holds h l (x ∷ xs)
      → length xs < fuel
      → list_min fuel h l less ≡ some (least less x xs)
  list_min_lem less x xs fuel s b =
      rw (list_min, s.chain.0, Chain-next h l.head x l.tail xs s.chain)
        (ground (
          arith,
          (not_tail h l (x ∷ xs) s).0,
          min_lem less fuel x x xs s.chain.2 (not_tail h l (x ∷ xs) s).1 b,
        ))

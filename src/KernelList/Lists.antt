-- ===== src/KernelList/Lists.antt =====
-- The operations of list.c on the list of elements that a heap holds.
use mathlib.Core.List.{append-nil, append_assoc}
use cse130_git.Prelude.{
  ℕ, ◌≡◌, ◌≢◌, refl, ap, sym, ◌∙◌, some, List, [], ◌∷◌, ◌++◌, false, ◌==◌, arith,
}
use cse130_git.KernelList.Links.{Heap, KList}
use cse130_git.KernelList.Ops.{
  list_init, list_insert, list_push_front, list_push_back, list_remove, list_front, list_empty,
  list_pop_front,
}
use cse130_git.KernelList.Chain.{
  Chain, last_of, Distinct, NotIn, Holds, last_of-All, insert-Distinct, delete-Distinct, append-All,
}
use cse130_git.KernelList.Relink.{
  before, b-NotIn, before-NotIn, inserted, list_insert-inserted, inserted-Chain, removed,
  list_remove-removed, removed-Chain,
}

-- An address that the list does not use.
abbrev pub IsFresh : KList → List ℕ → ℕ → Type 0
IsFresh l xs e = NotIn e (l.head ∷ xs ++ l.tail ∷ [])

-- An empty list holds nothing.
pub list_init_lem : (h : Heap) (l : KList) → l.head ≢ l.tail → Holds (list_init h l) l []
list_init_lem h l n = record {
  front = ground (arith, n);
  back = ground (arith, n);
  chain = (ground (arith, n), ground (arith, n), tt);
  distinct = (((λ e. n (sym e)), tt), (tt, tt));
}

last_of-snoc : (x : ℕ) (xs : List ℕ) (y : ℕ) → last_of x (xs ++ y ∷ []) ≡ y
last_of-snoc x [] y = refl
last_of-snoc x (z ∷ zs) y = last_of-snoc z zs y

last_of-append :
    (x : ℕ) (xs : List ℕ) (y : ℕ) (ys : List ℕ) → last_of x (xs ++ y ∷ ys) ≡ last_of y ys
last_of-append x [] y ys = refl
last_of-append x (z ∷ zs) y ys = last_of-append z zs y ys

abbrev IsInsert : Heap → KList → ℕ → ℕ → List ℕ → Type 0
IsInsert h l b e ys = (h' : Heap) × (list_insert h b e ≡ some h') × Holds h' l ys

put_before :
    (h : Heap) (l : KList) (xs ys front : List ℕ) (b : ℕ) (back : List ℕ) (e : ℕ)
    → xs ++ l.tail ∷ [] ≡ front ++ b ∷ back
    → front ++ e ∷ b ∷ back ≡ ys ++ l.tail ∷ []
    → Holds h l xs
    → IsFresh l xs e
    → IsInsert h l b e ys
put_before h l xs ys front b back e p q s f = (
  inserted h l.head front b back c d e m,
  list_insert-inserted h l.head front b back c d e m,
  record {
    front = ground (arith, (b-NotIn h l.head front b back c d).0, m.0, s.front);
    back = ground (arith, s.back, far, other);
    chain = rw⁻¹ q (inserted-Chain h l.head front b back c d e m);
    distinct = rw⁻¹ q (insert-Distinct e (l.head ∷ front) (b ∷ back) m d);
  },
)
  where
    c : Chain h l.head (front ++ b ∷ back)
    c = rw⁻¹ p s.chain

    d : Distinct (l.head ∷ front ++ b ∷ back)
    d = rw⁻¹ p s.distinct

    m : NotIn e (l.head ∷ front ++ b ∷ back)
    m = rw⁻¹ p f

    ends : last_of b back ≡ l.tail
    ends = sym (last_of-append b front b back) ∙ (ap (last_of b) (sym p) ∙ last_of-snoc b xs l.tail)

    far : l.tail ≢ before h l.head front b back c d
    far = rw (sym ends) (
        last_of-All (λ y. y ≢ before h l.head front b back c d) b back
          ((before-NotIn h l.head front b back c d).0) ((before-NotIn h l.head front b back c d).1))

    other : l.tail ≢ e
    other = (append-All (λ y. y ≢ e) (l.head ∷ xs) (l.tail ∷ []) f).1.0

-- `list_insert` puts a new element just before an element of the list.
pub list_insert_lem :
    (h : Heap) (l : KList) (xs : List ℕ) (b : ℕ) (ys : List ℕ) (e : ℕ)
    → Holds h l (xs ++ b ∷ ys)
    → IsFresh l (xs ++ b ∷ ys) e
    → (h' : Heap) × (list_insert h b e ≡ some h') × Holds h' l (xs ++ e ∷ b ∷ ys)
list_insert_lem h l xs b ys e =
    put_before h l (xs ++ b ∷ ys) (xs ++ e ∷ b ∷ ys) xs b (ys ++ l.tail ∷ []) e
      (append_assoc xs (b ∷ ys) (l.tail ∷ [])) (sym (append_assoc xs (e ∷ b ∷ ys) (l.tail ∷ [])))

-- `list_push_back` puts a new element at the end.
pub list_push_back_lem :
    (h : Heap) (l : KList) (xs : List ℕ) (e : ℕ)
    → Holds h l xs
    → IsFresh l xs e
    → (h' : Heap) × (list_push_back h l e ≡ some h') × Holds h' l (xs ++ e ∷ [])
list_push_back_lem h l xs e =
    put_before h l xs (xs ++ e ∷ []) xs l.tail [] e refl
      (sym (append_assoc xs (e ∷ []) (l.tail ∷ [])))

-- `list_push_front` puts a new element at the beginning.
pub list_push_front_lem :
    (h : Heap) (l : KList) (xs : List ℕ) (e : ℕ)
    → Holds h l xs
    → IsFresh l xs e
    → (h' : Heap) × (list_push_front h l e ≡ some h') × Holds h' l (e ∷ xs)
list_push_front_lem h l [] e s f =
    let (h', y, t) = put_before h l [] (e ∷ []) [] l.tail [] e refl refl s f in
    (h', rw (list_push_front, s.chain.0) y, t)
list_push_front_lem h l (x ∷ xs) e s f =
    let (h', y, t) =
      put_before h l (x ∷ xs) (e ∷ x ∷ xs) [] x (xs ++ l.tail ∷ []) e refl refl s f in
    (h', rw (list_push_front, s.chain.0) y, t)

remove_at :
    (h : Heap) (l : KList) (xs ys front : List ℕ) (b next : ℕ) (back : List ℕ)
    → xs ++ l.tail ∷ [] ≡ front ++ b ∷ next ∷ back
    → front ++ next ∷ back ≡ ys ++ l.tail ∷ []
    → Holds h l xs
    → (h' : Heap) × (list_remove h b ≡ some (some next, h')) × Holds h' l ys
remove_at h l xs ys front b next back p q s = (
  removed h l.head front b next back c d,
  list_remove-removed h l.head front b next back c d,
  record {
    front = ground (arith, (b-NotIn h l.head (front ++ b ∷ []) next back c' d').0, s.front);
    back = ground (arith, s.back, far);
    chain = rw⁻¹ q (removed-Chain h l.head front b next back c d);
    distinct = rw⁻¹ q (delete-Distinct b (l.head ∷ front) (next ∷ back) d);
  },
)
  where
    c : Chain h l.head (front ++ b ∷ next ∷ back)
    c = rw⁻¹ p s.chain

    d : Distinct (l.head ∷ front ++ b ∷ next ∷ back)
    d = rw⁻¹ p s.distinct

    c' : Chain h l.head ((front ++ b ∷ []) ++ next ∷ back)
    c' = rw (append_assoc front (b ∷ []) (next ∷ back)) c

    d' : Distinct (l.head ∷ (front ++ b ∷ []) ++ next ∷ back)
    d' = rw (append_assoc front (b ∷ []) (next ∷ back)) d

    ends : last_of next back ≡ l.tail
    ends =
        sym (last_of-append b front b (next ∷ back))
        ∙ (ap (last_of b) (sym p) ∙ last_of-snoc b xs l.tail)

    p0 : ℕ
    p0 = before h l.head front b (next ∷ back) c d

    out : NotIn p0 (b ∷ next ∷ back)
    out = before-NotIn h l.head front b (next ∷ back) c d

    far : l.tail ≢ p0
    far = rw (sym ends) (last_of-All (λ y. y ≢ p0) next back (out.1.0) (out.1.1))

abbrev pub head_of : List ℕ → ℕ → ℕ
head_of [] t = t
head_of (x ∷ xs) t = x

-- `list_remove` takes an element out of the list and returns the one that followed it, or the list's
-- tail.
pub list_remove_lem :
    (h : Heap) (l : KList) (xs : List ℕ) (e : ℕ) (ys : List ℕ)
    → Holds h l (xs ++ e ∷ ys)
    → (h' : Heap) × (list_remove h e ≡ some (some (head_of ys l.tail), h')) × Holds h' l (xs ++ ys)
list_remove_lem h l xs e [] s =
    remove_at h l (xs ++ e ∷ []) (xs ++ []) xs e l.tail [] (append_assoc xs (e ∷ []) (l.tail ∷ []))
      (rw (append-nil xs) refl) s
list_remove_lem h l xs e (y ∷ ys) s =
    remove_at h l (xs ++ e ∷ y ∷ ys) (xs ++ y ∷ ys) xs e y (ys ++ l.tail ∷ [])
      (append_assoc xs (e ∷ y ∷ ys) (l.tail ∷ [])) (sym (append_assoc xs (y ∷ ys) (l.tail ∷ []))) s

-- `list_pop_front` takes the first element of a list that is not empty.
pub list_pop_front_lem :
    (h : Heap) (l : KList) (x : ℕ) (xs : List ℕ)
    → Holds h l (x ∷ xs)
    → (h' : Heap) × (list_pop_front h l ≡ some (x, h')) × Holds h' l xs
list_pop_front_lem h l x xs s =
    let (h', y, t) = list_remove_lem h l [] x xs s in
    (h', rw (list_pop_front, list_front, list_empty, s.chain.0, x_tail, y) refl, t)
  where
    x_tail : (x == l.tail) ≡ false
    x_tail = ground (arith, (append-All (λ y. y ≢ x) xs (l.tail ∷ []) (s.distinct.1.0)).1.0)

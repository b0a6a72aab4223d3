-- ===== src/KernelList/Reverse.antt =====
-- `list_reverse` of list.c: the list that a heap holds, reversed.
use mathlib.Core.List.{reverse}
use mathlib.Core.Path.{subst}
use cse130_git.Prelude.{
  ℕ, ◌<◌, ◌≡◌, ◌≢◌, refl, sym, ◌∙◌, some, List, [], ◌∷◌, ◌++◌, length, true, false, ◌==◌, update,
  All-append, arith,
}
use cse130_git.KernelList.Links.{Heap, KList, Link}
use cse130_git.KernelList.Ops.{turn_from, swap_ends, list_reverse}
use cse130_git.KernelList.Chain.{
  Chain, Chain-append, append-Chain, Chain-frame, last_of, last_of-All, Distinct, Holds, append-All,
  append-Distinct, Distinct-NotIn, relinked, before-Agree, after-Agree,
}
use cse130_git.KernelList.Walk.{not_tail}
use cse130_git.KernelList.Turn.{
  Chain-Nexts, Turned, back_of, back_of-All, back_of-Chain, back_of-Distinct, last_of-back_of,
  reverse-back_of, snoc-Distinct, turn_from_lem,
}

here : (f : ℕ → Link) (i : ℕ) (v : Link) → update f i v i ≡ v
here f i v = let this : i == i ≡ true = ground arith in rw (this) refl

there : (f : ℕ → Link) (i : ℕ) (v : Link) (j : ℕ) → i ≢ j → update f i v j ≡ f j
there f i v j n = let other : i == j ≡ false = ground (arith, n) in rw (other) refl

-- The heap behind the two swaps, for the first element `x` and the last one `b`.
abbrev ended : Heap → KList → ℕ → ℕ → Heap
ended h l x b =
    relinked (relinked h l.head (some b) l.tail (some x)) x (some l.tail) b (some l.head)

swap_ends_lem :
    (h : Heap) (l : KList) (x b : ℕ)
    → h.prev l.tail ≡ some b
    → h.next l.head ≡ some x
    → h.next x ≡ some l.head
    → h.prev b ≡ some l.tail
    → x ≢ l.head
    → b ≢ l.tail
    → swap_ends h l ≡ some (ended h l x b)
swap_ends_lem h l x b p q r s n m =
    let e1 : l.head == l.head ≡ true = ground arith in
    let e2 : l.tail == l.tail ≡ true = ground arith in
    let e3 : l.head == x ≡ false = ground (arith, n) in
    let e4 : l.tail == b ≡ false = ground (arith, m) in
    rw (swap_ends, e1, p) (rw (e2, q) (rw (e3, e4, r, s) (rw (p, q) refl)))

ended-Chain :
    (h : Heap) (l : KList) (b : ℕ) (bs : List ℕ)
    → Chain h b bs
    → Distinct (l.head ∷ (b ∷ bs) ++ l.tail ∷ [])
    → Chain (ended h l (last_of b bs) b) l.head ((b ∷ bs) ++ l.tail ∷ [])
ended-Chain h l b bs c d =
    let x = last_of b bs in
    let h1 = relinked h l.head (some b) l.tail (some x) in
    let (heads, t_head) = append-All (λ z. z ≢ l.head) (b ∷ bs) (l.tail ∷ []) d.0 in
    let inner = (append-Distinct (b ∷ bs) (l.tail ∷ []) d.1).0 in
    let tails = Distinct-NotIn (b ∷ bs) l.tail [] d.1 in
    let x_head : x ≢ l.head = last_of-All (λ z. z ≢ l.head) b bs heads.0 heads.1 in
    let b_tail : b ≢ l.tail = tails.0 in
    let c1 =
      Chain-frame h h1 b bs (after-Agree h (some b) (some x) l.head l.tail b bs heads tails.1) c in
    let c2 =
      Chain-frame h1 (ended h l x b) b bs
        (before-Agree h1 (some l.tail) (some l.head) b b bs inner inner.0) c1 in
    (
      there h1.next x (some l.tail) l.head x_head ∙ here h.next l.head (some b),
      here h1.prev b (some l.head),
      append-Chain (ended h l x b) b bs (l.tail ∷ []) c2 (
        here h1.next x (some l.tail),
        there h1.prev b (some l.head) l.tail b_tail ∙ here h.prev l.tail (some x),
        tt,
      ),
    )

reversed_Distinct :
    (l : KList) (x : ℕ) (ys : List ℕ)
    → Distinct (l.head ∷ (x ∷ ys) ++ l.tail ∷ [])
    → Distinct (l.head ∷ (last_of x ys ∷ back_of x ys) ++ l.tail ∷ [])
reversed_Distinct l x ys d =
    let (heads, t_head) = append-All (λ z. z ≢ l.head) (x ∷ ys) (l.tail ∷ []) d.0 in
    let inner = (append-Distinct (x ∷ ys) (l.tail ∷ []) d.1).0 in
    let tails = Distinct-NotIn (x ∷ ys) l.tail [] d.1 in
    let bs = last_of x ys ∷ back_of x ys in
    (
      All-append (λ z. z ≢ l.head) bs (l.tail ∷ []) (back_of-All (λ z. z ≢ l.head) x ys heads)
          t_head,
      snoc-Distinct bs l.tail (back_of-Distinct x ys inner)
          (back_of-All (λ z. z ≢ l.tail) x ys tails),
    )

list_reverse_step :
    (fuel : ℕ) (h h' h2 : Heap) (l : KList) (x : ℕ)
    → h.next l.head ≡ some x
    → x ≢ l.tail
    → turn_from fuel h l (some x) ≡ some h'
    → swap_ends h' l ≡ some h2
    → list_reverse fuel h l ≡ some h2
list_reverse_step fuel h h' h2 l x c n e s =
    let more : x == l.tail ≡ false = ground (arith, n) in
    rw (list_reverse, c) (rw (more) (rw (e) s))

-- `list_reverse` ends, with more fuel than there are elements, and leaves a heap that holds the list
-- reversed.
pub list_reverse_lem :
    (h : Heap) (l : KList) (xs : List ℕ) (fuel : ℕ)
    → Holds h l xs
    → length xs < fuel
    → (h' : Heap) × (list_reverse fuel h l ≡ some h') × Holds h' l (reverse xs)
list_reverse_lem h l [] fuel s few =
    let this : l.tail == l.tail ≡ true = ground arith in rw (s.chain.0, this) (h, refl, s)
list_reverse_lem h l (x ∷ ys) fuel s few =
    let b = last_of x ys in
    let bs = back_of x ys in
    let (heads, t_head) = append-All (λ z. z ≢ l.head) (x ∷ ys) (l.tail ∷ []) s.distinct.0 in
    let inner = (append-Distinct (x ∷ ys) (l.tail ∷ []) s.distinct.1).0 in
    let tails = not_tail h l (x ∷ ys) s in
    let (links, last_links) = Chain-append h x ys (l.tail ∷ []) s.chain.2 in
    let (h', (e, (turned, kept))) =
      turn_from_lem (x ∷ ys) fuel h l (Chain-Nexts h l.head l.tail (x ∷ ys) s.chain) inner tails
        few in
    let head = kept l.head heads in
    let tail = kept l.tail tails in
    let b_turned = last_of-All (Turned h h') x ys turned.0 turned.1 in
    let swaps =
      swap_ends_lem h' l x b (tail.0 ∙ last_links.1) (head.1 ∙ s.chain.0) (turned.0.1 ∙ s.chain.1)
        (b_turned.0 ∙ last_links.0) heads.0 (last_of-All (λ z. z ≢ l.tail) x ys tails.0 tails.1) in
    let chain =
      subst (λ w. Chain (ended h' l w b) l.head ((b ∷ bs) ++ l.tail ∷ [])) (last_of-back_of x ys)
        (ended-Chain h' l b bs (back_of-Chain h h' x ys links turned)
          (reversed_Distinct l x ys s.distinct)) in
    let b_head = last_of-All (λ z. z ≢ l.head) x ys heads.0 heads.1 in
    let result : Holds (ended h' l x b) l (b ∷ bs) = record {
      front =
          there (update h'.prev l.tail (some x)) b (some l.head) l.head b_head
          ∙ there h'.prev l.tail (some x) l.head t_head.0
          ∙ head.0
          ∙ s.front;
      back =
          there (update h'.next l.head (some b)) x (some l.tail) l.tail tails.0
          ∙ there h'.next l.head (some b) l.tail (λ q. t_head.0 (sym q))
          ∙ tail.1
          ∙ s.back;
      chain = chain;
      distinct = reversed_Distinct l x ys s.distinct;
    } in
    (
      ended h' l x b,
      list_reverse_step fuel h h' (ended h' l x b) l x s.chain.0 tails.0 e swaps,
      subst (λ zs. Holds (ended h' l x b) l zs) (sym (reverse-back_of x ys)) result,
    )

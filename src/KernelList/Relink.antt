-- ===== src/KernelList/Relink.antt =====
-- What `list_insert` and `list_remove` do to a chain of links.
use cse130_git.Prelude.{ℕ, ◌≡◌, ◌≢◌, some, List, ◌∷◌, ◌++◌, arith}
use cse130_git.KernelList.Links.{Heap}
use cse130_git.KernelList.Ops.{list_insert, list_remove}
use cse130_git.KernelList.Chain.{
  Chain, last_of, Distinct, NotIn, Chain-frame, Chain-append, append-Chain, last_of-All, append-All,
  append-Distinct, Distinct-NotIn, relinked, before-Agree, after-Agree, last_of-NotIn,
  delete-Distinct,
}

module _ (h : Heap) (x : ℕ) (front : List ℕ) (b : ℕ) (back : List ℕ)
    (c : Chain h x (front ++ b ∷ back)) (d : Distinct (x ∷ front ++ b ∷ back)) where
  -- The element before `b`.
  abbrev pub before : ℕ
  before = last_of x front

  links : Chain h x front × Chain h before (b ∷ back)
  links = Chain-append h x front (b ∷ back) c

  pub prev-before : h.prev b ≡ some before
  prev-before = links.1.1

  front-Distinct : Distinct (x ∷ front)
  front-Distinct = (append-Distinct (x ∷ front) (b ∷ back) d).0

  back-Distinct : Distinct (b ∷ back)
  back-Distinct = (append-Distinct (x ∷ front) (b ∷ back) d).1

  pub b-NotIn : NotIn b (x ∷ front)
  b-NotIn = Distinct-NotIn (x ∷ front) b back d

  pub before-NotIn : NotIn before (b ∷ back)
  before-NotIn = last_of-NotIn x front (b ∷ back) d

  module _ (e : ℕ) (m : NotIn e (x ∷ front ++ b ∷ back)) where
    abbrev pub inserted : Heap
    inserted = relinked (relinked h e (some b) e (h.prev b)) before (some e) b (some e)

    e-front : NotIn e (x ∷ front)
    e-front = (append-All (λ y. y ≢ e) (x ∷ front) (b ∷ back) m).0

    e-back : NotIn e (b ∷ back)
    e-back = (append-All (λ y. y ≢ e) (x ∷ front) (b ∷ back) m).1

    before_e : before ≢ e
    before_e = last_of-All (λ y. y ≢ e) x front (e-front.0) (e-front.1)

    pub list_insert-inserted : list_insert h b e ≡ some inserted
    list_insert-inserted = ground (arith, prev-before, e-back.0)

    pub inserted-Chain : Chain inserted x (front ++ e ∷ b ∷ back)
    inserted-Chain =
        append-Chain inserted x front (e ∷ b ∷ back)
          (Chain-frame fresh inserted x front
            (before-Agree fresh (some e) (some e) b x front front-Distinct (b-NotIn.1))
            (Chain-frame h fresh x front
              (after-Agree h (some b) (h.prev b) e e x front e-front (e-front.1)) (links.0)))
          (
            ground arith,
            ground (arith, prev-before, e-back.0),
            (
              ground (arith, before_e),
              ground arith,
              Chain-frame fresh inserted b back
                  (after-Agree fresh (some e) (some e) before b b back before-NotIn
                    (back-Distinct.0))
                  (Chain-frame h fresh b back
                    (after-Agree h (some b) (h.prev b) e e b back e-back (e-back.1)) (links.1.2)),
            ),
          )
      where
        fresh : Heap
        fresh = relinked h e (some b) e (h.prev b)

-- `b` between `front` and `next ∷ back` is taken out.
module _ (h : Heap) (x : ℕ) (front : List ℕ) (b next : ℕ) (back : List ℕ)
    (c : Chain h x (front ++ b ∷ next ∷ back)) (d : Distinct (x ∷ front ++ b ∷ next ∷ back)) where
  abbrev pub removed : Heap
  removed = relinked h (before h x front b (next ∷ back) c d) (h.next b) next (h.prev b)

  pub b_links : Chain h (before h x front b (next ∷ back) c d) (b ∷ next ∷ back)
  b_links = (links h x front b (next ∷ back) c d).1

  b_before : b ≢ before h x front b (next ∷ back) c d
  b_before = (before-NotIn h x front b (next ∷ back) c d).0

  next_before : next ≢ before h x front b (next ∷ back) c d
  next_before = (before-NotIn h x front b (next ∷ back) c d).1.0

  next_b : next ≢ b
  next_b = (back-Distinct h x front b (next ∷ back) c d).0.0

  pub list_remove-removed : list_remove h b ≡ some (some next, removed)
  list_remove-removed = ground (arith, b_links.1, b_links.2.0, b_before, next_before)

  pub removed-Chain : Chain removed x (front ++ next ∷ back)
  removed-Chain =
      append-Chain removed x front (next ∷ back)
        (Chain-frame h removed x front
          (before-Agree h (h.next b) (h.prev b) next x front
            (front-Distinct h x front b (next ∷ back) c d) next-front)
          ((links h x front b (next ∷ back) c d).0))
        (
          ground (arith, b_links.2.0),
          ground (arith, b_links.1),
          Chain-frame h removed next back
              (after-Agree h (h.next b) (h.prev b) (before h x front b (next ∷ back) c d) next next
                back ((before-NotIn h x front b (next ∷ back) c d).1)
                ((back-Distinct h x front b (next ∷ back) c d).1.0))
              (b_links.2.2),
        )
    where
      next-front : NotIn next front
      next-front =
          (Distinct-NotIn (x ∷ front) next back (delete-Distinct b (x ∷ front) (next ∷ back) d)).1

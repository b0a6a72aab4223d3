-- ===== src/KernelList/Turn.antt =====
-- The loop of `list_reverse`, which exchanges the two links of each element.
use mathlib.Core.List.{append-nil, reverse}
use cse130_git.Prelude.{
  ℕ, zero, suc, ◌<◌, ◌≡◌, ◌≢◌, refl, ap, sym, ◌∙◌, some, List, [], ◌∷◌, ◌++◌, length, true, false,
  ◌==◌, All, All-append, reverse-cons, arith,
}
use cse130_git.KernelList.Links.{Heap, KList, Link}
use cse130_git.KernelList.Ops.{turn, turn_from}
use cse130_git.KernelList.Chain.{Chain, append-Chain, last_of, Distinct, NotIn, insert-Distinct}
use cse130_git.KernelList.Lists.{head_of}
use cse130_git.KernelList.Walk.{Chain-begin}

-- What follows the last element of `x ∷ ys` when these are reversed.
abbrev pub back_of : ℕ → List ℕ → List ℕ
back_of x [] = []
back_of x (y ∷ ys) = back_of y ys ++ x ∷ []

pub reverse-back_of : (x : ℕ) (ys : List ℕ) → reverse (x ∷ ys) ≡ last_of x ys ∷ back_of x ys
reverse-back_of x [] = refl
reverse-back_of x (y ∷ ys) =
    reverse-cons x (y ∷ ys) ∙ ap (λ zs. zs ++ x ∷ []) (reverse-back_of y ys)

last_of-snoc : (x : ℕ) (xs : List ℕ) (y : ℕ) → last_of x (xs ++ y ∷ []) ≡ y
last_of-snoc x [] y = refl
last_of-snoc x (z ∷ zs) y = last_of-snoc z zs y

pub last_of-back_of : (x : ℕ) (ys : List ℕ) → last_of (last_of x ys) (back_of x ys) ≡ x
last_of-back_of x [] = refl
last_of-back_of x (y ∷ ys) = last_of-snoc (last_of y ys) (back_of y ys) x

pub back_of-All {ℓ} :
    (P : ℕ → Type ℓ) (x : ℕ) (ys : List ℕ) → All P (x ∷ ys) → All P (last_of x ys ∷ back_of x ys)
back_of-All P x [] h = h
back_of-All P x (y ∷ ys) h =
    let b = back_of-All P y ys h.1 in (b.0, All-append P (back_of y ys) (x ∷ []) b.1 (h.0, tt))

pub snoc-Distinct : (xs : List ℕ) (e : ℕ) → Distinct xs → NotIn e xs → Distinct (xs ++ e ∷ [])
snoc-Distinct xs e d n = insert-Distinct e xs [] (rw (append-nil xs) n) (rw (append-nil xs) d)

pub back_of-Distinct :
    (x : ℕ) (ys : List ℕ) → Distinct (x ∷ ys) → Distinct (last_of x ys ∷ back_of x ys)
back_of-Distinct x [] d = d
back_of-Distinct x (y ∷ ys) d =
    snoc-Distinct (last_of y ys ∷ back_of y ys) x (back_of-Distinct y ys d.1)
      (back_of-All (λ z. z ≢ x) y ys d.0)

-- The two links of an element are exchanged.
abbrev pub Turned : Heap → Heap → ℕ → Type 0
Turned h h' e = h'.prev e ≡ h.next e × h'.next e ≡ h.prev e

abbrev pub Kept : Heap → Heap → ℕ → Type 0
Kept h h' e = h'.prev e ≡ h.prev e × h'.next e ≡ h.next e

-- The elements follow one another up to an end.
abbrev pub Nexts : Heap → List ℕ → ℕ → Type 0
Nexts h [] t = Unit
Nexts h (y ∷ ys) t = h.next y ≡ some (head_of ys t) × Nexts h ys t

pub Chain-Nexts : (h : Heap) (x t : ℕ) (ys : List ℕ) → Chain h x (ys ++ t ∷ []) → Nexts h ys t
Chain-Nexts h x t [] c = tt
Chain-Nexts h x t (y ∷ ys) c = (Chain-begin h y t ys c.2, Chain-Nexts h y t ys c.2)

turn-Kept : (h : Heap) (e z : ℕ) → z ≢ e → Kept h (turn h e) z
turn-Kept h e z n =
    let other : e == z ≡ false = ground (arith, n) in (rw (other) refl, rw (other) refl)

turn-Nexts : (h : Heap) (e t : ℕ) (ys : List ℕ) → NotIn e ys → Nexts h ys t → Nexts (turn h e) ys t
turn-Nexts h e t [] n c = tt
turn-Nexts h e t (y ∷ ys) n c = ((turn-Kept h e y n.0).1 ∙ c.0, turn-Nexts h e t ys n.1 c.1)

-- After the turn of another element the links are exchanged as before it.
Turned-after :
    (h h' : Heap) (e : ℕ) (ys : List ℕ)
    → NotIn e ys
    → All (Turned (turn h e) h') ys
    → All (Turned h h') ys
Turned-after h h' e [] n a = tt
Turned-after h h' e (y ∷ ys) n a =
    let k = turn-Kept h e y n.0 in ((a.0.0 ∙ k.1, a.0.1 ∙ k.0), Turned-after h h' e ys n.1 a.1)

turn-Turned : (h : Heap) (e : ℕ) → Turned h (turn h e) e
turn-Turned h e = let this : e == e ≡ true = ground arith in (rw (this) refl, rw (this) refl)

turn_from_step :
    (fuel : ℕ) (h : Heap) (l : KList) (e : ℕ) (v : Link)
    → e ≢ l.tail
    → h.next e ≡ v
    → turn_from (suc fuel) h l (some e) ≡ turn_from fuel (turn h e) l v
turn_from_step fuel h l e v n c =
    let more : e == l.tail ≡ false = ground (arith, n) in
    let this : e == e ≡ true = ground arith in rw (more, this) (ap (turn_from fuel (turn h e) l) c)

pub turn_from_lem :
    (ys : List ℕ) (fuel : ℕ) (h : Heap) (l : KList)
    → Nexts h ys l.tail
    → Distinct ys
    → NotIn l.tail ys
    → length ys < fuel
    → (h' : Heap) × (turn_from fuel h l (some (head_of ys l.tail)) ≡ some h'
        × (All (Turned h h') ys × ((z : ℕ) → NotIn z ys → Kept h h' z)))
turn_from_lem ys zero h l c d n b = absurd (omega (arith, b))
turn_from_lem [] (suc fuel) h l c d n b =
    let end : l.tail == l.tail ≡ true = ground arith in
    rw (end) (h, (refl, (tt, λ z m. (refl, refl))))
turn_from_lem (y ∷ ys) (suc fuel) h l c d n b =
    let (h', (e, (a, k))) =
      turn_from_lem ys fuel (turn h y) l (turn-Nexts h y l.tail ys d.0 c.1) d.1 n.1
        (omega (arith, b)) in
    let own = turn-Turned h y in
    let kept = k y d.0 in
    (
      h',
      (
        turn_from_step fuel h l y (some (head_of ys l.tail)) n.0 c.0 ∙ e,
        (
          ((kept.0 ∙ own.0, kept.1 ∙ own.1), Turned-after h h' y ys d.0 a),
          λ z m.
              let other = turn-Kept h y z (λ q. m.0 (sym q)) in
              (((k z m.1).0 ∙ other.0), ((k z m.1).1 ∙ other.1)),
        ),
      ),
    )

-- The reversed elements are linked as the elements were, the other way round.
pub back_of-Chain :
    (h h' : Heap) (x : ℕ) (ys : List ℕ)
    → Chain h x ys
    → All (Turned h h') (x ∷ ys)
    → Chain h' (last_of x ys) (back_of x ys)
back_of-Chain h h' x [] c a = tt
back_of-Chain h h' x (y ∷ ys) c a =
    append-Chain h' (last_of y ys) (back_of y ys) (x ∷ []) (back_of-Chain h h' y ys c.2 a.1)
      (rw (last_of-back_of y ys) (a.1.0.1 ∙ c.1, a.0.0 ∙ c.0, tt))

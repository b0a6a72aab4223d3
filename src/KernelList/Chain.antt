-- ===== src/KernelList/Chain.antt =====
-- When the links of a heap form a list.
use cse130_git.Prelude.{
  ℕ, ◌≡◌, ◌≢◌, sym, ◌∙◌, none, some, List, [], ◌∷◌, ◌++◌, All, All-append, update, arith,
}
use cse130_git.KernelList.Links.{Link, Heap, KList}

-- From `x`, the elements `xs` follow one another, and each links back.
abbrev pub Chain : Heap → ℕ → List ℕ → Type 0
Chain h x [] = Unit
Chain h x (y ∷ ys) = (h.next x ≡ some y) × (h.prev y ≡ some x) × Chain h y ys

abbrev pub last_of : ℕ → List ℕ → ℕ
last_of x [] = x
last_of x (y ∷ ys) = last_of y ys

abbrev pub Distinct : List ℕ → Type 0
Distinct [] = Unit
Distinct (x ∷ xs) = All (λ y. y ≢ x) xs × Distinct xs

abbrev pub NotIn : ℕ → List ℕ → Type 0
NotIn e = All (λ y. y ≢ e)

-- The list `l` holds the elements `xs`.
pub record Holds (h : Heap) (l : KList) (xs : List ℕ) : Type 0 where
  pub front : h.prev l.head ≡ none
  pub back : h.next l.tail ≡ none
  pub chain : Chain h l.head (xs ++ l.tail ∷ [])
  pub distinct : Distinct (l.head ∷ xs ++ l.tail ∷ [])

-- The links that a chain reads are the same.
abbrev pub Agree : Heap → Heap → ℕ → List ℕ → Type 0
Agree h h' x [] = Unit
Agree h h' x (y ∷ ys) = (h'.next x ≡ h.next x) × (h'.prev y ≡ h.prev y) × Agree h h' y ys

pub Chain-frame :
    (h h' : Heap) (x : ℕ) (xs : List ℕ) → Agree h h' x xs → Chain h x xs → Chain h' x xs
Chain-frame h h' x [] a c = tt
Chain-frame h h' x (y ∷ ys) a c = (a.0 ∙ c.0, a.1 ∙ c.1, Chain-frame h h' y ys (a.2) (c.2))

pub Chain-append :
    (h : Heap) (x : ℕ) (xs ys : List ℕ)
    → Chain h x (xs ++ ys)
    → Chain h x xs × Chain h (last_of x xs) ys
Chain-append h x [] ys c = (tt, c)
Chain-append h x (z ∷ zs) ys c = let (a, b) = Chain-append h z zs ys (c.2) in ((c.0, c.1, a), b)

pub append-Chain :
    (h : Heap) (x : ℕ) (xs ys : List ℕ)
    → Chain h x xs
    → Chain h (last_of x xs) ys
    → Chain h x (xs ++ ys)
append-Chain h x [] ys a b = b
append-Chain h x (z ∷ zs) ys a b = (a.0, a.1, append-Chain h z zs ys (a.2) b)

pub last_of-All {ℓ} : (P : ℕ → Type ℓ) (x : ℕ) (xs : List ℕ) → P x → All P xs → P (last_of x xs)
last_of-All P x [] p h = p
last_of-All P x (y ∷ ys) p h = last_of-All P y ys (h.0) (h.1)

pub append-All {ℓ} : (P : ℕ → Type ℓ) (xs ys : List ℕ) → All P (xs ++ ys) → All P xs × All P ys
append-All P [] ys h = (tt, h)
append-All P (x ∷ xs) ys h = let (a, b) = append-All P xs ys (h.1) in ((h.0, a), b)

pub append-Distinct : (xs ys : List ℕ) → Distinct (xs ++ ys) → Distinct xs × Distinct ys
append-Distinct [] ys h = (tt, h)
append-Distinct (x ∷ xs) ys h =
    let (a, b) = append-Distinct xs ys (h.1) in (((append-All (λ y. y ≢ x) xs ys (h.0)).0, a), b)

-- An element of a later part is in no earlier one.
pub Distinct-NotIn : (xs : List ℕ) (y : ℕ) (ys : List ℕ) → Distinct (xs ++ y ∷ ys) → NotIn y xs
Distinct-NotIn [] y ys h = tt
Distinct-NotIn (x ∷ xs) y ys h =
    ((λ e. (append-All (λ z. z ≢ x) xs (y ∷ ys) (h.0)).1.0 (sym e)), Distinct-NotIn xs y ys (h.1))

-- A heap that differs in the `next` of one element and the `prev` of another: a chain that ends at the
-- first, without the second, and one that starts at the second, without the first, are the same.
abbrev pub relinked : Heap → ℕ → Link → ℕ → Link → Heap
relinked h p n b q = record { prev = update h.prev b q; next = update h.next p n }

pub before-Agree :
    (h : Heap) (n q : Link) (b x : ℕ) (xs : List ℕ)
    → Distinct (x ∷ xs)
    → NotIn b xs
    → Agree h (relinked h (last_of x xs) n b q) x xs
before-Agree h n q b x [] d m = tt
before-Agree h n q b x (y ∷ ys) d m = (
  ground (arith, last_of-All (λ z. z ≢ x) y ys (d.0.0) (d.0.1)),
  ground (arith, m.0),
  before-Agree h n q b y ys (d.1) (m.1),
)

pub after-Agree :
    (h : Heap) (n q : Link) (p b x : ℕ) (xs : List ℕ)
    → NotIn p (x ∷ xs)
    → NotIn b xs
    → Agree h (relinked h p n b q) x xs
after-Agree h n q p b x [] d m = tt
after-Agree h n q p b x (y ∷ ys) d m =
    (ground (arith, d.0), ground (arith, m.0), after-Agree h n q p b y ys (d.1) (m.1))

pub last_of-NotIn : (x : ℕ) (xs ys : List ℕ) → Distinct (x ∷ xs ++ ys) → NotIn (last_of x xs) ys
last_of-NotIn x [] ys d = d.0
last_of-NotIn x (z ∷ zs) ys d = last_of-NotIn z zs ys (d.1)

pub insert-Distinct :
    (e : ℕ) (xs ys : List ℕ) → NotIn e (xs ++ ys) → Distinct (xs ++ ys) → Distinct (xs ++ e ∷ ys)
insert-Distinct e [] ys m d = (m, d)
insert-Distinct e (x ∷ xs) ys m d =
    let (a, b) = append-All (λ y. y ≢ x) xs ys (d.0) in
    (
      All-append (λ y. y ≢ x) xs (e ∷ ys) a ((λ q. m.0 (sym q)), b),
      insert-Distinct e xs ys (m.1) (d.1),
    )

pub delete-Distinct : (e : ℕ) (xs ys : List ℕ) → Distinct (xs ++ e ∷ ys) → Distinct (xs ++ ys)
delete-Distinct e [] ys d = d.1
delete-Distinct e (x ∷ xs) ys d =
    let (a, b) = append-All (λ y. y ≢ x) xs (e ∷ ys) (d.0) in
    (All-append (λ y. y ≢ x) xs ys a (b.1), delete-Distinct e xs ys (d.1))

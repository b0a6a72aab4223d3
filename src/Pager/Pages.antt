-- ===== src/Pager/Pages.antt =====
-- Lists of pages: membership, removal, and lists without repetition.
use cse130_git.Prelude.{
  ℕ, ◌+◌, ◌≤◌, ◌≡◌, refl, List, [], ◌∷◌, ◌++◌, Bool, true, false, not, ◌||◌, ◌&&◌, ◌==◌,
  if◌then◌else◌, length, arith, inl, inr, Bool-cases, tail, count, ltb,
}

abbrev pub has : ℕ → List ℕ → Bool
has v [] = false
has v (x ∷ xs) = x == v || has v xs

abbrev pub remove : ℕ → List ℕ → List ℕ
remove v [] = []
remove v (x ∷ xs) = if x == v then remove v xs else x ∷ remove v xs

-- No page twice.
abbrev pub Distinct : List ℕ → Type 0
Distinct [] = Unit
Distinct (x ∷ xs) = (has x xs ≡ false) × Distinct xs

pub has-append : (v : ℕ) (xs ys : List ℕ) → has v (xs ++ ys) ≡ (has v xs || has v ys)
has-append v [] ys = refl
has-append v (x ∷ xs) ys = ground (arith, has-append v xs ys)

pub has-remove_self : (v : ℕ) (xs : List ℕ) → has v (remove v xs) ≡ false
has-remove_self v [] = refl
has-remove_self v (x ∷ xs) = ground (arith, has-remove_self v xs)

pub has-remove : (v w : ℕ) (xs : List ℕ) → has v (remove w xs) ≡ (not (w == v) && has v xs)
has-remove v w [] = ground arith
has-remove v w (x ∷ xs) = ground (arith, has-remove v w xs)

pub Distinct-remove : (v : ℕ) (xs : List ℕ) → Distinct xs → Distinct (remove v xs)
Distinct-remove v [] h = tt
Distinct-remove v (x ∷ xs) h = elim (Bool-cases (x == v)) [
  | inl e ↦ rw e (Distinct-remove v xs h.1)
  | inr e ↦ rw e (ground (arith, has-remove x v xs), Distinct-remove v xs h.1)
]

-- A new page at the end keeps the pages distinct.
pub Distinct-snoc : (v : ℕ) (xs : List ℕ) → Distinct xs → has v xs ≡ false → Distinct (xs ++ v ∷ [])
Distinct-snoc v [] h e = (refl, tt)
Distinct-snoc v (x ∷ xs) h e =
    (ground (arith, has-append x xs (v ∷ [])), Distinct-snoc v xs h.1 (ground arith))

pub remove-absent : (v : ℕ) (xs : List ℕ) → has v xs ≡ false → remove v xs ≡ xs
remove-absent v [] e = refl
remove-absent v (x ∷ xs) e = ground (arith, remove-absent v xs)

-- Of distinct pages one goes.
pub length-remove :
    (v : ℕ) (xs : List ℕ) → Distinct xs → has v xs ≡ true → length (remove v xs) + 1 ≡ length xs
length-remove v [] h e = ground arith
length-remove v (x ∷ xs) h e = ground (arith, length-remove v xs, remove-absent v xs)

pub Distinct-tail : (xs : List ℕ) → Distinct xs → Distinct (tail xs)
Distinct-tail [] h = tt
Distinct-tail (x ∷ xs) h = h.1

pub has-tail : (v : ℕ) (xs : List ℕ) → has v xs ≡ false → has v (tail xs) ≡ false
has-tail v [] e = refl
has-tail v (x ∷ xs) e = ground arith

-- The same by counting, where the order of the pages does not matter.
abbrev pub times : ℕ → List ℕ → ℕ
times w = count (λ x. x == w)

pub times-pos : (w : ℕ) (xs : List ℕ) → has w xs ≡ ltb 0 (times w xs)
times-pos w [] = ground arith
times-pos w (x ∷ xs) = ground (arith, times-pos w xs)

pub times-le_one : (w : ℕ) (xs : List ℕ) → Distinct xs → times w xs ≤ 1
times-le_one w [] h = omega arith
times-le_one w (x ∷ xs) h = ground (arith, times-pos w xs, times-le_one w xs h.1)

pub Distinct-of_times : (xs : List ℕ) → ((w : ℕ) → times w xs ≤ 1) → Distinct xs
Distinct-of_times [] h = tt
Distinct-of_times (x ∷ xs) h =
    (ground (arith, h x, times-pos x xs), Distinct-of_times xs (λ w. ground (arith, h w)))

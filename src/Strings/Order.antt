-- ===== src/Strings/Order.antt =====
-- How strcmp orders two strings.
use cse130_git.Prelude.{
  ℕ, zero, suc, ◌+◌, ◌≡◌, ◌<◌, some, List, [], ◌∷◌, Bool-cases, inl, inr, true, false, ◌||◌, ◌==◌,
  ltb, if◌then◌else◌, length, arith, refl,
}
use cse130_git.Strings.{Memory, Sign, less, equal, greater, compare_from, strcmp}
use cse130_git.Strings.Copies.{StringAt}

-- The order of a dictionary, of which a string's beginning comes before it.
abbrev pub dictionary : List ℕ → List ℕ → Sign
dictionary [] [] = equal
dictionary [] (d ∷ ds) = less
dictionary (c ∷ cs) [] = greater
dictionary (c ∷ cs) (d ∷ ds) =
    let rest = dictionary cs ds in if ltb c d then less else (if ltb d c then greater else rest)

compare_from_lem :
    (v w : List ℕ) (fuel : ℕ) (m : Memory) (a b : ℕ)
    → StringAt m a v
    → StringAt m b w
    → length v < fuel
    → compare_from fuel m a b ≡ some (dictionary v w)
compare_from_lem v w zero m a b s t h = absurd (omega (arith, h))
compare_from_lem [] [] (suc fuel) m a b s t h = rw (s, t) refl
compare_from_lem [] (d ∷ w) (suc fuel) m a b s t h =
    let below : ltb 0 d ≡ true = ground (arith, t.0.1) in rw (s, t.0.0, below) refl
compare_from_lem (c ∷ v) [] (suc fuel) m a b s t h =
    let more : c == 0 ≡ false = ground (arith, s.0.1) in
    let above : ltb 0 c ≡ true = ground (arith, s.0.1) in
    let not_below : ltb c 0 ≡ false = ground arith in rw (s.0.0, t, more, not_below, above) refl
compare_from_lem (c ∷ v) (d ∷ w) (suc fuel) m a b s t h =
    let more : c == 0 ≡ false = ground (arith, s.0.1) in
    let rest = compare_from_lem v w fuel m (a + 1) (b + 1) s.1 t.1 (omega (arith, h)) in
    rw (s.0.0, t.0.0, more)
      (elim (Bool-cases (c == d)) [
        | inl e ↦
            let not_below : ltb c d ≡ false = ground (arith, e) in
            let not_above : ltb d c ≡ false = ground (arith, e) in rw (e, not_below, not_above) rest
        | inr e ↦ elim (Bool-cases (ltb c d)) [
          | inl below ↦ rw (e, below) refl
          | inr not_below ↦
              let above : ltb d c ≡ true = ground (arith, e, not_below) in
              rw (e, not_below, above) refl
        ]
      ])

-- `strcmp` of two strings ends, with fuel above the length of the first, and returns which of them comes
-- first in the order of a dictionary.
pub strcmp_lem :
    (fuel : ℕ) (m : Memory) (a b : ℕ) (v w : List ℕ)
    → StringAt m a v
    → StringAt m b w
    → 0 < a
    → 0 < b
    → length v < fuel
    → strcmp fuel m a b ≡ some (dictionary v w)
strcmp_lem fuel m a b v w s t ha hb h =
    let there : (a == 0 || b == 0) ≡ false = ground (arith, ha, hb) in
    rw (strcmp, there) (compare_from_lem v w fuel m a b s t h)

-- ===== src/Kernel/Sleepers.antt =====
-- The order of the sleepers of timer.c, in Lab1 and in Lab2.
use cse130_git.Prelude.{ℕ, ◌≡◌, ◌≢◌, refl, List, [], ◌∷◌, All, SameItems, arith}
use cse130_git.Kernel.Timer.{place_sleeper, place_by_priority, place_sleeper2}

module _ (wake : ℕ → ℕ) (t : ℕ) where
  module _ (priority : ℕ → ℕ) where
    -- Where no sleeper wakes at the caller's tick, Lab2's `timer_sleep` puts the caller where Lab1's does.
    pub place_sleeper2-place_sleeper :
        (xs : List ℕ)
        → All (λ x. wake x ≢ wake t) xs
        → place_sleeper2 priority wake xs t ≡ place_sleeper wake xs t
    place_sleeper2-place_sleeper [] h = refl
    place_sleeper2-place_sleeper (x ∷ xs) h =
        ground (arith, h.0, place_sleeper2-place_sleeper xs h.1)

    place_by_priority-SameItems :
        (xs : List ℕ) → SameItems (place_by_priority priority xs t) (t ∷ xs)
    place_by_priority-SameItems [] p = refl
    place_by_priority-SameItems (x ∷ xs) p = ground (arith, place_by_priority-SameItems xs p)

    -- Lab2's `timer_sleep` loses no sleeper and adds the caller once.
    pub place_sleeper2-SameItems :
        (xs : List ℕ) → SameItems (place_sleeper2 priority wake xs t) (t ∷ xs)
    place_sleeper2-SameItems [] p = refl
    place_sleeper2-SameItems (x ∷ xs) p =
        ground (arith, place_sleeper2-SameItems xs p, place_by_priority-SameItems (x ∷ xs) p)

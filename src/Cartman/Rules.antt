-- ===== src/Cartman/Rules.antt =====
-- The rules of Assignment3/cartman.h, as a check of the calls that were made.
use cse130_git.Prelude.{
  ℕ, Option, none, some, List, [], ◌∷◌, Bool, true, false, ◌&&◌, ◌||◌, ◌==◌, update, if◌then◌else◌,
}
use cse130_git.Cartman.Claim.{opposite}
use cse130_git.Cartman.Threads.{Call, reserve, release, cross, Pc, holding, crossed, announcing}

-- Who has reserved each junction.
abbrev pub Reserved : Type 0
Reserved = ℕ → Option ℕ

abbrev pub is_free : Option ℕ → Bool
is_free none = true
is_free (some c) = false

abbrev pub is_owner : ℕ → Option ℕ → Bool
is_owner c none = false
is_owner c (some d) = d == c

-- A junction is reserved while it is free, released by the cart that reserved it, and a track is
-- crossed by a cart that has reserved both of its ends. Anything else exits.
abbrev pub obey : ℕ → Call → Reserved → Option Reserved
obey n (reserve c j) r = if is_free (r j) then some (update r j (some c)) else none
obey n (release c j) r = if is_owner c (r j) then some (update r j none) else none
obey n (cross c t j) r =
    if is_owner c (r j) && is_owner c (r (opposite n t j)) then some r else none

-- The calls, the newest first.
abbrev pub replay : ℕ → List Call → Option Reserved
replay n [] = some (λ j. none)
replay n (call ∷ calls) = elim (replay n calls) [ none ↦ none | some r ↦ obey n call r ]

-- The junctions that a thread has reserved.
abbrev pub holds : Pc → ℕ → Bool
holds (holding c t a b) j = a == j || b == j
holds (crossed c a b) j = a == j || b == j
holds _ j = false

abbrev pub owner : Pc → ℕ
owner (holding c t a b) = c
owner (crossed c a b) = c
owner _ = 0

abbrev pub is_announcing : Pc → Bool
is_announcing announcing = true
is_announcing _ = false

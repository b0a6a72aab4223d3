-- ===== src/UserProgram/Push/Words.antt =====
-- The words of a command line, read from the left: what `push_command` is to pass on.
use cse130_git.Prelude.{
  ℕ, zero, suc, ◌+◌, ◌≡◌, ◌≤◌, List, [], ◌∷◌, ◌++◌, Bool, false, ◌==◌, if◌then◌else◌, length, take,
  drop, arith, refl,
}

abbrev pub at_space : List ℕ → Bool
at_space [] = false
at_space (c ∷ cs) = c == 32

-- The bytes before the first space.
abbrev pub word : List ℕ → List ℕ
word [] = []
word (c ∷ cs) = let w = word cs in if c == 32 then [] else c ∷ w

-- The words behind that one: one behind every run of spaces, an empty one where a run ends the line.
abbrev pub later : List ℕ → List (List ℕ)
later [] = []
later (c ∷ cs) =
    let ws = later cs in if c == 32 then (if at_space cs then ws else word cs ∷ ws) else ws

-- The first byte belongs to the first word, whatever it is.
abbrev pub arguments : List ℕ → List (List ℕ)
arguments [] = []
arguments (c ∷ cs) = (c ∷ word cs) ∷ later cs

-- The bytes of the words, each with its zero.
abbrev pub strings : List (List ℕ) → List ℕ
strings [] = []
strings (w ∷ ws) = (w ++ 0 ∷ []) ++ strings ws

abbrev pub size : List (List ℕ) → ℕ
size [] = 0
size (w ∷ ws) = size ws + (length w + 1)

pub take-word : (cs : List ℕ) → take (length (word cs)) cs ≡ word cs
take-word [] = refl
take-word (c ∷ cs) = ground (arith, take-word cs)

pub size-later : (cs : List ℕ) → size (later cs) + length (word cs) ≤ length cs
size-later [] = omega arith
size-later (c ∷ cs) = ground (arith, size-later cs)

pub size-arguments : (cs : List ℕ) → size (arguments cs) ≤ length cs + 1
size-arguments [] = omega arith
size-arguments (c ∷ cs) = omega (arith, size-later cs)

pub length-later-drop : (n : ℕ) (cs : List ℕ) → length (later (drop n cs)) ≤ length (later cs)
length-later-drop zero cs = omega arith
length-later-drop (suc n) [] = omega arith
length-later-drop (suc n) (c ∷ cs) = ground (arith, length-later-drop n cs)

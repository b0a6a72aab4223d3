-- ===== src/Prelude/Bytes.antt =====
-- Parts of lists by their places, and lists of numbers in memory.
use Prim.Native.Nat.{ℕ, zero, suc, ◌+◌}
use mathlib.Core.Path.{◌≡◌, refl}
use mathlib.Core.List.{List, [], ◌∷◌, ◌++◌}
use native.Mathlib.Omega.{arith}
use cse130_git.Prelude.Lists.{length}

abbrev pub drop : ℕ → List ℕ → List ℕ
drop zero xs = xs
drop (suc n) [] = []
drop (suc n) (x ∷ xs) = drop n xs

pub drop-nil : (n : ℕ) → drop n [] ≡ []
drop-nil zero = refl
drop-nil (suc n) = refl

abbrev pub zeros : ℕ → List ℕ
zeros zero = []
zeros (suc n) = 0 ∷ zeros n

-- The bytes of a buffer from an index on.
abbrev pub bytes_of : (ℕ → ℕ) → ℕ → ℕ → List ℕ
bytes_of buf at zero = []
bytes_of buf at (suc n) = buf at ∷ bytes_of buf (at + 1) n

pub length-bytes_of : (buf : ℕ → ℕ) (at n : ℕ) → length (bytes_of buf at n) ≡ n
length-bytes_of buf at zero = refl
length-bytes_of buf at (suc n) = omega (arith, length-bytes_of buf (at + 1) n)

pub drop-zeros : (n : ℕ) (bs : List ℕ) → drop n (zeros n ++ bs) ≡ bs
drop-zeros zero bs = refl
drop-zeros (suc n) bs = drop-zeros n bs

pub drop-append : (xs ys : List ℕ) → drop (length xs) (xs ++ ys) ≡ ys
drop-append [] ys = refl
drop-append (x ∷ xs) ys = drop-append xs ys

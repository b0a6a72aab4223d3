-- ===== src/Fileman/Bytes.antt =====
-- Files as lists of bytes, buffers as arrays, and the streams of stdio that fileman.c reads.
use cse130_git.Prelude.{
  ℕ, zero, suc, ◌+◌, ◌<◌, ◌≡◌, refl, List, [], ◌∷◌, ◌==◌, if◌then◌else◌, All, zeros, update, arith,
}

-- `fgetc` in a `char`: EOF is -1, and so is the byte 255.
abbrev pub eof : ℕ
eof = 255

-- An open file, from the place of its next byte on, and that place.
pub record Stream : Type 0 where
  pub rest : List ℕ
  pub pos : ℕ

-- The character that `fgetc` returns, and the stream after it.
unfoldable pub fgetc : Stream → ℕ × Stream
fgetc s = elim s.rest [ [] ↦ (eof, s) | b ∷ bs ↦ (b, record { rest = bs; pos = s.pos + 1 }) ]

-- The bytes before the first one that is taken for the end of the file.
abbrev pub before_eof : List ℕ → List ℕ
before_eof [] = []
before_eof (b ∷ bs) = let rest = before_eof bs in if b == eof then [] else b ∷ rest

-- A buffer with bytes stored from an index on.
abbrev pub store : (ℕ → ℕ) → ℕ → List ℕ → ℕ → ℕ
store buf at [] = buf
store buf at (b ∷ bs) = store (update buf at b) (at + 1) bs

-- Without such a byte nothing is lost.
pub before_eof-All : (bs : List ℕ) → All (λ b. b < eof) bs → before_eof bs ≡ bs
before_eof-All [] h = refl
before_eof-All (b ∷ bs) h = ground (arith, h.0, before_eof-All bs h.1)

pub zeros-All : (n : ℕ) → All (λ b. b < eof) (zeros n)
zeros-All zero = tt
zeros-All (suc n) = (omega arith, zeros-All n)

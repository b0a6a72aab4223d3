-- ===== src/UserProgram/Stack.antt =====
-- The stack of a process: 32-bit addresses, and what is pushed below them.
use cse130_git.Prelude.{
  ℕ, ◌+◌, ◌-◌, ◌/◌, ◌%◌, ◌^◌, ◌≡◌, ◌<◌, ◌≤◌, List, [], ◌∷◌, ◌++◌, length, bytes_of, arith,
}

-- Subtraction on `unsigned int` and on pointers.
unfoldable pub sub32 : ℕ → ℕ → ℕ
sub32 a n = (a + 2 ^ 32 - n) % 2 ^ 32

-- `*esp`, and the bytes from there up to the place where the stack began.
pub record Stack : Type 0 where
  pub esp : ℕ
  pub bytes : List ℕ

-- An `unsigned int` in memory, the lowest byte first.
unfoldable pub word32 : ℕ → List ℕ
word32 x = x % 256 ∷ x / 256 % 256 ∷ x / 65536 % 256 ∷ x / 16777216 % 256 ∷ []

abbrev pub push : List ℕ → Stack → Stack
push out s = record { esp = sub32 s.esp (length out); bytes = out ++ s.bytes }

-- `*esp -= n` without a store: the page, by address, shows through.
abbrev pub skip : (ℕ → ℕ) → ℕ → Stack → Stack
skip page n s = let e = sub32 s.esp n in record { esp = e; bytes = bytes_of page e n ++ s.bytes }

-- `*esp -= 4`, and a store of one `char` there.
abbrev pub push_char : (ℕ → ℕ) → ℕ → Stack → Stack
push_char page x s =
    let e = sub32 s.esp 4 in
    record { esp = e; bytes = x % 256 ∷ bytes_of page (e + 1) 3 ++ s.bytes }

pub sub32_lem : (a n : ℕ) → n ≤ a → a < 2 ^ 32 → sub32 a n ≡ a - n
unfolding sub32
sub32_lem a n h l = omega (arith, h, l)

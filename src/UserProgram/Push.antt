-- ===== src/UserProgram/Push.antt =====
-- process.c: push_command, over the bytes of the command line before its final zero.
pub mod Words
mod Scanning
pub mod Frame
pub mod Points
pub mod Lines
use cse130_git.Prelude.{
  ℕ, zero, suc, ◌+◌, ◌-◌, ◌%◌, ◌≡◌, Option, none, some, List, [], ◌∷◌, ◌++◌, Bool, true, false, ltb,
  ◌==◌, if◌then◌else◌, length, take, drop,
}
use cse130_git.UserProgram.Stack.{sub32, Stack, word32, push, skip, push_char}

abbrev pub char_at : List ℕ → ℕ → ℕ
char_at [] i = 0
char_at (c ∷ cs) zero = c
char_at (c ∷ cs) (suc i) = char_at cs i

-- The variables of the scan; `offsets` is filled up to `offlen`.
pub record Scan : Type 0 where
  pub stack : Stack
  pub end_ind : ℕ
  pub prev_space : ℕ
  pub offsets : List ℕ

-- A string of `n` bytes from a place of the command line, with its zero, goes on the stack, and its size
-- into the array of 1000.
unfoldable pub push_string : List ℕ → (from n : ℕ) → Scan → Option Scan
push_string cmdline from n t =
    if ltb (length t.offsets) 1000
    then some (record t {
      stack = push (take n (drop from cmdline) ++ 0 ∷ []) t.stack;
      offsets = t.offsets ++ (n + 1) ∷ [];
    })
    else none

-- The loop, from `start_ind` down, and the first argument behind it.
unfoldable pub scan : List ℕ → ℕ → Scan → Option Scan
scan cmdline zero t = push_string cmdline 0 (t.end_ind + 1) (record t { end_ind = t.end_ind + 1 })
scan cmdline (suc n) t = elim (char_at cmdline (suc n) == 32) [
  | true ↦ elim (t.prev_space == 1) [
    | true ↦ scan cmdline n (record t { end_ind = n })
    | false ↦ elim (push_string cmdline (suc (suc n)) (t.end_ind - suc n) t) [
      | none ↦ none
      | some t' ↦ scan cmdline n (record t' { end_ind = n; prev_space = 1 })
    ]
  ]
  | false ↦ scan cmdline n (record t { prev_space = 0 })
]

abbrev pub push_pointers : List ℕ → ℕ → Stack → Stack
push_pointers [] base s = s
push_pointers (offset ∷ offsets) base s =
    let b = sub32 base offset in push_pointers offsets b (push (word32 b) s)

abbrev pub push_argv : (ℕ → ℕ) → ℕ → Scan → Stack
push_argv page base t =
    let aligned = skip page (4 - t.stack.esp % 4) t.stack in
    let argv = push_pointers t.offsets base (push_char page 0 aligned) in
    push_char page 0 (push_char page (length t.offsets) (push (word32 (sub32 argv.esp 4 + 4)) argv))

-- None where the command line is empty, and a byte before it is read, or the array overflows.
unfoldable pub push_command : (ℕ → ℕ) → List ℕ → ℕ → Option Stack
push_command page [] esp = none
push_command page (c ∷ cs) esp =
    let base = esp - esp % 4 in
    let start : Scan = record {
      stack = record { esp = base; bytes = [] };
      end_ind = length cs;
      prev_space = 0;
      offsets = [];
    } in
    elim (scan (c ∷ cs) (length cs) start) [ none ↦ none | some t ↦ some (push_argv page base t) ]

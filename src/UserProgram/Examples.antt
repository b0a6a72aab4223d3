-- ===== src/UserProgram/Examples.antt =====
-- A command line on the stack, a program that is started, and a call of write.
use cse130_git.Prelude.{
  ℕ, zero, suc, ◌+◌, ◌%◌, ◌≡◌, Option, none, some, List, [], ◌∷◌, ◌++◌, take, drop, arith, refl,
}
use cse130_git.UserProgram.Stack.{Stack, word32, sub32}
use cse130_git.UserProgram.Push.{push_command, scan, push_string}
use cse130_git.UserProgram.Push.Words.{arguments}
use cse130_git.UserProgram.Push.Frame.{frame, words32}
use cse130_git.UserProgram.Push.Points.{PointsTo, push_command-PointsTo}
use cse130_git.UserProgram.Push.Lines.{Next}
use cse130_git.UserProgram.Calls.{Memory, phys_base, syscall_handler, returns}
use cse130_git.UserProgram.Calls.Laws.{UserBytes, syscall_handler_writes}
use cse130_git.UserProgram.Execute.{process_execute, process_execute_lem, all_found, started, runs}

abbrev blank : ℕ → ℕ
blank a = 0

-- "ls  -l" with two spaces.
abbrev ls_line : List ℕ
ls_line = 108 ∷ 115 ∷ 32 ∷ 32 ∷ 45 ∷ 108 ∷ []

arguments_ls : arguments ls_line ≡ (108 ∷ 115 ∷ []) ∷ (45 ∷ 108 ∷ []) ∷ []
arguments_ls = refl

push_command-PointsTo_example :
    (s : Stack) × (push_command blank ls_line phys_base ≡ some s
      × (s.esp % 4 ≡ 0
          × (take 12 s.bytes ≡ word32 0 ++ (word32 2 ++ word32 (s.esp + 12))
              × ((places : List ℕ) × (take 8 (drop 12 s.bytes) ≡ words32 places
                    × PointsTo s.esp s.bytes places (arguments ls_line))))))
push_command-PointsTo_example =
    push_command-PointsTo blank ls_line phys_base (λ a. refl) (omega arith) (omega arith)
      (omega arith) (omega arith)

-- The word "ab" with its zero has an odd size, and the stack pointer is no multiple of four.
odd_line : (s : Stack) × (push_command blank (97 ∷ 98 ∷ []) phys_base ≡ some s × s.esp % 4 ≡ 2)
unfolding push_command scan push_string word32 sub32
odd_line = (frame phys_base ((97 ∷ 98 ∷ []) ∷ []), (refl, refl))

abbrev next_l : Next
next_l = record { more = 1; first = 45; others = 108 ∷ [] }

abbrev load_at : List ℕ → Option ℕ
load_at name = some phys_base

process_execute_lem_example :
    process_execute (all_found 3) load_at blank ls_line
    ≡ started 3 (108 ∷ 115 ∷ []) (runs (frame phys_base ((108 ∷ 115 ∷ []) ∷ (45 ∷ 108 ∷ []) ∷ [])))
process_execute_lem_example =
    process_execute_lem 3 load_at blank 108 (115 ∷ []) (next_l ∷ []) phys_base (λ a. refl)
      (ground arith, (ground arith, tt)) ((ground arith, (ground arith, tt)), tt) (omega arith)
      (omega arith) (omega arith) (omega arith) refl

abbrev stack_bytes : List ℕ
stack_bytes = 9 ∷ 0 ∷ 0 ∷ 0 ∷ 1 ∷ 0 ∷ 0 ∷ 0 ∷ 16 ∷ 0 ∷ 0 ∷ 0 ∷ 2 ∷ 0 ∷ 0 ∷ 0 ∷ 72 ∷ 105 ∷ []

abbrev nth : List ℕ → ℕ → Option ℕ
nth [] i = none
nth (b ∷ bs) zero = some b
nth (b ∷ bs) (suc i) = nth bs i

abbrev memory : Memory
memory a = nth stack_bytes a

stack-UserBytes : UserBytes memory 0 (word32 9 ++ (word32 1 ++ (word32 16 ++ word32 2)))
unfolding word32
stack-UserBytes = (
  (omega arith, refl),
  (
    (omega arith, refl),
    (
      (omega arith, refl),
      (
        (omega arith, refl),
        (
          (omega arith, refl),
          (
            (omega arith, refl),
            (
              (omega arith, refl),
              (
                (omega arith, refl),
                (
                  (omega arith, refl),
                  (
                    (omega arith, refl),
                    (
                      (omega arith, refl),
                      (
                        (omega arith, refl),
                        (
                          (omega arith, refl),
                          ((omega arith, refl), ((omega arith, refl), ((omega arith, refl), tt))),
                        ),
                      ),
                    ),
                  ),
                ),
              ),
            ),
          ),
        ),
      ),
    ),
  ),
)

syscall_handler_writes_example : syscall_handler memory 0 ≡ returns (72 ∷ 105 ∷ []) 2
syscall_handler_writes_example =
    syscall_handler_writes memory 0 16 72 (105 ∷ []) stack-UserBytes
      ((omega arith, refl), ((omega arith, refl), tt))

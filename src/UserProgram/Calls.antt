-- ===== src/UserProgram/Calls.antt =====
-- umem.c and syscall.c: reading the memory of a user, and the system calls.
pub mod Laws
use cse130_git.Prelude.{
  ℕ, zero, suc, ◌+◌, ◌-◌, ◌*◌, ◌%◌, ◌^◌, ◌≡◌, Option, none, some, List, [], ◌∷◌, ◌++◌, Bool, true,
  false, ◌&&◌, ltb, ◌==◌, if◌then◌else◌, bytes_of,
}

abbrev pub phys_base : ℕ
phys_base = 3221225472

-- What is mapped of the addresses, and the bytes there.
abbrev pub Memory : Type 0
Memory = ℕ → Option ℕ

-- An address is an `unsigned int`.
abbrev pub plus32 : ℕ → ℕ → ℕ
plus32 a n = (a + n) % 2 ^ 32

-- None for -1: not below PHYS_BASE, or a page fault.
abbrev pub umem_get : Memory → ℕ → Option ℕ
umem_get memory uaddr = if ltb uaddr phys_base then memory uaddr else none

-- False stands for the fault, which ends in a panic.
abbrev pub umem_check : Memory → ℕ → Bool
umem_check memory uaddr = elim (umem_get memory uaddr) [ none ↦ false | some byte ↦ true ]

-- The bytes from `i` on that `dst` gets, `n` in all; none for the panic.
unfoldable pub umem_read_from : Memory → (src i n : ℕ) → Option (List ℕ)
umem_read_from memory src i zero = some []
umem_read_from memory src i (suc n) = elim (umem_get memory (plus32 src i)) [
  | none ↦ none
  | some value ↦ elim (umem_read_from memory src (i + 1) n) [
    | none ↦ none
    | some rest ↦ some (value % 256 ∷ rest)
  ]
]

abbrev pub umem_read : Memory → (src bytes : ℕ) → Option (List ℕ)
umem_read memory src bytes = umem_read_from memory src 0 bytes

-- Four bytes as an `unsigned`.
abbrev pub value_of : List ℕ → ℕ
value_of [] = 0
value_of (b ∷ bs) = b + 256 * value_of bs

abbrev pub read_word : Memory → ℕ → Option ℕ
read_word memory src = elim (umem_read memory src 4) [ none ↦ none | some bs ↦ some (value_of bs) ]

-- How a system call ends: the machine is off, the thread exits, behind a line with an exit code or with
-- the number of an unknown call, a panic of a bad pointer, a fault of the kernel, or it comes back, with
-- what it has printed and `eax`.
pub data Outcome : Type 0 where
  power_off : Outcome
  exits : ℕ → Outcome
  unimplemented : ℕ → Outcome
  panics : Outcome
  kernel_fault : Outcome
  returns : List ℕ → (eax : ℕ) → Outcome

-- `putbuf` loads the bytes with no check.
unfoldable pub putbuf : Memory → (buffer n : ℕ) → Option (List ℕ)
putbuf memory buffer zero = some []
putbuf memory buffer (suc n) = elim (memory buffer) [
  | none ↦ none
  | some c ↦ elim (putbuf memory (plus32 buffer 1) n) [ none ↦ none | some rest ↦ some (c ∷ rest) ]
]

abbrev pub print : ℕ → Option (List ℕ) → Outcome
print size none = kernel_fault
print size (some out) = returns out size

abbrev pub sys_write : Memory → (fd buffer size : ℕ) → Outcome
sys_write memory fd buffer size =
    if umem_check memory buffer && umem_check memory (plus32 buffer (size + 2 ^ 32 - 1))
    then (if fd == 1 then print size (putbuf memory buffer size) else returns [] (2 ^ 32 - 1))
    else panics

-- A word of the caller's stack, for the rest of a handler.
abbrev pub with_word : Option ℕ → (ℕ → Outcome) → Outcome
with_word none rest = panics
with_word (some value) rest = rest value

abbrev pub exit_handler : Memory → ℕ → Outcome
exit_handler memory esp = with_word (read_word memory (plus32 esp 4)) (λ exitcode. exits exitcode)

abbrev pub write_handler : Memory → ℕ → Outcome
write_handler memory esp = with_word (read_word memory (plus32 esp 4)) (λ fd.
    with_word (read_word memory (plus32 esp 8)) (λ buffer.
      with_word (read_word memory (plus32 esp 12)) (λ size. sys_write memory fd buffer size)))

-- SYS_HALT is 0, SYS_EXIT 1 and SYS_WRITE 9.
unfoldable pub syscall_handler : Memory → ℕ → Outcome
syscall_handler memory esp = with_word (read_word memory esp) (λ syscall.
    if syscall == 0
    then power_off
    else (if syscall == 1
        then exit_handler memory esp
        else (if syscall == 9 then write_handler memory esp else unimplemented syscall)))

-- ===== src/Kernel/Intq.antt =====
-- Lab2/pintos/src/devices/intq.c: a circular buffer between threads and interrupt handlers. Interrupts
-- are off, as each of its functions asserts.
pub mod Fifo
mod Examples
use cse130_git.Prelude.{
  ℕ, ◌+◌, ◌%◌, ◌≡◌, Option, none, some, Bool, true, false, not, ◌&&◌, ◌==◌, if◌then◌else◌, update,
}
use cse130_git.Kernel.State.{Kernel}
use cse130_git.Kernel.Threads.{thread_block, thread_unblock}
use cse130_git.Kernel.Sync.{
  Lock, lock_init, lock_acquire, lock_release, lock_held_by_current_thread,
}

abbrev pub intq_bufsize : ℕ
intq_bufsize = 64

pub record Intq : Type 0 where
  pub lock : Lock
  pub not_full : Option ℕ
  pub not_empty : Option ℕ
  pub buf : ℕ → ℕ
  pub head : ℕ
  pub tail : ℕ

abbrev pub intq_init : (ℕ → ℕ) → Intq
intq_init raw = record {
  lock = lock_init;
  not_full = none;
  not_empty = none;
  buf = raw;
  head = 0;
  tail = 0;
}

abbrev pub next : ℕ → ℕ
next pos = (pos + 1) % intq_bufsize

abbrev pub intq_empty : Intq → Bool
intq_empty q = q.head == q.tail

abbrev pub intq_full : Intq → Bool
intq_full q = next q.head == q.tail

-- `wait`, for the byte that is to come, and for room. The condition that it asserts is the one of the
-- loop it is called from.
abbrev pub wait_not_empty : Intq → Kernel → Option (Intq × Kernel)
wait_not_empty q k = elim (thread_block k) [
  | none ↦ none
  | some k' ↦ some (record q { not_empty = some k.cur }, k')
]

abbrev pub wait_not_full : Intq → Kernel → Option (Intq × Kernel)
wait_not_full q k = elim (thread_block k) [
  | none ↦ none
  | some k' ↦ some (record q { not_full = some k.cur }, k')
]

-- `signal`, which asserts that the condition holds.
abbrev pub signal_not_empty : Intq → Kernel → Option (Intq × Kernel)
signal_not_empty q k = if intq_empty q then none else elim q.not_empty [
  | none ↦ some (q, k)
  | some t ↦ elim (thread_unblock k t) [
    | none ↦ none
    | some k' ↦ some (record q { not_empty = none }, k')
  ]
]

abbrev pub signal_not_full : Intq → Kernel → Option (Intq × Kernel)
signal_not_full q k = if intq_full q then none else elim q.not_full [
  | none ↦ some (q, k)
  | some t ↦ elim (thread_unblock k t) [
    | none ↦ none
    | some k' ↦ some (record q { not_full = none }, k')
  ]
]

-- What a call comes to: it returns, or the caller sleeps, for the lock or in `wait`, which is what one
-- test of the loop leads to.
pub data Call (A : Type 0) : Type 0 where
  returns : A → Intq → Kernel → Call A
  sleeps : Intq → Kernel → Call A

abbrev asleep : {A : Type 0} → Option (Intq × Kernel) → Option (Call A)
asleep none = none
asleep (some (q, k)) = some (sleeps q k)

-- The body of the loop: the lock, and the wait of a caller that has it.
abbrev pub sleep :
    {A : Type 0} → (Intq → Kernel → Option (Intq × Kernel)) → Intq → Kernel → Option (Call A)
sleep wait q k = if k.in_external_intr then none else elim (lock_acquire q.lock k) [
  | none ↦ none
  | some (lock, k') ↦
      let q' = record q { lock = lock } in
      if lock_held_by_current_thread lock k then asleep (wait q' k') else some (sleeps q' k')
]

abbrev finished : {A : Type 0} → A → Option (Intq × Kernel) → Option (Call A)
finished x none = none
finished x (some (q, k)) = some (returns x q k)

unfoldable pub intq_getc : Intq → Kernel → Option (Call ℕ)
intq_getc q k =
    if intq_empty q
    then sleep wait_not_empty q k
    else finished (q.buf q.tail) (signal_not_full (record q { tail = next q.tail }) k)

unfoldable pub intq_putc : Intq → ℕ → Kernel → Option (Call Unit)
intq_putc q byte k =
    if intq_full q
    then sleep wait_not_full q k
    else finished tt
        (signal_not_empty (record q { buf = update q.buf q.head byte; head = next q.head }) k)

-- Behind `wait` the caller gives the lock back and tests again.
abbrev pub intq_getc_woken : Intq → Kernel → Option (Call ℕ)
intq_getc_woken q k = elim (lock_release q.lock k) [
  | none ↦ none
  | some (lock, k') ↦ intq_getc (record q { lock = lock }) k'
]

abbrev pub intq_putc_woken : Intq → ℕ → Kernel → Option (Call Unit)
intq_putc_woken q byte k = elim (lock_release q.lock k) [
  | none ↦ none
  | some (lock, k') ↦ intq_putc (record q { lock = lock }) byte k'
]

-- ===== src/Kernel/Sync.antt =====
-- Lab2/pintos/src/threads: semaphore.c, lock.c and condvar.c.
use cse130_git.Prelude.{
  ℕ, ◌+◌, ◌-◌, Option, none, some, List, [], ◌∷◌, Bool, false, not, ◌||◌, ltb, ◌==◌, if◌then◌else◌,
}
use cse130_git.Kernel.State.{Kernel, priority_of}
use cse130_git.Kernel.Ordered.{insert_ordered_thread_priority}
use cse130_git.Kernel.Threads.{thread_block, thread_unblock}

pub record Semaphore : Type 0 where
  pub value : ℕ
  pub waiters : List ℕ

abbrev pub semaphore_init : ℕ → Semaphore
semaphore_init value = record { value = value; waiters = [] }

-- What one test of the loop's condition in `semaphore_down` leads to: the caller returns, or it sleeps
-- and will test again when it runs next.
pub data Down : Type 0 where
  returns : Semaphore → Kernel → Down
  sleeps : Semaphore → Kernel → Down

abbrev pub semaphore_down : Semaphore → Kernel → Option Down
semaphore_down sema k =
    if k.in_external_intr
    then none
    else (if sema.value == 0
        then elim (thread_block k) [
          | none ↦ none
          | some k' ↦ some (
              sleeps
                (record sema {
                  waiters = insert_ordered_thread_priority (priority_of k) sema.waiters k.cur;
                })
                k')
        ]
        else some (returns (record sema { value = sema.value - 1 }) k))

abbrev pub semaphore_up : Semaphore → Kernel → Option (Semaphore × Kernel)
semaphore_up sema k = elim sema.waiters [
  | [] ↦ some (record sema { value = sema.value + 1 }, k)
  | t ∷ ts ↦ elim (thread_unblock k t) [
    | none ↦ none
    | some k' ↦ some (record { value = sema.value + 1; waiters = ts }, k')
  ]
]

pub record Lock : Type 0 where
  pub holder : Option ℕ
  pub semaphore : Semaphore

abbrev pub lock_init : Lock
lock_init = record { holder = none; semaphore = semaphore_init 1 }

abbrev pub lock_held_by_current_thread : Lock → Kernel → Bool
lock_held_by_current_thread lock k = elim lock.holder [ none ↦ false | some t ↦ t == k.cur ]

-- A caller that sleeps sets the holder when its `semaphore_down` returns later.
abbrev pub lock_acquire : Lock → Kernel → Option (Lock × Kernel)
lock_acquire lock k =
    if lock_held_by_current_thread lock k then none else elim (semaphore_down lock.semaphore k) [
      | none ↦ none
      | some d ↦ elim d [
        | returns sema k' ↦ some (record { holder = some k'.cur; semaphore = sema }, k')
        | sleeps sema k' ↦ some (record lock { semaphore = sema }, k')
      ]
    ]

abbrev pub lock_release : Lock → Kernel → Option (Lock × Kernel)
lock_release lock k =
    if lock_held_by_current_thread lock k
    then elim (semaphore_up lock.semaphore k) [
      | none ↦ none
      | some (sema, k') ↦ some (record { holder = none; semaphore = sema }, k')
    ]
    else none

-- `struct condvar`: the semaphores of `struct semaphore_elem`, one for each waiter.
abbrev pub Condvar : Type 0
Condvar = List Semaphore

-- The loop of `condvar_wait`: it looks at the thread that waits on each semaphore, and `list_front`
-- asserts that there is one.
abbrev pub place_waiter : Kernel → Condvar → Semaphore → Option Condvar
place_waiter k [] waiter = some (waiter ∷ [])
place_waiter k (s ∷ ss) waiter =
    let rest = place_waiter k ss waiter in
    elim s.waiters [
      | [] ↦ none
      | t ∷ ts ↦
          if ltb (priority_of k t) (priority_of k k.cur)
          then some (waiter ∷ s ∷ ss)
          else elim rest [ none ↦ none | some ss' ↦ some (s ∷ ss') ]
    ]

-- `condvar_wait` up to `semaphore_down` of the waiter's own semaphore.
abbrev pub condvar_wait : Condvar → Lock → Kernel → Option (Condvar × Lock × Kernel)
condvar_wait cond lock k =
    if k.in_external_intr || not (lock_held_by_current_thread lock k)
    then none
    else elim (place_waiter k cond (semaphore_init 0)) [
      | none ↦ none
      | some cond' ↦ elim (lock_release lock k) [
        | none ↦ none
        | some (lock', k') ↦ some (cond', lock', k')
      ]
    ]

abbrev pub condvar_signal : Condvar → Lock → Kernel → Option (Condvar × Kernel)
condvar_signal cond lock k =
    if k.in_external_intr || not (lock_held_by_current_thread lock k) then none else elim cond [
      | [] ↦ some ([], k)
      | s ∷ ss ↦ elim (semaphore_up s k) [ none ↦ none | some (s', k') ↦ some (ss, k') ]
    ]

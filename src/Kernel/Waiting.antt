-- ===== src/Kernel/Waiting.antt =====
-- What semaphore.c, lock.c and condvar.c do to their waiters.
use cse130_git.Prelude.{
  ℕ, ◌+◌, ◌-◌, ◌≤◌, ◌<◌, ◌≡◌, ◌≢◌, ◌⊎◌, inl, inr, refl, none, some, List, [], ◌∷◌, tail, true,
  false, ◌==◌, SameItems, All, arith, Bool-cases,
}
use cse130_git.Kernel.State.{blocked, Kernel, priority_of, status_of}
use cse130_git.Kernel.Ordered.{
  insert_ordered_thread_priority, Descending, insert-Descending, insert-SameItems,
}
use cse130_git.Kernel.Sync.{
  Semaphore, Down, returns, sleeps, semaphore_down, semaphore_up, Lock, lock_held_by_current_thread,
  lock_acquire, lock_release, Condvar, condvar_wait,
}
use cse130_git.Kernel.Invariant.{Inv}
use cse130_git.Kernel.Keeping.{block-Inv, unblock-Inv}

-- What `semaphore_down` may end in: a positive value is taken, or the caller is among the waiters, the
-- highest priority first, and another thread runs.
abbrev pub IsDown : Semaphore → Kernel → Down → Type 0
IsDown sema k (returns sema' k') =
    (sema.value ≡ sema'.value + 1) × (sema'.waiters ≡ sema.waiters) × (k' ≡ k)
IsDown sema k (sleeps sema' k') =
    (sema.value ≡ 0)
    × (sema'.value ≡ 0)
    × SameItems sema'.waiters (k.cur ∷ sema.waiters)
    × Descending (priority_of k) sema'.waiters
    × Inv false k'

-- `semaphore_down` does not panic, and either takes one from a positive value, leaving the rest, or
-- finds 0 and puts the caller among the waiters, in descending priority, and then the most urgent thread
-- runs.
pub semaphore_down_lem :
    (sema : Semaphore) (k : Kernel)
    → Inv false k
    → Descending (priority_of k) sema.waiters
    → (d : Down) × (semaphore_down sema k ≡ some d) × IsDown sema k d
semaphore_down_lem sema k i h = elim (Bool-cases (sema.value == 0)) [
  | inl e ↦
      let (k', y, inv) = block-Inv k i in
      (
        sleeps
            (record sema {
              waiters = insert_ordered_thread_priority (priority_of k) sema.waiters k.cur;
            })
            k',
        rw (semaphore_down, y, i.queued.context, e) refl,
        (
          ground (arith, e),
          ground (arith, e),
          insert-SameItems (priority_of k) k.cur sema.waiters,
          insert-Descending (priority_of k) k.cur sema.waiters h,
          inv,
        ),
      )
  | inr e ↦ (
    returns (record sema { value = sema.value - 1 }) k,
    rw (i.queued.context, e) refl,
    (ground (arith, e), refl, refl),
  )
]

-- The waiters of a semaphore sleep.
abbrev pub Sleeping : Kernel → List ℕ → Type 0
Sleeping k = All (λ t. (status_of k t ≡ blocked) × (t ≢ k.idle_thread) × (t < k.next_tid))

-- `semaphore_up` does not panic where the waiters sleep: it adds one to the value, takes the first
-- waiter, if there is one, from the list, and then the most urgent thread runs.
pub semaphore_up_lem :
    (sema : Semaphore) (k : Kernel) (ts : List ℕ)
    → sema.waiters ≡ ts
    → Inv false k
    → Sleeping k ts
    → (k' : Kernel) × (semaphore_up sema k
        ≡ some (record { value = sema.value + 1; waiters = tail ts }, k'))
      × Inv false k'
semaphore_up_lem sema k [] e i h = (k, rw e refl, i)
semaphore_up_lem sema k (t ∷ ts) e i h =
    let (k', y, inv) = unblock-Inv k t i h.0.0 h.0.1 h.0.2 in
    (k', rw (semaphore_up, e, y) refl, inv)

-- A lock's semaphore has the value 0 or 1, and 0 while the lock is held.
abbrev pub IsLock : Lock → Type 0
IsLock lock = (lock.semaphore.value ≤ 1) × ((lock.holder ≡ none) ⊎ (lock.semaphore.value ≡ 0))

acquire_from :
    (lock : Lock) (k : Kernel) (d : Down)
    → IsLock lock
    → lock_held_by_current_thread lock k ≡ false
    → semaphore_down lock.semaphore k ≡ some d
    → IsDown lock.semaphore k d
    → (lock' : Lock) × (k' : Kernel) × (lock_acquire lock k ≡ some (lock', k'))
      × IsLock lock'
      × ((lock'.holder ≡ lock.holder) ⊎ ((lock.holder ≡ none) × (lock'.holder ≡ some k.cur)))
acquire_from lock k (returns sema k') h held e down = (
  record { holder = some k'.cur; semaphore = sema },
  k',
  rw (lock_acquire, held, e) refl,
  (omega (arith, h.0, down.0), inr (omega (arith, h.0, down.0))),
  inr (elim h.1 [ inl n ↦ n | inr z ↦ absurd (omega (arith, z, down.0)) ], rw down.2 refl),
)
acquire_from lock k (sleeps sema k') h held e down = (
  record lock { semaphore = sema },
  k',
  rw (lock_acquire, held, e) refl,
  (omega (arith, down.1), inr down.1),
  inl refl,
)

-- A lock has at most one holder: `lock_acquire` by a thread that does not hold the lock keeps its value
-- at most 1, and 0 while it is held, and changes the holder only from none to the current thread.
pub lock_acquire_lem :
    (lock : Lock) (k : Kernel)
    → Inv false k
    → Descending (priority_of k) lock.semaphore.waiters
    → IsLock lock
    → lock.holder ≢ some k.cur
    → (lock' : Lock) × (k' : Kernel) × (lock_acquire lock k ≡ some (lock', k'))
      × IsLock lock'
      × ((lock'.holder ≡ lock.holder) ⊎ ((lock.holder ≡ none) × (lock'.holder ≡ some k.cur)))
lock_acquire_lem lock k i h l n =
    let (d, e, down) = semaphore_down_lem lock.semaphore k i h in
    acquire_from lock k d l (not_held lock k n) e down
  where
    not_held :
        (lock : Lock) (k : Kernel)
        → lock.holder ≢ some k.cur
        → lock_held_by_current_thread lock k ≡ false
    not_held lock k n = ground (arith, n)

-- The holder's `lock_release` frees the lock, and then the most urgent thread runs.
pub lock_release_lem :
    (lock : Lock) (k : Kernel)
    → Inv false k
    → Sleeping k lock.semaphore.waiters
    → IsLock lock
    → lock.holder ≡ some k.cur
    → (lock' : Lock) × (k' : Kernel) × (lock_release lock k ≡ some (lock', k'))
      × IsLock lock'
      × (lock'.holder ≡ none)
      × (lock'.semaphore.value ≡ 1)
      × Inv false k'
lock_release_lem lock k i h l n =
    let (k', e, inv) = semaphore_up_lem lock.semaphore k lock.semaphore.waiters refl i h in
    (
      record {
        holder = none;
        semaphore = record {
          value = lock.semaphore.value + 1;
          waiters = tail lock.semaphore.waiters;
        };
      },
      k',
      rw (lock_release, held, e) refl,
      (omega (arith, zero_value), inl refl),
      refl,
      omega (arith, zero_value),
      inv,
    )
  where
    held : lock_held_by_current_thread lock k ≡ true
    held = ground (arith, n)

    zero_value : lock.semaphore.value ≡ 0
    zero_value = ground (arith, l.1, n)

-- After a thread has entered `condvar_wait` on a condition without waiters, and before it sleeps on
-- its own semaphore, another call of `condvar_wait` on that condition panics.
pub condvar_wait_twice :
    (lock lock' lock2 : Lock) (k k' k2 : Kernel) (cond' : Condvar)
    → condvar_wait [] lock k ≡ some (cond', lock', k')
    → condvar_wait cond' lock2 k2 ≡ none
condvar_wait_twice lock lock' lock2 k k' k2 cond' e = ground arith

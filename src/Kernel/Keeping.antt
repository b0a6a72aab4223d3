-- ===== src/Kernel/Keeping.antt =====
-- The operations of thread.c return and keep the invariant.
use cse130_git.Prelude.{
  ℕ, ◌≤◌, ◌<◌, ◌≡◌, ◌≢◌, inl, inr, refl, some, Bool, false, not, ◌&&◌, ltb, ◌==◌, arith, Bool-cases,
}
use cse130_git.Kernel.State.{
  Status, ready, blocked, dying, Kernel, priority_of, status_of, set_status,
}
use cse130_git.Kernel.Ordered.{All-imp, insert-All}
use cse130_git.Kernel.Threads.{
  enqueue, schedule, thread_yield, thread_block, thread_exit, thread_unblock,
}
use cse130_git.Kernel.Invariant.{
  Queued, Inv, NotQueued, unready-NotQueued, set_status-Queued, make_ready-Queued, schedule-Inv,
}

-- A running thread is not in the list.
pub cur-NotQueued : {b : Bool} (k : Kernel) → Inv b k → NotQueued k k.cur
cur-NotQueued k i = unready-NotQueued k k.cur i.queued (λ e. ground (arith, i.runs))

-- Leaving the processor: the current thread gets another status, and the next one runs.
pub leave-Inv :
    {b : Bool} (k : Kernel) (s : Status) → Inv b k → Inv b (schedule (set_status k k.cur s))
leave-Inv k s i =
    schedule-Inv (set_status k k.cur s) k.ready_list refl
      (set_status-Queued k k.cur s i.queued (cur-NotQueued k i))

abbrev pub Yields : Kernel → Type 0
Yields k = (k' : Kernel) × (thread_yield k ≡ some k') × Inv false k'

pub yield_from-Inv : (k : Kernel) → Queued false k → NotQueued k k.cur → Yields k
yield_from-Inv k q n = elim (Bool-cases (k.cur == k.idle_thread)) [
  | inl e ↦ (
    schedule (set_status k k.cur ready),
    rw (q.context, e) refl,
    schedule-Inv (set_status k k.cur ready) k.ready_list refl (set_status-Queued k k.cur ready q n),
  )
  | inr e ↦ (
    schedule (set_status (enqueue k k.cur) k.cur ready),
    rw (q.context, e) refl,
    schedule-Inv (set_status (enqueue k k.cur) k.cur ready) ((enqueue k k.cur).ready_list) refl
        (make_ready-Queued k k.cur q n (ground (arith, e)) q.cur_known),
  )
]

-- `thread_yield` returns, and then the most urgent thread runs.
pub yield-Inv :
    (k : Kernel) → Inv false k → (k' : Kernel) × (thread_yield k ≡ some k') × Inv false k'
yield-Inv k i = yield_from-Inv k i.queued (cur-NotQueued k i)

-- `thread_block` and `thread_exit` return to another thread, the most urgent one.
pub block-Inv :
    (k : Kernel) → Inv false k → (k' : Kernel) × (thread_block k ≡ some k') × Inv false k'
block-Inv k i =
    (schedule (set_status k k.cur blocked), rw i.queued.context refl, leave-Inv k blocked i)

pub exit-Inv : (k : Kernel) → Inv false k → (k' : Kernel) × (thread_exit k ≡ some k') × Inv false k'
exit-Inv k i = (schedule (set_status k k.cur dying), rw i.queued.context refl, leave-Inv k dying i)

module _ {inside : Bool} (k : Kernel) (t : ℕ) (i : Inv inside k) (b : status_of k t ≡ blocked)
    (n : t ≢ k.idle_thread) (known : t < k.next_tid) where
  -- The unblocked thread in the list, before any yield.
  abbrev pub woken : Kernel
  woken = set_status (enqueue k t) t ready

  abbrev pub overtakes : Bool
  overtakes = ltb (priority_of k k.cur) (priority_of k t) && not (k.cur == k.idle_thread)

  woken-Queued : Queued inside woken
  woken-Queued =
      make_ready-Queued k t i.queued (unready-NotQueued k t i.queued (λ e. ground (arith, b))) n
        known

  woken-NotQueued : NotQueued woken k.cur
  woken-NotQueued =
      insert-All (priority_of k) t (λ y. y ≢ k.cur) k.ready_list (λ e. ground (arith, i.runs, b))
        (cur-NotQueued k i)

  -- Where it does not overtake the current thread, that one goes on.
  pub woken-Inv : overtakes ≡ false → (thread_unblock k t ≡ some woken) × Inv inside woken
  woken-Inv e = (
    rw (b, e) refl,
    record {
      queued = woken-Queued;
      runs = ground (arith, i.runs, b);
      urgent = elim i.urgent [
        | inl u ↦ inl u
        | inr u ↦ elim (Bool-cases (k.cur == k.idle_thread)) [
          | inl v ↦ inl (ground (arith, v))
          | inr v ↦ inr (
              insert-All (priority_of k) t (λ y. priority_of woken y ≤ priority_of woken k.cur)
                k.ready_list (ground (arith, e, v))
                (All-imp k.ready_list (λ y l. ground (arith, l)) u))
        ]
      ];
    },
  )

-- `thread_unblock` returns, and then the most urgent thread runs: the unblocked one, if it overtakes.
pub unblock-Inv :
    (k : Kernel) (t : ℕ)
    → Inv false k
    → status_of k t ≡ blocked
    → t ≢ k.idle_thread
    → t < k.next_tid
    → (k' : Kernel) × (thread_unblock k t ≡ some k') × Inv false k'
unblock-Inv k t i b n known = elim (Bool-cases (overtakes k t i b n known)) [
  | inl e ↦
      let (k', y, inv) =
        yield_from-Inv (woken k t i b n known) (woken-Queued k t i b n known)
          (woken-NotQueued k t i b n known) in
      (k', rw (b, e) y, inv)
  | inr e ↦ let (x, y) = woken-Inv k t i b n known e in (woken k t i b n known, x, y)
]

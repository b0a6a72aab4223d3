-- ===== src/Kernel/Examples.antt =====
-- A main thread, an idle thread, a ready one, and two blocked ones.
use cse130_git.Prelude.{
  ℕ, ◌≤◌, ◌<◌, ◌≡◌, inr, refl, none, some, List, [], ◌∷◌, true, false, ◌==◌, if◌then◌else◌, All,
  arith,
}
use cse130_git.Kernel.State.{
  Status, running, ready, blocked, Thread, Kernel, priority_of, status_of,
}
use cse130_git.Kernel.Ordered.{insert_ordered_thread_priority, Descending, insert-Descending}
use cse130_git.Kernel.Sync.{Semaphore, semaphore_init, Down, semaphore_down, Lock, condvar_wait}
use cse130_git.Kernel.Timer.{wake_up_tick_of, timer_interrupt, intr_handler}
use cse130_git.Kernel.Invariant.{Inv}
use cse130_git.Kernel.Waiting.{IsDown, semaphore_down_lem, condvar_wait_twice}
use cse130_git.Kernel.Waking.{intr_handler_lem, intr_handler_panics}

abbrev some_thread : Status → ℕ → ℕ → Thread
some_thread s p w = record { status = s; priority = p; wake_up_tick = w }

abbrev threads : ℕ → Thread
threads t =
    if t == 0
    then some_thread running 31 0
    else (if t == 2
        then some_thread ready 20 0
        else (if t == 3 then some_thread blocked 40 9 else some_thread blocked 10 8))

-- Thread 1 is the idle thread, and `sleepers` sleep.
abbrev busy_with : List ℕ → Kernel
busy_with sleepers = record {
  thread = threads;
  cur = 0;
  idle_thread = 1;
  ready_list = 2 ∷ [];
  timer_list = sleepers;
  next_tid = 5;
  ticks = 7;
  thread_ticks = 3;
  idle_ticks = 4;
  kernel_ticks = 3;
  in_external_intr = false;
  yield_on_return = false;
}

abbrev busy : Kernel
busy = busy_with (4 ∷ [])

busy-Inv : (sleepers : List ℕ) → Inv false (busy_with sleepers)
busy-Inv sleepers = record {
  queued = record {
    readies = (refl, tt);
    ordered = (tt, tt);
    distinct = (tt, tt);
    no_idle = (omega arith, tt);
    known = (omega arith, tt);
    idle_known = omega arith;
    cur_known = omega arith;
    context = refl;
  };
  runs = refl;
  urgent = inr (omega arith, tt);
}

abbrev sema : Semaphore
sema = record { value = 0; waiters = 3 ∷ 4 ∷ [] }

abbrev held_lock : Lock
held_lock = record { holder = some 0; semaphore = sema }

abbrev taken_lock : Lock
taken_lock = record { holder = some 2; semaphore = sema }

insert-Descending_example :
    Descending (priority_of busy) (insert_ordered_thread_priority (priority_of busy) (3 ∷ 4 ∷ []) 2)
insert-Descending_example =
    insert-Descending (priority_of busy) 2 (3 ∷ 4 ∷ []) ((omega arith, tt), (tt, tt))

semaphore_down_lem_example : (d : Down) × (semaphore_down sema busy ≡ some d) × IsDown sema busy d
semaphore_down_lem_example =
    semaphore_down_lem sema busy (busy-Inv (4 ∷ [])) ((omega arith, tt), (tt, tt))

abbrev free_lock : Lock
free_lock = record { holder = some 0; semaphore = semaphore_init 0 }

condvar_wait_twice_example : condvar_wait (semaphore_init 0 ∷ []) free_lock busy ≡ none
condvar_wait_twice_example =
    condvar_wait_twice free_lock (record { holder = none; semaphore = semaphore_init 1 }) free_lock
      busy busy busy (semaphore_init 0 ∷ []) refl

abbrev wakes : ℕ → ℕ
wakes t = if t == 9 then 20 else 10

abbrev priorities : ℕ → ℕ
priorities t = if t == 7 then 20 else 40

intr_handler_lem_example :
    (k' : Kernel) × (timer_interrupt
        (record busy { in_external_intr = true; yield_on_return = false })
      ≡ some k')
    × All (λ t. wake_up_tick_of busy t ≤ 8 → status_of k' t ≡ ready) (4 ∷ [])
    × All (λ t. 8 < wake_up_tick_of busy t) k'.timer_list
    × (k'' : Kernel) × (intr_handler busy ≡ some k'')
    × Inv false k''
intr_handler_lem_example =
    intr_handler_lem busy (busy-Inv (4 ∷ [])) (tt, tt) (tt, tt)
      ((refl, omega arith, omega arith, inr (omega arith)), tt)

abbrev late : Kernel
late = record (busy_with (3 ∷ [])) { ticks = 8 }

intr_handler_panics_example : intr_handler late ≡ none
intr_handler_panics_example =
    intr_handler_panics late 3 [] refl (omega arith) (omega arith) (omega arith)

-- ===== src/Kernel/Threads.antt =====
-- Lab2/pintos/src/threads/thread.c: the operations on threads. An `ASSERT` that fails is a panic, `none`.
use cse130_git.Prelude.{
  ℕ, ◌+◌, Option, none, some, List, [], ◌∷◌, Bool, true, false, not, ◌&&◌, ltb, leb, ◌==◌,
  if◌then◌else◌, update,
}
use cse130_git.Kernel.State.{
  Status, running, ready, blocked, dying, Kernel, priority_of, status_of, set_status,
}
use cse130_git.Kernel.Ordered.{insert_ordered_thread_priority}

abbrev pub time_slice : ℕ
time_slice = 4

-- `insert_ordered_thread_priority (&ready_list, t)`.
abbrev pub enqueue : Kernel → ℕ → Kernel
enqueue k t = record k {
  ready_list = insert_ordered_thread_priority (priority_of k) k.ready_list t;
}

-- The thread to run, and the ready list without it.
abbrev pub next_thread_to_run : Kernel → ℕ × List ℕ
next_thread_to_run k = elim k.ready_list [ [] ↦ (k.idle_thread, []) | t ∷ ts ↦ (t, ts) ]

-- The part of `thread_schedule_tail` that the model sees.
abbrev pub thread_schedule_tail : Kernel → Kernel
thread_schedule_tail k = record (set_status k k.cur running) { thread_ticks = 0 }

abbrev pub schedule : Kernel → Kernel
schedule k =
    let (next, rest) = next_thread_to_run k in
    thread_schedule_tail (record k { cur = next; ready_list = rest })

abbrev pub thread_yield : Kernel → Option Kernel
thread_yield k =
    if k.in_external_intr
    then none
    else (let queued = (if k.cur == k.idle_thread then k else enqueue k k.cur) in
        some (schedule (set_status queued k.cur ready)))

abbrev pub thread_block : Kernel → Option Kernel
thread_block k = if k.in_external_intr then none else some (schedule (set_status k k.cur blocked))

abbrev pub thread_exit : Kernel → Option Kernel
thread_exit k = if k.in_external_intr then none else some (schedule (set_status k k.cur dying))

abbrev pub is_blocked : Status → Bool
is_blocked blocked = true
is_blocked _ = false

abbrev pub thread_unblock : Kernel → ℕ → Option Kernel
thread_unblock k t =
    if is_blocked (status_of k t)
    then (let woken = set_status (enqueue k t) t ready in
        if ltb (priority_of k k.cur) (priority_of k t) && not (k.cur == k.idle_thread)
        then thread_yield woken
        else some woken)
    else none

-- `thread_create`, told whether `palloc_get_page` finds a page: the new thread's `tid`, or none for
-- `TID_ERROR`, and what `thread_unblock` makes. `init_thread` asserts the range of the priority.
abbrev pub thread_create : Kernel → (page : Bool) → ℕ → Option (Option ℕ × Kernel)
thread_create k false priority = some (none, k)
thread_create k true priority =
    if leb priority 63
    then (let t = k.next_tid in
        let made = record k {
          thread =
              update k.thread t
                (record { status = blocked; priority = priority; wake_up_tick = 0 });
          next_tid = k.next_tid + 1;
        } in
        elim (thread_unblock made t) [ none ↦ none | some k' ↦ some (some t, k') ])
    else none

abbrev pub thread_set_priority : Kernel → ℕ → Option Kernel
thread_set_priority k new_priority = thread_yield (record k {
  thread = update k.thread k.cur (record (k.thread k.cur) { priority = new_priority });
})

-- `intr_yield_on_return` asserts an interrupt context.
abbrev pub intr_yield_on_return : Kernel → Option Kernel
intr_yield_on_return k =
    if k.in_external_intr then some (record k { yield_on_return = true }) else none

abbrev pub count_tick : Kernel → Kernel
count_tick k = record k {
  idle_ticks = if k.cur == k.idle_thread then k.idle_ticks + 1 else k.idle_ticks;
  kernel_ticks = if k.cur == k.idle_thread then k.kernel_ticks else k.kernel_ticks + 1;
}

abbrev pub thread_tick : Kernel → Option Kernel
thread_tick k =
    let later = record (count_tick k) { thread_ticks = k.thread_ticks + 1 } in
    if leb time_slice (k.thread_ticks + 1) then intr_yield_on_return later else some later

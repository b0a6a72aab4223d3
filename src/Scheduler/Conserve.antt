-- ===== src/Scheduler/Conserve.antt =====
-- No callback loses or duplicates a thread.
use cse130_git.Prelude.{
  ℕ, ◌+◌, ◌≡◌, refl, Option, none, some, Option-cases, inl, inr, sub_ℕ, List, [], ◌∷◌, ◌++◌, Bool,
  if◌then◌else◌, head?, tail, count, count-append, arith,
}
use cse130_git.Queue.{QueueLib}
use cse130_git.Scheduler.State.{
  Thread, Algorithm, Times, State, new_times, sort_priority, opt_list, scheduler, reachable,
}
use cse130_git.Scheduler.Handlers.{
  switch_to, preempt, priority_sort, priority_sort_if, sys_exec, take_next, rotate, choose,
  end_tick, tick, sys_exit, sys_read, sys_write, wake_cpu, io_complete, io_starting,
}
use cse130_git.Scheduler.Trace.{
  Event, exec, clock, exit, read, write, complete, starting, handle, run,
}

-- How many of the structures are for a thread that passes the test.
abbrev pub tally : (Thread → Bool) → List Times → ℕ
tally p = count (λ c. p c.t)

-- The threads that a sequence of events brings in.
abbrev pub execs : List Event → List Thread
execs [] = []
execs (exec t ∷ es) = t ∷ execs es
execs (_ ∷ es) = execs es

tally-head-tail :
    (p : Thread → Bool) (xs : List Times)
    → tally p (opt_list (head? xs)) + tally p (tail xs) ≡ tally p xs
tally-head-tail p [] = refl
tally-head-tail p (x ∷ xs) = omega arith

module _ (L : QueueLib Times) (p : Thread → Bool) where
  abbrev queued : L.Queue → ℕ
  queued q = tally p (L.items q)

  -- The same tally, place by place.
  abbrev held : State L → ℕ
  held s =
      tally p (opt_list s.cur_t)
      + tally p (opt_list s.io_t)
      + queued s.ready_queue
      + queued s.io_queue
      + queued s.done_queue

  queued-enqueue :
      (q : L.Queue) (c : Times) → queued (L.queue_enqueue q c) ≡ queued q + (if p c.t then 1 else 0)
  queued-enqueue q c = omega (
    arith,
    ap-tally (L.items-enqueue q c),
    count-append (λ (x : Times). p x.t) (L.items q) (c ∷ []),
  )
    where
      ap-tally : {xs ys : List Times} → xs ≡ ys → tally p xs ≡ tally p ys
      ap-tally e = λ i. tally p (e i)

  queued-dequeue :
      (q : L.Queue)
      → tally p (opt_list (L.queue_dequeue q).0) + queued (L.queue_dequeue q).1 ≡ queued q
  queued-dequeue q = rw (L.dequeue-head q, L.items-dequeue q) (tally-head-tail p (L.items q))

  switch_to-held :
      (s : State L) (c : Times) (next : Option Times × L.Queue) (s' : State L)
      → s.cur_t ≡ some c
      → tally p (opt_list next.0) + queued next.1 ≡ queued s.ready_queue
      → switch_to L s c next ≡ some s'
      → held s' ≡ held s
  unfolding switch_to
  switch_to-held s c next s' e h r =
      ground (arith, queued-enqueue next.1 (record c { last_on = s.ticks }))

  preempt-held :
      (s : State L) (cur h : Option Times) (s' : State L)
      → s.cur_t ≡ cur
      → preempt L s cur h ≡ some s'
      → held s' ≡ held s
  unfolding preempt
  preempt-held s (some c) (some h) s' e r = ground (
    arith,
    switch_to-held s c (L.queue_dequeue s.ready_queue) s' e (queued-dequeue s.ready_queue),
  )
  preempt-held s none h s' e r = ground arith
  preempt-held s (some c) none s' e r = ground arith

  priority_sort-held : (s s' : State L) → priority_sort L s ≡ some s' → held s' ≡ held s
  unfolding priority_sort
  priority_sort-held s s' r =
      let q : L.Queue = L.queue_sort s.ready_queue sort_priority in
      let sorted : State L = record s { ready_queue = q } in
      ground (
        arith,
        L.sort-SameItems s.ready_queue sort_priority (λ c. p c.t),
        preempt-held sorted sorted.cur_t (L.queue_head q) s' refl,
      )

  priority_sort_if-held :
      (n : ℕ) (s s' : State L) → priority_sort_if L n s ≡ some s' → held s' ≡ held s
  unfolding priority_sort_if
  priority_sort_if-held n s s' r = ground (arith, priority_sort-held s s')

  priority_sort_if-idle :
      (n : ℕ) (s s' : State L) → s.cur_t ≡ none → priority_sort_if L n s ≡ some s' → s'.cur_t ≡ none
  unfolding priority_sort_if priority_sort preempt
  priority_sort_if-idle n s s' e r = ground arith

  take_next-held :
      (s : State L) (next : Option Times × L.Queue)
      → s.cur_t ≡ none
      → tally p (opt_list next.0) + queued next.1 ≡ queued s.ready_queue
      → held (take_next L s next) ≡ held s
  unfolding take_next
  take_next-held s (none, q) e h = ground arith
  take_next-held s (some c, q) e h = ground arith

  rotate-held :
      (s : State L) (c : Times) (next : Option Times × L.Queue) (s' : State L)
      → s.cur_t ≡ some c
      → tally p (opt_list next.0) + queued next.1
        ≡ queued s.ready_queue + tally p (opt_list s.cur_t)
      → rotate L s next ≡ some s'
      → held s' ≡ held s
  unfolding rotate
  rotate-held s c (none, q) s' e h r = ground arith
  rotate-held s c (some d, q) s' e h r = ground arith

  choose-held :
      (s : State L) (cur : Option Times) (s' : State L)
      → s.cur_t ≡ cur
      → choose L s cur ≡ some s'
      → held s' ≡ held s
  unfolding choose
  choose-held s none s' e r = elim (Option-cases (priority_sort_if L 2 s)) [
    | inl stop ↦ ground arith
    | inr (t, sorted) ↦ ground (
      arith,
      priority_sort_if-held 2 s t sorted,
      take_next-held t (L.queue_dequeue t.ready_queue) (priority_sort_if-idle 2 s t e sorted)
          (queued-dequeue t.ready_queue),
    )
  ]
  choose-held s (some c) s' e r =
      let q : L.Queue = L.queue_enqueue s.ready_queue (record c { last_on = s.ticks }) in
      ground (
        arith,
        queued-enqueue s.ready_queue (record c { last_on = s.ticks }),
        queued-dequeue q,
        rotate-held s c (L.queue_dequeue q) s' e,
      )

  tick-held : (s s' : State L) → tick L s ≡ some s' → held s' ≡ held s
  unfolding tick end_tick
  tick-held s s' r = elim (Option-cases (priority_sort_if L 3 s)) [
    | inl stop ↦ ground arith
    | inr (t, sorted) ↦ elim (Option-cases (choose L t t.cur_t)) [
      | inl stop ↦ ground arith
      | inr (u, chosen) ↦
          ground (arith, priority_sort_if-held 3 s t sorted, choose-held t t.cur_t u refl chosen)
    ]
  ]

  sys_exec-held : (s : State L) (t : Thread) → held (sys_exec L s t) ≡ held s + count p (t ∷ [])
  unfolding sys_exec
  sys_exec-held s t = ground (arith, queued-enqueue s.ready_queue (new_times t s.ticks))

  sys_exit-held : (s s' : State L) → sys_exit L s ≡ some s' → held s' ≡ held s
  unfolding sys_exit
  sys_exit-held s s' r = elim (Option-cases s.cur_t) [
    | inl idle ↦ ground arith
    | inr (c, busy) ↦
        ground (
          arith,
          queued-enqueue s.done_queue (record c { running_time = sub_ℕ s.ticks c.beg_time }),
        )
  ]

  sys_read-held : (s s' : State L) → sys_read L s ≡ some s' → held s' ≡ held s
  unfolding sys_read
  sys_read-held s s' r = elim (Option-cases s.cur_t) [
    | inl idle ↦ ground arith
    | inr (c, busy) ↦ ground (arith, queued-enqueue s.io_queue (record c { last_on = s.ticks }))
  ]

  sys_write-held : (s s' : State L) → sys_write L s ≡ some s' → held s' ≡ held s
  unfolding sys_write
  sys_write-held s s' r = elim (Option-cases s.cur_t) [
    | inl idle ↦ ground arith
    | inr (c, busy) ↦ ground (arith, queued-enqueue s.io_queue (record c { last_on = s.ticks }))
  ]

  wake_cpu-held :
      (s : State L) (cur : Option Times) (next : Option Times × L.Queue)
      → s.cur_t ≡ cur
      → tally p (opt_list next.0) + queued next.1 ≡ queued s.ready_queue
      → held (wake_cpu L s cur next) ≡ held s
  unfolding wake_cpu
  wake_cpu-held s (some c) next e h = refl
  wake_cpu-held s none (none, q) e h = ground arith
  wake_cpu-held s none (some c, q) e h = ground arith

  io_complete-held : (s s' : State L) → io_complete L s ≡ some s' → held s' ≡ held s
  unfolding io_complete
  io_complete-held s s' r = elim (Option-cases s.io_t) [
    | inl idle ↦ ground arith
    | inr (c, busy) ↦
        let ready : L.Queue = L.queue_enqueue s.ready_queue (record c { last_on = s.ticks }) in
        let next : Option Times × L.Queue = L.queue_dequeue s.io_queue in
        let u : State L = record s { ready_queue = ready; io_t = next.0; io_queue = next.1 } in
        ground (
          arith,
          queued-enqueue s.ready_queue (record c { last_on = s.ticks }),
          queued-dequeue s.io_queue,
          wake_cpu-held u s.cur_t (L.queue_dequeue ready) refl (queued-dequeue ready),
        )
  ]

  io_starting-held : (s s' : State L) → io_starting L s ≡ some s' → held s' ≡ held s
  unfolding io_starting
  io_starting-held s s' r = ground arith

  handle-held :
      (e : Event) (s s' : State L)
      → handle L e s ≡ some s'
      → held s' ≡ held s + count p (execs (e ∷ []))
  unfolding handle
  handle-held (exec t) s s' r = ground (arith, sys_exec-held s t)
  handle-held clock s s' r = omega (arith, tick-held s s' r)
  handle-held exit s s' r = omega (arith, sys_exit-held s s' r)
  handle-held read s s' r = omega (arith, sys_read-held s s' r)
  handle-held write s s' r = omega (arith, sys_write-held s s' r)
  handle-held complete s s' r = omega (arith, io_complete-held s s' r)
  handle-held starting s s' r = omega (arith, io_starting-held s s' r)

  held-reachable : (s : State L) → tally p (reachable L s) ≡ held s
  held-reachable s =
      let f : Times → Bool = λ x. p x.t in
      omega (
        arith,
        count-append f (opt_list s.cur_t) (
            opt_list s.io_t
            ++ (L.items s.ready_queue ++ (L.items s.io_queue ++ L.items s.done_queue))),
        count-append f (opt_list s.io_t)
            (L.items s.ready_queue ++ (L.items s.io_queue ++ L.items s.done_queue)),
        count-append f (L.items s.ready_queue) (L.items s.io_queue ++ L.items s.done_queue),
        count-append f (L.items s.io_queue) (L.items s.done_queue),
      )

  run-held :
      (es : List Event) (s s' : State L)
      → run L es s ≡ some s'
      → held s' ≡ held s + count p (execs es)
  unfolding run
  run-held [] s s' r = ground arith
  run-held (e ∷ es) s s' r = elim (Option-cases (handle L e s)) [
    | inl stop ↦ ground arith
    | inr (t, done) ↦
        let rest : held s' ≡ held t + count p (execs es) = run-held es t s' (ground arith) in
        omega (arith, rest, handle-held e s t done, count-execs e es)
  ]
    where
      count-execs :
          (e : Event) (es : List Event)
          → count p (execs (e ∷ es)) ≡ count p (execs (e ∷ [])) + count p (execs es)
      count-execs (exec t) es = omega arith
      count-execs clock es = omega arith
      count-execs exit es = omega arith
      count-execs read es = omega arith
      count-execs write es = omega arith
      count-execs complete es = omega arith
      count-execs starting es = omega arith

  held-scheduler : (a : Algorithm) (n : ℕ) → held (scheduler L a n) ≡ 0
  unfolding scheduler
  held-scheduler a n = rw L.items-create refl

  -- However the simulator calls, the threads that the scheduler still reaches (running, on the
  -- device, ready, waiting for the device or done) are the threads that `sys_exec` brought in, each
  -- as often.
  pub run-conserves :
      (a : Algorithm) (n : ℕ) (es : List Event) (s : State L)
      → run L es (scheduler L a n) ≡ some s
      → tally p (reachable L s) ≡ count p (execs es)
  run-conserves a n es s r =
      omega (arith, held-reachable s, run-held es (scheduler L a n) s r, held-scheduler a n)

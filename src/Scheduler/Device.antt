-- ===== src/Scheduler/Device.antt =====
-- The device: one thread on it, the others in `io_queue`, in order.
use cse130_git.Prelude.{
  ℕ, ◌≡◌, refl, sym, ap, ◌∙◌, Option, none, some, Option-cases, inl, inr, List, [], ◌∷◌, ◌++◌,
  head?, tail, length, arith,
}
use mathlib.Core.Option
use cse130_git.Queue.{QueueLib}
use cse130_git.Scheduler.State.{Algorithm, Times, State, scheduler, resume}
use cse130_git.Scheduler.Handlers.{
  switch_to, preempt, priority_sort, priority_sort_if, sys_exec, take_next, rotate, choose,
  end_tick, tick, sys_exit, sys_read, sys_write, wake_cpu, io_complete, io_starting,
}
use cse130_git.Scheduler.Trace.{
  Event, exec, clock, exit, read, write, complete, starting, handle, run,
}

module _ (L : QueueLib Times) where
  -- Nobody waits for a free device.
  abbrev pub DeviceBusy : State L → Type 0
  DeviceBusy s = s.io_t ≡ none → L.items s.io_queue ≡ []

  priority_sort-device :
      (s s' : State L)
      → priority_sort L s ≡ some s'
      → (s'.io_t ≡ s.io_t) × (s'.io_queue ≡ s.io_queue)
  unfolding priority_sort preempt switch_to
  priority_sort-device s s' r = ground arith

  priority_sort_if-device :
      (n : ℕ) (s s' : State L)
      → priority_sort_if L n s ≡ some s'
      → (s'.io_t ≡ s.io_t) × (s'.io_queue ≡ s.io_queue)
  unfolding priority_sort_if
  priority_sort_if-device n s s' r = ground (arith, priority_sort-device s s')

  choose-device :
      (s s' : State L) (cur : Option Times)
      → choose L s cur ≡ some s'
      → (s'.io_t ≡ s.io_t) × (s'.io_queue ≡ s.io_queue)
  unfolding choose rotate take_next
  choose-device s s' none r = elim (Option-cases (priority_sort_if L 2 s)) [
    | inl stop ↦ ground arith
    | inr (t, sorted) ↦ ground (arith, priority_sort_if-device 2 s t sorted)
  ]
  choose-device s s' (some c) r = ground arith

  tick-device :
      (s s' : State L) → tick L s ≡ some s' → (s'.io_t ≡ s.io_t) × (s'.io_queue ≡ s.io_queue)
  unfolding tick end_tick
  tick-device s s' r = elim (Option-cases (priority_sort_if L 3 s)) [
    | inl stop ↦ ground arith
    | inr (t, sorted) ↦ elim (Option-cases (choose L t t.cur_t)) [
      | inl stop ↦ ground arith
      | inr (u, chosen) ↦
          ground (arith, priority_sort_if-device 3 s t sorted, choose-device t u t.cur_t chosen)
    ]
  ]

  dequeue-null : (q : L.Queue) → (L.queue_dequeue q).0 ≡ none → L.items (L.queue_dequeue q).1 ≡ []
  dequeue-null q e = rw (L.items-dequeue q) (empty (L.items q) (sym (L.dequeue-head q) ∙ e))
    where
      empty : (xs : List Times) → head? xs ≡ none → tail xs ≡ []
      empty [] h = refl
      empty (x ∷ xs) h = absurd (ground arith)

  wake_cpu-device :
      (s : State L) (cur : Option Times) (next : Option Times × L.Queue)
      → ((wake_cpu L s cur next).io_t ≡ s.io_t) × ((wake_cpu L s cur next).io_queue ≡ s.io_queue)
  unfolding wake_cpu
  wake_cpu-device s (some c) next = (refl, refl)
  wake_cpu-device s none (none, q) = (refl, refl)
  wake_cpu-device s none (some c, q) = (refl, refl)

  handle-DeviceBusy :
      (e : Event) (s s' : State L) → handle L e s ≡ some s' → DeviceBusy s → DeviceBusy s'
  unfolding handle sys_exec sys_exit sys_read sys_write io_complete io_starting
  handle-DeviceBusy (exec t) s s' r h free = ground arith
  handle-DeviceBusy clock s s' r h free = ground (arith, tick-device s s' r)
  handle-DeviceBusy exit s s' r h free = ground arith
  handle-DeviceBusy read s s' r h free = elim (Option-cases s.io_t) [
    | inl idle ↦
        let nobody : L.queue_size s.io_queue ≡ 0 = L.size_lem s.io_queue ∙ ap length (h idle) in
        absurd (ground arith)
    | inr (d, busy) ↦ absurd (ground arith)
  ]
  handle-DeviceBusy write s s' r h free = elim (Option-cases s.io_t) [
    | inl idle ↦
        let nobody : L.queue_size s.io_queue ≡ 0 = L.size_lem s.io_queue ∙ ap length (h idle) in
        absurd (ground arith)
    | inr (d, busy) ↦ absurd (ground arith)
  ]
  handle-DeviceBusy complete s s' r h free = elim (Option-cases s.io_t) [
    | inl idle ↦ absurd (ground arith)
    | inr (d, busy) ↦
        let ready : L.Queue = L.queue_enqueue s.ready_queue (record d { last_on = s.ticks }) in
        let next : Option Times × L.Queue = L.queue_dequeue s.io_queue in
        let u : State L = record s { ready_queue = ready; io_t = next.0; io_queue = next.1 } in
        ground (arith, dequeue-null s.io_queue, wake_cpu-device u s.cur_t (L.queue_dequeue ready))
  ]
  handle-DeviceBusy starting s s' r h free = ground arith

  run-DeviceBusy :
      (es : List Event) (s s' : State L) → run L es s ≡ some s' → DeviceBusy s → DeviceBusy s'
  unfolding run
  run-DeviceBusy [] s s' r h = ground arith
  run-DeviceBusy (e ∷ es) s s' r h = elim (Option-cases (handle L e s)) [
    | inl stop ↦ absurd (ground arith)
    | inr (t, done) ↦ run-DeviceBusy es t s' (ground arith) (handle-DeviceBusy e s t done h)
  ]

  scheduler-DeviceBusy : (a : Algorithm) (n : ℕ) → DeviceBusy (scheduler L a n)
  unfolding scheduler
  scheduler-DeviceBusy a n free = L.items-create

  -- In every state that the simulator's calls lead to, no thread waits in the device's queue while
  -- the device is free.
  pub run_keeps_device_busy :
      (a : Algorithm) (n : ℕ) (es : List Event) (s : State L)
      → run L es (scheduler L a n) ≡ some s
      → s.io_t ≡ none
      → L.items s.io_queue ≡ []
  run_keeps_device_busy a n es s r =
      run-DeviceBusy es (scheduler L a n) s r (scheduler-DeviceBusy a n)

  wake_cpu-idle :
      (s : State L) (next : Option Times × L.Queue)
      → s.cur_t ≡ none
      → (wake_cpu L s none next).cur_t ≡ Option.map (resume s.ticks) next.0
  unfolding wake_cpu
  wake_cpu-idle s (none, q) e = e
  wake_cpu-idle s (some c, q) e = refl

  -- `io_complete` with an idle CPU, whatever the algorithm: the first thread that waits for the
  -- device takes it, the thread that was on it goes to the tail of the ready queue, and the CPU
  -- takes the head of the ready queue as it is, without the sort that `tick` makes under the
  -- priority algorithms.
  pub io_complete_idle :
      (s s' : State L) (c : Times)
      → s.io_t ≡ some c
      → s.cur_t ≡ none
      → io_complete L s ≡ some s'
      → (s'.io_t ≡ head? (L.items s.io_queue))
        × (L.items s'.io_queue ≡ tail (L.items s.io_queue))
        × (s'.cur_t
            ≡ Option.map
                (resume s.ticks)
                (head? (L.items s.ready_queue ++ record c { last_on = s.ticks } ∷ [])))
  unfolding io_complete
  io_complete_idle s s' c e idle r =
      let c' : Times = record c { last_on = s.ticks } in
      let ready : L.Queue = L.queue_enqueue s.ready_queue c' in
      let next : Option Times × L.Queue = L.queue_dequeue s.io_queue in
      let u : State L = record s { ready_queue = ready; io_t = next.0; io_queue = next.1 } in
      let after = wake_cpu L u none (L.queue_dequeue ready) in
      let same : s' ≡ after = ground arith in
      let device = wake_cpu-device u none (L.queue_dequeue ready) in
      (
        ap (λ (x : State L). x.io_t) same ∙ (device.0 ∙ L.dequeue-head s.io_queue),
        ap (λ (x : State L). L.items x.io_queue) same
            ∙ (ap L.items device.1 ∙ L.items-dequeue s.io_queue),
        ap (λ (x : State L). x.cur_t) same
            ∙ (wake_cpu-idle u (L.queue_dequeue ready) idle
                ∙ ap (Option.map (resume s.ticks))
                    (L.dequeue-head ready ∙ ap head? (L.items-enqueue s.ready_queue c'))),
      )

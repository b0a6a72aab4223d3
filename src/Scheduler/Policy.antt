-- ===== src/Scheduler/Policy.antt =====
-- What `tick` guarantees of the running thread, by the algorithm.
use cse130_git.Prelude.{
  ◌+◌, ◌≤◌, ◌≡◌, ◌≢◌, ◌⊎◌, refl, Option, none, some, Option-cases, inl, inr, List, [], ◌∷◌,
  if◌then◌else◌, ◌==◌, head?, tail, length, arith,
}
use cse130_git.Queue.{QueueLib}
use cse130_git.Scheduler.State.{Algorithm, code, Times, State}
use cse130_git.Scheduler.Handlers.{priority_sort_if, take_next, rotate, choose, end_tick, tick}

module _ (L : QueueLib Times) where
  -- A NULL from `queue_dequeue` means that nothing was, and is, on the queue.
  dequeue-null : (q : L.Queue) → (L.queue_dequeue q).0 ≡ none → L.items (L.queue_dequeue q).1 ≡ []
  dequeue-null q e = rw (L.items-dequeue q) (empty (L.items q) (L.dequeue-head q))
    where
      empty : (xs : List Times) → (L.queue_dequeue q).0 ≡ head? xs → tail xs ≡ []
      empty [] h = refl
      empty (x ∷ xs) h = ground arith

  -- What `tick` hands to `end_tick`.
  choose-busy :
      (s s' : State L) (cur : Option Times)
      → s.cur_t ≡ cur
      → choose L s cur ≡ some s'
      → s'.cur_t ≡ none
      → L.items s'.ready_queue ≡ []
  unfolding choose take_next rotate
  choose-busy s s' none e r idle = elim (Option-cases (priority_sort_if L 2 s)) [
    | inl stop ↦ ground arith
    | inr (t, sorted) ↦ ground (arith, dequeue-null t.ready_queue)
  ]
  choose-busy s s' (some c) e r idle = ground arith

  -- The CPU is left idle by a `tick` only when no thread is ready.
  pub tick_work_conserving :
      (s s' : State L) → tick L s ≡ some s' → s'.cur_t ≡ none → L.items s'.ready_queue ≡ []
  unfolding tick end_tick
  tick_work_conserving s s' r idle = elim (Option-cases (priority_sort_if L 3 s)) [
    | inl stop ↦ ground arith
    | inr (t, sorted) ↦ elim (Option-cases (choose L t t.cur_t)) [
      | inl stop ↦ ground arith
      | inr (u, chosen) ↦ ground (arith, choose-busy t u t.cur_t refl chosen)
    ]
  ]

  -- Under every algorithm but round robin and preemptive priority, `tick` leaves a running thread
  -- on the CPU.
  pub tick_keeps_running :
      (s s' : State L) (c : Times)
      → code s.alg ≢ 1
      → code s.alg ≢ 3
      → s.cur_t ≡ some c
      → tick L s ≡ some s'
      → s'.cur_t ≡ some c
  unfolding tick end_tick choose priority_sort_if
  tick_keeps_running s s' c not_rr not_pp e r = ground arith

  choose_quantum :
      (s s' : State L) (cur : Option Times)
      → s.alg ≡ Algorithm.round_robin
      → s.cur_t ≡ cur
      → choose L s cur ≡ some s'
      → L.items s'.ready_queue ≢ []
      → (s'.last_on_total + 1 ≤ s.quant) ⊎ (s'.last_on_total ≡ 0)
  unfolding choose take_next rotate priority_sort_if
  choose_quantum s s' none a e r waiting = ground (arith, dequeue-null s.ready_queue)
  choose_quantum s s' (some c) a e r waiting =
      ground (arith, L.size_lem s.ready_queue, length-zero (L.items s.ready_queue))
    where
      length-zero : (xs : List Times) → length xs ≡ 0 → xs ≡ []
      length-zero [] h = refl
      length-zero (x ∷ xs) h = absurd (omega arith)

  -- Under round robin, whenever another thread is ready after a `tick`, the running thread's count
  -- of ticks on the CPU is at most the quantum, or 1 where the quantum is 0.
  pub tick_quantum :
      (s s' : State L)
      → s.alg ≡ Algorithm.round_robin
      → tick L s ≡ some s'
      → s'.cur_t ≢ none
      → L.items s'.ready_queue ≢ []
      → s'.last_on_total ≤ (if s.quant == 0 then 1 else s.quant)
  unfolding tick end_tick priority_sort_if
  tick_quantum s s' a r busy waiting = elim (Option-cases (choose L s s.cur_t)) [
    | inl stop ↦ ground arith
    | inr (u, chosen) ↦ ground (arith, choose_quantum s u s.cur_t a refl chosen)
  ]

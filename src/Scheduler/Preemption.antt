-- ===== src/Scheduler/Preemption.antt =====
-- Preemptive priority: after `tick` no ready thread has a higher priority than the running one.
use cse130_git.Prelude.{
  ℕ, ◌^◌, ◌<◌, ◌≤◌, ◌≡◌, sym, refl, ap, ◌∙◌, Option, none, some, Option-cases, inl, inr, List, [],
  ◌∷◌, head?, tail, All, Ascending, All-append, All-map, nonpos, nonpos-int_of_u32, leb, arith,
  Bool-cases, ltb,
}
use mathlib.Core.Path.{subst₂}
use cse130_git.Queue.{QueueLib}
use cse130_git.Scheduler.State.{Algorithm, code, Times, State, sort_priority}
use cse130_git.Scheduler.Handlers.{
  switch_to, preempt, priority_sort, priority_sort_if, take_next, choose, end_tick, tick,
}

-- Every entry has at least the priority number `n`.
abbrev AllAbove : ℕ → List Times → Type 0
AllAbove n xs = All (λ (y : Times). n ≤ y.t.priority) xs

AllAbove-move : {m n : ℕ} {xs ys : List Times} → m ≡ n → xs ≡ ys → AllAbove m xs → AllAbove n ys
AllAbove-move e f h = subst₂ AllAbove e f h

module _ (L : QueueLib Times) where
  -- Priorities that fit an `int`, so that `sort_priority` orders by them.
  abbrev pub Fits : Times → Type 0
  Fits c = c.t.priority < 2 ^ 31

  -- `c` has the highest priority (the smallest number) of all that are ready.
  abbrev pub IsFirst : Times → L.Queue → Type 0
  IsFirst c q = All (λ (y : Times). c.t.priority ≤ y.t.priority) (L.items q)

  abbrev rank : Times → ℕ
  rank c = c.t.priority

  sort_priority-ranked :
      (a b : Times) → Fits a → Fits b → nonpos (sort_priority a b) ≡ leb (rank a) (rank b)
  unfolding sort_priority
  sort_priority-ranked a b ha hb = nonpos-int_of_u32 a.t.priority b.t.priority ha hb

  sorted_queue :
      (q : L.Queue) → All Fits (L.items q) → Ascending rank (L.items (L.queue_sort q sort_priority))
  sorted_queue q h = L.sort-Ascending q sort_priority rank Fits sort_priority-ranked h

  IsFirst-tail :
      (xs : List Times) (c : Times)
      → Ascending rank xs
      → head? xs ≡ some c
      → AllAbove c.t.priority (tail xs)
  IsFirst-tail [] c s e = tt
  IsFirst-tail (x ∷ xs) c s e =
      All-map xs (λ y (le : x.t.priority ≤ y.t.priority). ground arith) s.0

  -- The head of an ascending queue comes before the others.
  IsFirst-dequeue :
      (q : L.Queue) (c : Times)
      → Ascending rank (L.items q)
      → (L.queue_dequeue q).0 ≡ some c
      → IsFirst c (L.queue_dequeue q).1
  IsFirst-dequeue q c s e =
      rw (L.items-dequeue q) (IsFirst-tail (L.items q) c s (sym (L.dequeue-head q) ∙ e))

  IsFirst-all :
      (xs : List Times) (c h : Times)
      → Ascending rank xs
      → head? xs ≡ some h
      → c.t.priority ≤ h.t.priority
      → AllAbove c.t.priority xs
  IsFirst-all [] c h s e le = tt
  IsFirst-all (x ∷ xs) c h s e le =
      (ground arith, All-map xs (λ y (above : x.t.priority ≤ y.t.priority). ground arith) s.0)

  switch_to-IsFirst :
      (s s' : State L) (cur h c : Times) (next : Option Times × L.Queue)
      → next.0 ≡ some h
      → h.t.priority ≤ cur.t.priority
      → IsFirst h next.1
      → switch_to L s cur next ≡ some s'
      → s'.cur_t ≡ some c
      → IsFirst c s'.ready_queue
  unfolding switch_to
  switch_to-IsFirst s s' cur h c (none, q) e le first r run = absurd (ground arith)
  switch_to-IsFirst s s' cur h c (some d, q) e le first r run =
      let cur' : Times = record cur { last_on = s.ticks } in
      let new : s'.ready_queue ≡ L.queue_enqueue q cur' = ground arith in
      AllAbove-move (ground arith) (sym (ap L.items new ∙ L.items-enqueue q cur')) (
        All-append (λ (y : Times). h.t.priority ≤ y.t.priority) (L.items q) (cur' ∷ []) first
          (le, tt))

  -- After the sort, either the CPU is idle or the running thread comes first.
  preempt-IsFirst :
      (s s' : State L) (c : Times) (cur h : Option Times)
      → s.cur_t ≡ cur
      → head? (L.items s.ready_queue) ≡ h
      → Ascending rank (L.items s.ready_queue)
      → preempt L s cur h ≡ some s'
      → s'.cur_t ≡ some c
      → IsFirst c s'.ready_queue
  unfolding preempt
  preempt-IsFirst s s' c none h e eh asc r run = absurd (ground arith)
  preempt-IsFirst s s' c (some d) none e eh asc r run =
      let same : s'.ready_queue ≡ s.ready_queue = ground arith in
      AllAbove-move refl (sym (ap L.items same ∙ head-none (L.items s.ready_queue) eh)) tt
    where
      head-none : (xs : List Times) → head? xs ≡ none → xs ≡ []
      head-none [] h = refl
      head-none (x ∷ xs) h = absurd (ground arith)
  preempt-IsFirst s s' c (some d) (some h) e eh asc r run =
      elim (Bool-cases (ltb h.t.priority d.t.priority)) [
        | inl higher ↦
            switch_to-IsFirst s s' d h c (L.queue_dequeue s.ready_queue)
              (L.dequeue-head s.ready_queue ∙ eh) (ground arith)
              (IsFirst-dequeue s.ready_queue h asc (L.dequeue-head s.ready_queue ∙ eh))
              (ground arith) run
        | inr lower ↦
            let same : s'.ready_queue ≡ s.ready_queue = ground arith in
            AllAbove-move (ground arith) (sym (ap L.items same))
              (IsFirst-all (L.items s.ready_queue) d h asc eh (ground arith))
      ]

  priority_sort-IsFirst :
      (s s' : State L) (c : Times)
      → code s.alg ≡ 3
      → All Fits (L.items s.ready_queue)
      → priority_sort L s ≡ some s'
      → s'.cur_t ≡ some c
      → IsFirst c s'.ready_queue
  unfolding priority_sort
  priority_sort-IsFirst s s' c a fit r run =
      let q : L.Queue = L.queue_sort s.ready_queue sort_priority in
      let sorted : State L = record s { ready_queue = q } in
      preempt-IsFirst sorted s' c s.cur_t (L.queue_head q) refl (sym (L.head_lem q))
        (sorted_queue s.ready_queue fit) (ground arith) run

  priority_sort-alg :
      (s s' : State L)
      → s.alg ≡ Algorithm.preemptive_priority
      → priority_sort L s ≡ some s'
      → code s'.alg ≡ 3
  unfolding priority_sort preempt switch_to
  priority_sort-alg s s' a r = ground arith

  -- With an idle CPU the sort leaves an ascending queue.
  priority_sort-idle :
      (s s' : State L)
      → code s.alg ≡ 3
      → All Fits (L.items s.ready_queue)
      → priority_sort L s ≡ some s'
      → s'.cur_t ≡ none
      → Ascending rank (L.items s'.ready_queue)
  unfolding priority_sort preempt switch_to
  priority_sort-idle s s' a fit r idle =
      let q : L.Queue = L.queue_sort s.ready_queue sort_priority in
      let same : s'.ready_queue ≡ q = ground arith in rw same (sorted_queue s.ready_queue fit)

  choose-IsFirst :
      (s s' : State L) (c : Times) (cur : Option Times)
      → code s.alg ≡ 3
      → s.cur_t ≡ cur
      → ((d : Times) → cur ≡ some d → IsFirst d s.ready_queue)
      → (cur ≡ none → Ascending rank (L.items s.ready_queue))
      → choose L s cur ≡ some s'
      → s'.cur_t ≡ some c
      → IsFirst c s'.ready_queue
  unfolding choose priority_sort_if take_next
  choose-IsFirst s s' c (some d) a e first asc r run =
      let same : s'.ready_queue ≡ s.ready_queue = ground arith in
      AllAbove-move (ground arith) (sym (ap L.items same)) (first d refl)
  choose-IsFirst s s' c none a e first asc r run =
      elim (Option-cases (L.queue_dequeue s.ready_queue).0) [
        | inl nothing ↦ absurd (ground arith)
        | inr (h, found) ↦
            let same : s'.ready_queue ≡ (L.queue_dequeue s.ready_queue).1 = ground arith in
            AllAbove-move (ground arith) (sym (ap L.items same))
              (IsFirst-dequeue s.ready_queue h (asc refl) found)
      ]

  -- Under preemptive priority, with priorities below 2^31, no thread that is ready after a `tick`
  -- has a higher priority (a smaller number) than the thread on the CPU.
  pub tick_runs_highest_priority :
      (s s' : State L) (c : Times)
      → s.alg ≡ Algorithm.preemptive_priority
      → All Fits (L.items s.ready_queue)
      → tick L s ≡ some s'
      → s'.cur_t ≡ some c
      → IsFirst c s'.ready_queue
  unfolding tick end_tick priority_sort_if
  tick_runs_highest_priority s s' c a fit r run = elim (Option-cases (priority_sort L s)) [
    | inl stop ↦ absurd (ground arith)
    | inr (t, sorted) ↦ elim (Option-cases (choose L t t.cur_t)) [
      | inl stop ↦ absurd (ground arith)
      | inr (u, chosen) ↦
          let same : s'.ready_queue ≡ u.ready_queue = ground arith in
          rw same (
            choose-IsFirst t u c t.cur_t (priority_sort-alg s t a sorted) refl
              (λ d e. priority_sort-IsFirst s t d (ap code a) fit sorted e)
              (λ e. priority_sort-idle s t (ap code a) fit sorted e) chosen (ground arith))
    ]
  ]

-- ===== src/Kernel/Waking.antt =====
-- What the timer's interrupt does.
use cse130_git.Prelude.{
  ℕ, ◌+◌, ◌≤◌, ◌<◌, ◌≡◌, ◌≢◌, ◌⊎◌, inl, inr, refl, ap, ◌∙◌, ltb→lt, none, some, List, [], ◌∷◌, Bool,
  true, false, ltb, leb, if◌then◌else◌, All, Ascending, arith, Bool-cases,
}
use cse130_git.Kernel.State.{running, ready, blocked, Kernel, priority_of, status_of, set_status}
use cse130_git.Kernel.Ordered.{Distinct, All-imp, All-both}
use cse130_git.Kernel.Threads.{enqueue, thread_yield, thread_tick, count_tick, time_slice}
use cse130_git.Kernel.Timer.{wake_up_tick_of, wake_due, timer_interrupt, intr_handler}
use cse130_git.Kernel.Invariant.{Inv}
use cse130_git.Kernel.Keeping.{woken-Inv, overtakes, yield-Inv}

-- A sleeper that the interrupt can wake: blocked, and no more urgent than the current thread, unless
-- that is the idle thread.
abbrev pub IsMild : Kernel → ℕ → Type 0
IsMild k t =
    (status_of k t ≡ blocked)
    × (t ≢ k.idle_thread)
    × (t < k.next_tid)
    × ((k.cur ≡ k.idle_thread) ⊎ (priority_of k t ≤ priority_of k k.cur))

-- After the interrupt: the due sleepers are ready, and the ones left wait for a later tick.
pub record Woken (k : Kernel) (xs : List ℕ) (k' : Kernel) : Type 0 where
  pub inv : Inv true k'
  pub due : All (λ t. wake_up_tick_of k t ≤ k.ticks → status_of k' t ≡ ready) xs
  pub left : All (λ t. k.ticks < wake_up_tick_of k t) k'.timer_list
  pub others : (y : ℕ) → All (λ x. x ≢ y) xs → status_of k' y ≡ status_of k y

IsMild-calm :
    (k : Kernel) (t : ℕ) (i : Inv true k) (m : IsMild k t) → overtakes k t i m.0 m.1 m.2 ≡ false
IsMild-calm k t i m = ground (arith, m.3)

IsMild-woken :
    (k : Kernel) (t : ℕ) (ts : List ℕ)
    → All (λ y. y ≢ t) ts
    → All (IsMild k) ts
    → IsMild k t
    → status_of k k.cur ≡ running
    → All (IsMild (set_status (enqueue k t) t ready)) ts
IsMild-woken k t ts d h m r =
    All-both ts (λ y n x. (ground (arith, n, x.0), x.1, x.2, ground (arith, n, x.3))) d h

-- A list other than `timer_list` changed: the invariant does not read that one.
with_timer_list-Inv :
    {b : Bool} (k : Kernel) (xs : List ℕ) → Inv b k → Inv b (record k { timer_list = xs })
with_timer_list-Inv k xs i = record {
  queued = record {
    readies = i.queued.readies;
    ordered = i.queued.ordered;
    distinct = i.queued.distinct;
    no_idle = i.queued.no_idle;
    known = i.queued.known;
    idle_known = i.queued.idle_known;
    cur_known = i.queued.cur_known;
    context = i.queued.context;
  };
  runs = i.runs;
  urgent = i.urgent;
}

Ascending-cong :
    (f g : ℕ → ℕ) (xs : List ℕ) → ((x : ℕ) → g x ≡ f x) → Ascending f xs → Ascending g xs
Ascending-cong f g [] e h = tt
Ascending-cong f g (x ∷ xs) e h =
    (All-imp xs (λ y l. omega (arith, l, e x, e y)) h.0, Ascending-cong f g xs e h.1)

wake-woken :
    (k : Kernel) (t y : ℕ)
    → wake_up_tick_of (set_status (enqueue k t) t ready) y ≡ wake_up_tick_of k y
wake-woken k t y = ground arith

-- The sleepers from the first that is not due.
stop-Woken :
    (k : Kernel) (t : ℕ) (ts : List ℕ)
    → Inv true k
    → Ascending (wake_up_tick_of k) (t ∷ ts)
    → k.ticks < wake_up_tick_of k t
    → Woken k (t ∷ ts) (record k { timer_list = t ∷ ts })
stop-Woken k t ts i a l = record {
  inv = with_timer_list-Inv k (t ∷ ts) i;
  due = (
    (λ e. absurd (omega (arith, e, l))),
    All-imp ts (λ y m e. absurd (omega (arith, e, l, m))) a.0,
  );
  left = (l, All-imp ts (λ y m. omega (arith, l, m)) a.0);
  others = λ y n. refl;
}

-- One more due sleeper before the others.
more-Woken :
    (k : Kernel) (t : ℕ) (ts : List ℕ) (k' : Kernel)
    → All (λ y. y ≢ t) ts
    → Woken (set_status (enqueue k t) t ready) ts k'
    → Woken k (t ∷ ts) k'
more-Woken k t ts k' d w = record {
  inv = w.inv;
  due = (
    (λ e. w.others t d ∙ ground arith),
    All-imp ts (λ y f e. f (omega (arith, e, wake-woken k t y))) w.due,
  );
  left = All-imp k'.timer_list (λ y l. omega (arith, l, wake-woken k t y)) w.left;
  others = λ y n. w.others y n.1 ∙ ground (arith, n.0);
}

wake_due_lem :
    (k : Kernel) (xs : List ℕ)
    → Inv true k
    → Ascending (wake_up_tick_of k) xs
    → Distinct xs
    → All (IsMild k) xs
    → (k' : Kernel) × (wake_due k xs ≡ some k') × Woken k xs k'
wake_due_lem k [] i a d h = (
  record k { timer_list = [] },
  refl,
  record { inv = with_timer_list-Inv k [] i; due = tt; left = tt; others = λ y n. refl },
)
wake_due_lem k (t ∷ ts) i a d h = elim (Bool-cases (ltb k.ticks (wake_up_tick_of k t))) [
  | inl e ↦ (
    record k { timer_list = t ∷ ts },
    rw e refl,
    stop-Woken k t ts i a (ltb→lt k.ticks (wake_up_tick_of k t) e),
  )
  | inr e ↦
      let m = h.0 in
      let (wakes, inv) = woken-Inv k t i m.0 m.1 m.2 (IsMild-calm k t i m) in
      let (k', y, w) =
        wake_due_lem (set_status (enqueue k t) t ready) ts inv
          (Ascending-cong (wake_up_tick_of k) (wake_up_tick_of (set_status (enqueue k t) t ready))
            ts (wake-woken k t) a.1)
          d.1 (IsMild-woken k t ts d.0 h.1 m i.runs) in
      (k', rw (wake_due, e, wakes, y) refl, more-Woken k t ts k' d.0 w)
]

-- The state in which the handler starts, and the one after `thread_tick`.
abbrev entered : Kernel → Kernel
entered k = record k { ticks = k.ticks + 1; in_external_intr = true; yield_on_return = false }

abbrev ticked : Kernel → Bool → Kernel
ticked k yields = record (count_tick (entered k)) {
  thread_ticks = k.thread_ticks + 1;
  yield_on_return = yields;
}

thread_tick-entered :
    (k : Kernel) → thread_tick (entered k) ≡ some (ticked k (leb time_slice (k.thread_ticks + 1)))
thread_tick-entered k = elim (Bool-cases (leb time_slice (k.thread_ticks + 1))) [
  | inl e ↦ rw e refl
  | inr e ↦ rw e refl
]

ticked-Inv : (k : Kernel) (yields : Bool) → Inv false k → Inv true (ticked k yields)
ticked-Inv k yields i = record {
  queued = record {
    readies = i.queued.readies;
    ordered = i.queued.ordered;
    distinct = i.queued.distinct;
    no_idle = i.queued.no_idle;
    known = i.queued.known;
    idle_known = i.queued.idle_known;
    cur_known = i.queued.cur_known;
    context = refl;
  };
  runs = i.runs;
  urgent = i.urgent;
}

left-Inv : (k : Kernel) → Inv true k → Inv false (record k { in_external_intr = false })
left-Inv k i = record {
  queued = record {
    readies = i.queued.readies;
    ordered = i.queued.ordered;
    distinct = i.queued.distinct;
    no_idle = i.queued.no_idle;
    known = i.queued.known;
    idle_known = i.queued.idle_known;
    cur_known = i.queued.cur_known;
    context = refl;
  };
  runs = i.runs;
  urgent = i.urgent;
}

-- The end of `intr_handler`.
handler_returns :
    (k k' : Kernel)
    → timer_interrupt (record k { in_external_intr = true; yield_on_return = false }) ≡ some k'
    → Inv true k'
    → k.in_external_intr ≡ false
    → (k'' : Kernel) × (intr_handler k ≡ some k'') × Inv false k''
handler_returns k k' e i out = elim (Bool-cases k'.yield_on_return) [
  | inl f ↦ let (k'', y, inv) = yield-Inv left (left-Inv k' i) in (k'', ends f ∙ y, inv)
  | inr f ↦ (left, ends f, left-Inv k' i)
]
  where
    left : Kernel
    left = record k' { in_external_intr = false }

    ends :
        {b : Bool}
        → k'.yield_on_return ≡ b
        → intr_handler k ≡ (if b then thread_yield left else some left)
    ends f = rw (intr_handler, e, out) (ap (λ b. if b then thread_yield left else some left) f)

-- When every sleeper is mild, the sleepers are in the order of their ticks and each is there once, the
-- timer's interrupt does not panic: the sleepers whose tick has come are made ready, those left in
-- `timer_list` wait for a later tick, and then the most urgent thread runs.
pub intr_handler_lem :
    (k : Kernel)
    → Inv false k
    → Ascending (wake_up_tick_of k) k.timer_list
    → Distinct k.timer_list
    → All (IsMild k) k.timer_list
    → (k' : Kernel) × (timer_interrupt
          (record k { in_external_intr = true; yield_on_return = false })
        ≡ some k')
      × All (λ t. wake_up_tick_of k t ≤ k.ticks + 1 → status_of k' t ≡ ready) k.timer_list
      × All (λ t. k.ticks + 1 < wake_up_tick_of k t) k'.timer_list
      × (k'' : Kernel) × (intr_handler k ≡ some k'')
      × Inv false k''
intr_handler_lem k i a d h =
    let yields = leb time_slice (k.thread_ticks + 1) in
    let (k', y, w) = wake_due_lem (ticked k yields) k.timer_list (ticked-Inv k yields i) a d h in
    let returned : timer_interrupt (record k { in_external_intr = true; yield_on_return = false })
        ≡ some k' =
      rw (timer_interrupt, thread_tick-entered k, y) refl in
    let (k'', ends, inv) = handler_returns k k' returned w.inv i.queued.context in
    (k', returned, w.due, w.left, k'', ends, inv)

-- When the first sleeper is due and more urgent than the current thread, which is not the idle thread,
-- the interrupt panics: `thread_unblock` calls `thread_yield`, which asserts that there is no interrupt.
pub intr_handler_panics :
    (k : Kernel) (t : ℕ) (ts : List ℕ)
    → k.timer_list ≡ t ∷ ts
    → wake_up_tick_of k t ≤ k.ticks + 1
    → priority_of k k.cur < priority_of k t
    → k.cur ≢ k.idle_thread
    → intr_handler k ≡ none
intr_handler_panics k t ts e due urgent busy =
    rw (intr_handler, timer_interrupt, thread_tick-entered k)
      (rw (e, wake_due) (ground (arith, due, urgent, busy)))

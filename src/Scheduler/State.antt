-- ===== src/Scheduler/State.antt =====
-- The scheduler's data: `times`, its global variables, and what the handlers share.
use cse130_git.Prelude.{
  ℕ, Option, none, some, List, [], ◌∷◌, ◌++◌, ℤ, pos, ◌+ℤ◌, sub_ℕ, sub_u32, int_of_u32,
}
use cse130_git.Queue.{QueueLib}

-- `thread_t` of Assignment4/simulator.h.
pub record Thread : Type 0 where
  pub tid : ℕ
  pub priority : ℕ
  pub length : ℕ

-- `enum algorithm` of Assignment4/simulator.h.
pub data Algorithm : Type 0 where
  first_come_first_served round_robin non_preemptive_priority preemptive_priority : Algorithm
  non_preemptive_shortest_job_first preemptive_shortest_job_first : Algorithm
  non_preemptive_shortest_remaining_time_first : Algorithm
  preemptive_shortest_remaining_time_first : Algorithm

-- The enumeration's value, which the code compares with numerals.
abbrev pub code : Algorithm → ℕ
code Algorithm.first_come_first_served = 0
code Algorithm.round_robin = 1
code Algorithm.non_preemptive_priority = 2
code Algorithm.preemptive_priority = 3
code Algorithm.non_preemptive_shortest_job_first = 4
code Algorithm.preemptive_shortest_job_first = 5
code Algorithm.non_preemptive_shortest_remaining_time_first = 6
code Algorithm.preemptive_shortest_remaining_time_first = 7

-- `struct times`. Each value is reached by one pointer: `cur_t`, `io_t` or an entry of one queue.
pub record Times : Type 0 where
  pub t : Thread
  pub running_time : ℤ
  pub waiting_time : ℤ
  pub last_on : ℕ
  pub beg_time : ℕ

-- The global variables. `dispatched` holds the calls of `sim_dispatch`, the newest first.
pub record State (L : QueueLib Times) : Type 0 where
  pub ready_queue : L.Queue
  pub io_queue : L.Queue
  pub done_queue : L.Queue
  pub cur_t : Option Times
  pub io_t : Option Times
  pub ticks : ℕ
  pub last_on_total : ℕ
  pub alg : Algorithm
  pub quant : ℕ
  pub dispatched : List Thread

-- The comparator: a difference of unsigned priorities, returned as an `int`.
unfoldable pub sort_priority : Times → Times → ℤ
sort_priority a b = int_of_u32 (sub_u32 a.t.priority b.t.priority)

-- A new `times`, as `sys_exec` fills it in.
abbrev pub new_times : Thread → ℕ → Times
new_times t now = record {
  t = t;
  running_time = pos 0;
  waiting_time = pos 0;
  last_on = now;
  beg_time = now;
}

-- `c->waiting_time += ticks - c->last_on; c->last_on = ticks;`
abbrev pub resume : ℕ → Times → Times
resume now c = record c { waiting_time = c.waiting_time +ℤ sub_ℕ now c.last_on; last_on = now }

abbrev pub opt_list : Option Times → List Times
opt_list none = []
opt_list (some c) = c ∷ []

module _ (L : QueueLib Times) where
  -- `scheduler`: empty queues, and the variables as they are initialised.
  unfoldable pub scheduler : Algorithm → ℕ → State L
  scheduler algorithm quantum = record {
    ready_queue = L.queue_create;
    io_queue = L.queue_create;
    done_queue = L.queue_create;
    cur_t = none;
    io_t = none;
    ticks = 0;
    last_on_total = 0;
    alg = algorithm;
    quant = quantum;
    dispatched = [];
  }

  -- `cur_t = c` and `sim_dispatch (cur_t->t)`, after the time on the ready queue is added up.
  abbrev pub dispatch : State L → L.Queue → Times → State L
  dispatch s ready c = record s {
    ready_queue = ready;
    cur_t = some (resume s.ticks c);
    dispatched = c.t ∷ s.dispatched;
  }

  -- Every `times` that the scheduler can reach.
  abbrev pub reachable : State L → List Times
  reachable s =
      opt_list s.cur_t
      ++ (opt_list s.io_t
          ++ (L.items s.ready_queue ++ (L.items s.io_queue ++ L.items s.done_queue)))

-- ===== src/Scheduler/Examples.antt =====
-- The scheduler run on small inputs, and its theorems at them, over queues that are lists.
use cse130_git.Prelude.{ℕ, ◌≤◌, ◌≡◌, refl, none, some, [], ◌∷◌, map, pos, negsuc, arith, ◌==◌, ◌+ℤ◌}
use cse130_git.Queue.{QueueLib}
use cse130_git.Queue.Listed.{list_queue, insertion_sort}
use cse130_git.Scheduler.State.{
  Thread, Algorithm, Times, State, new_times, scheduler, sort_priority, reachable,
}
use cse130_git.Scheduler.Handlers.{
  switch_to, preempt, priority_sort, priority_sort_if, sys_exec, rotate, choose, end_tick, tick,
  io_starting,
}
use cse130_git.Scheduler.Report.{row, stats}
use cse130_git.Scheduler.Trace.{exec, handle, run}
use cse130_git.Scheduler.Conserve.{tally, run-conserves}
use cse130_git.Scheduler.Policy.{tick_quantum}
use cse130_git.Scheduler.Preemption.{IsFirst, tick_runs_highest_priority}
use cse130_git.Scheduler.Totals.{stats_lem}

abbrev Lq : QueueLib Times
Lq = list_queue Times

abbrev t1 : Thread
t1 = record { tid = 1; priority = 5; length = 0 }

abbrev t2 : Thread
t2 = record { tid = 2; priority = 1; length = 0 }

abbrev idle : Algorithm → ℕ → State Lq
idle a n = record {
  ready_queue = [];
  io_queue = [];
  done_queue = [];
  cur_t = none;
  io_t = none;
  ticks = 0;
  last_on_total = 0;
  alg = a;
  quant = n;
  dispatched = [];
}

-- `t1` runs and `t2` is ready.
abbrev busy : Algorithm → ℕ → State Lq
busy a n = record (idle a n) {
  ready_queue = new_times t2 0 ∷ [];
  cur_t = some (new_times t1 0);
  dispatched = t1 ∷ [];
}

arrivals_run :
    run Lq (exec t1 ∷ exec t2 ∷ []) (scheduler Lq Algorithm.round_robin 1)
    ≡ some (busy Algorithm.round_robin 1)
unfolding run handle scheduler sys_exec
arrivals_run = refl

run-conserves_example : tally (λ t. t.tid == 2) (reachable Lq (busy Algorithm.round_robin 1)) ≡ 1
run-conserves_example =
    run-conserves Lq (λ t. t.tid == 2) Algorithm.round_robin 1 (exec t1 ∷ exec t2 ∷ [])
      (busy Algorithm.round_robin 1) arrivals_run

-- The quantum of 1 is over: the threads change places.
abbrev before_switch : State Lq
before_switch = record (busy Algorithm.round_robin 1) { ticks = 1; last_on_total = 1 }

abbrev after_switch : State Lq
after_switch = record (busy Algorithm.round_robin 1) {
  ready_queue = record (new_times t1 0) { last_on = 1 } ∷ [];
  cur_t = some (record (new_times t2 0) { waiting_time = pos 1; last_on = 1 });
  ticks = 2;
  last_on_total = 1;
  dispatched = t2 ∷ t1 ∷ [];
}

tick_quantum_example : after_switch.last_on_total ≤ 1
unfolding tick priority_sort_if choose rotate end_tick ◌+ℤ◌
tick_quantum_example =
    tick_quantum Lq before_switch after_switch refl refl (λ e. ground arith) (λ e. ground arith)

-- `t2` has the higher priority and takes the CPU.
abbrev preempted : State Lq
preempted = record (busy Algorithm.preemptive_priority 0) {
  ready_queue = new_times t1 0 ∷ [];
  cur_t = some (new_times t2 0);
  ticks = 1;
  last_on_total = 1;
  dispatched = t2 ∷ t1 ∷ [];
}

tick_runs_highest_priority_example : IsFirst Lq (new_times t2 0) preempted.ready_queue
unfolding tick priority_sort_if priority_sort preempt switch_to choose end_tick sort_priority
    insertion_sort ◌+ℤ◌
tick_runs_highest_priority_example =
    tick_runs_highest_priority Lq (busy Algorithm.preemptive_priority 0) preempted (new_times t2 0)
      refl (omega arith) refl refl

-- `t1` is on the device, and `t2`, of higher priority than `t1`'s, is behind another in the queue.
abbrev waiting : State Lq
waiting = record (idle Algorithm.non_preemptive_priority 0) {
  ready_queue = new_times t1 0 ∷ new_times t2 0 ∷ [];
  io_t = some (new_times t1 0);
  ticks = 3;
}

abbrev woken : State Lq
woken = record waiting {
  ready_queue = new_times t2 0 ∷ record (new_times t1 0) { last_on = 3 } ∷ [];
  cur_t = some (record (new_times t1 0) { waiting_time = pos 3; last_on = 3 });
  io_t = none;
  dispatched = t1 ∷ [];
}

abbrev finished : State Lq
finished = record (idle Algorithm.first_come_first_served 0) {
  done_queue = record (new_times t1 0) { running_time = pos 7 } ∷ new_times t2 0 ∷ [];
}

stats_lem_example :
    stats Lq finished
    ≡ some (record {
      thread_count = 2;
      turnaround_time = 3;
      waiting_time = 0;
      tstats = map (row 2) finished.done_queue;
    })
unfolding ◌+ℤ◌
stats_lem_example = stats_lem Lq finished (λ e. ground arith)

-- `io_starting` in the tick of the request takes one from the waiting time.
starting_early :
    io_starting Lq (record (idle Algorithm.round_robin 1) { io_t = some (new_times t1 0) })
    ≡ some (record (idle Algorithm.round_robin 1) {
      io_t = some (record (new_times t1 0) { waiting_time = negsuc 0 });
    })
unfolding io_starting ◌+ℤ◌
starting_early = refl

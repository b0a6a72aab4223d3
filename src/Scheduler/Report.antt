-- ===== src/Scheduler/Report.antt =====
-- `stats`: the report after the last thread.
use cse130_git.Prelude.{
  ℕ, zero, suc, ◌/◌, Option, none, some, List, [], ◌∷◌, ℤ, pos, ◌+ℤ◌, u32_of_int, ◌==◌,
  if◌then◌else◌,
}
use cse130_git.Queue.{QueueLib}
use cse130_git.Scheduler.State.{Times, State}
use cse130_git.Scheduler.Handlers.{◌>>=◌}

-- An element of `tstats`, a `stats_t` of the second level.
pub record ThreadStats : Type 0 where
  pub tid : ℕ
  pub turnaround_time : ℕ
  pub waiting_time : ℕ
  pub thread_count : ℕ

-- `stats_t` at the top level.
pub record Stats : Type 0 where
  pub thread_count : ℕ
  pub turnaround_time : ℕ
  pub waiting_time : ℕ
  pub tstats : List ThreadStats

-- The loop's results: the rows, and the two sums.
pub record Sums : Type 0 where
  pub rows : List ThreadStats
  pub mean_turn : ℤ
  pub mean_wait : ℤ

abbrev pub row : ℕ → Times → ThreadStats
row n ti = record {
  tid = ti.t.tid;
  turnaround_time = u32_of_int ti.running_time;
  waiting_time = u32_of_int ti.waiting_time;
  thread_count = n;
}

module _ (L : QueueLib Times) where
  -- The `for`, with the rounds left; `n` is `thread_count`.
  unfoldable pub collect : ℕ → ℕ → L.Queue → ℤ → ℤ → Option Sums
  collect n zero q turn wait = some (record { rows = []; mean_turn = turn; mean_wait = wait })
  collect n (suc i) q turn wait =
      let (next, q') = L.queue_dequeue q in
      elim next [
        | none ↦ none
        | some ti ↦ do
          rest ← collect n i q' (turn +ℤ ti.running_time) (wait +ℤ ti.waiting_time)
          some (record rest { rows = row n ti ∷ rest.rows })
      ]

  -- The means divide an `int` by an `unsigned`, that is as unsigned values. Division by zero faults.
  unfoldable pub stats : State L → Option Stats
  stats s = do
    let n = L.queue_size s.done_queue
    sums ← collect n n s.done_queue (pos 0) (pos 0)
    if n == 0
        then none
        else some (record {
          thread_count = n;
          turnaround_time = u32_of_int sums.mean_turn / n;
          waiting_time = u32_of_int sums.mean_wait / n;
          tstats = sums.rows;
        })

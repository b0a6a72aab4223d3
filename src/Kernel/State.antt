-- ===== src/Kernel/State.antt =====
-- Lab2/pintos/src/threads/thread.h and the global variables of thread.c, timer.c and interrupt.c.
use cse130_git.Prelude.{ℕ, List, Bool, update}

-- `enum thread_status`.
pub data Status : Type 0 where
  running ready blocked dying : Status

-- `struct thread`, less its stack and name.
pub record Thread : Type 0 where
  pub status : Status
  pub priority : ℕ
  pub wake_up_tick : ℕ

-- Threads are named by their `tid`. `cur` is the one whose stack is in use.
pub record Kernel : Type 0 where
  pub thread : ℕ → Thread
  pub cur : ℕ
  pub idle_thread : ℕ
  pub ready_list : List ℕ
  pub timer_list : List ℕ
  pub next_tid : ℕ
  pub ticks : ℕ
  pub thread_ticks : ℕ
  pub idle_ticks : ℕ
  pub kernel_ticks : ℕ
  pub in_external_intr : Bool
  pub yield_on_return : Bool

abbrev pub priority_of : Kernel → ℕ → ℕ
priority_of k t = (k.thread t).priority

abbrev pub status_of : Kernel → ℕ → Status
status_of k t = (k.thread t).status

-- `t->status = s`.
abbrev pub set_status : Kernel → ℕ → Status → Kernel
set_status k t s = record k { thread = update k.thread t (record (k.thread t) { status = s }) }

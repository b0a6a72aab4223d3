-- ===== src/Scheduler/Faults.antt =====
-- When a callback follows a NULL pointer, and the device's queue.
use cse130_git.Prelude.{Bool, true, not}
use cse130_git.Queue.{QueueLib}
use cse130_git.Scheduler.State.{Times, State}
use cse130_git.Scheduler.Handlers.{is_null}
use cse130_git.Scheduler.Trace.{Event, exec, clock, exit, read, write, complete, starting}

module _ (L : QueueLib Times) where
  -- What the code takes for granted: a thread on the CPU, or one on the device.
  abbrev pub has_subject : Event → State L → Bool
  has_subject (exec t) s = true
  has_subject clock s = true
  has_subject exit s = not (is_null s.cur_t)
  has_subject read s = not (is_null s.cur_t)
  has_subject write s = not (is_null s.cur_t)
  has_subject complete s = not (is_null s.io_t)
  has_subject starting s = not (is_null s.io_t)

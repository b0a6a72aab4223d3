-- ===== src/Scheduler/Trace.antt =====
-- The simulator's calls as a sequence of events, handled one after the other.
use cse130_git.Prelude.{Option, some, List, [], ◌∷◌}
use cse130_git.Queue.{QueueLib}
use cse130_git.Scheduler.State.{Thread, Times, State}
use cse130_git.Scheduler.Handlers.{
  ◌>>=◌, sys_exec, tick, sys_exit, sys_read, sys_write, io_complete, io_starting,
}

pub data Event : Type 0 where
  exec : Thread → Event
  clock exit read write complete starting : Event

module _ (L : QueueLib Times) where
  unfoldable pub handle : Event → State L → Option (State L)
  handle (exec t) s = some (sys_exec L s t)
  handle clock s = tick L s
  handle exit s = sys_exit L s
  handle read s = sys_read L s
  handle write s = sys_write L s
  handle complete s = io_complete L s
  handle starting s = io_starting L s

  unfoldable pub run : List Event → State L → Option (State L)
  run [] s = some s
  run (e ∷ es) s = handle e s >>= λ s'. run es s'

-- ===== src/Scheduler/Handlers.antt =====
-- The callbacks. `none` is a fault: a NULL pointer is followed.
use cse130_git.Prelude.{
  ℕ, ◌+◌, Option, none, some, ◌∷◌, Bool, true, false, ◌&&◌, not, ◌+ℤ◌, sub_ℕ, ltb, leb, ◌==◌,
  if◌then◌else◌,
}
use cse130_git.Queue.{QueueLib}
use cse130_git.Scheduler.State.{
  Thread, code, Times, State, sort_priority, new_times, resume, dispatch,
}

infixl 5 ◌>>=◌
abbrev pub ◌>>=◌ {ℓ κ} : {A : Type ℓ} {B : Type κ} → Option A → (A → Option B) → Option B
none >>= f = none
some a >>= f = f a

abbrev pub is_null {ℓ} : {A : Type ℓ} → Option A → Bool
is_null none = true
is_null (some _) = false

module _ (L : QueueLib Times) where
  -- The switch inside `priority_sort`: `h` is what `queue_dequeue` returns.
  unfoldable pub switch_to : State L → Times → Option Times × L.Queue → Option (State L)
  switch_to s cur (none, q) = none
  switch_to s cur (some h, q) =
      some (dispatch L s (L.queue_enqueue q (record cur { last_on = s.ticks })) h)

  unfoldable pub preempt : State L → Option Times → Option Times → Option (State L)
  preempt s (some cur) (some h) =
      if ltb h.t.priority cur.t.priority
      then switch_to s cur (L.queue_dequeue s.ready_queue)
      else some s
  preempt s cur h = some s

  -- `priority_sort (ready_queue)`, the one queue that it is called with.
  unfoldable pub priority_sort : State L → Option (State L)
  priority_sort s =
      let s' : State L = record s { ready_queue = L.queue_sort s.ready_queue sort_priority } in
      if code s.alg == 3 then preempt s' s'.cur_t (L.queue_head s'.ready_queue) else some s'

  -- `if (alg == n) priority_sort (ready_queue);`
  unfoldable pub priority_sort_if : ℕ → State L → Option (State L)
  priority_sort_if n s = if code s.alg == n then priority_sort s else some s

  unfoldable pub sys_exec : State L → Thread → State L
  sys_exec s t =
      if L.queue_size s.ready_queue == 0
        && is_null s.cur_t
        && not (code s.alg == 2)
        && not (code s.alg == 3)
      then record s { cur_t = some (new_times t s.ticks); dispatched = t ∷ s.dispatched }
      else record s { ready_queue = L.queue_enqueue s.ready_queue (new_times t s.ticks) }

  -- `tick` when the CPU is idle: take the head of the ready queue, if there is one.
  unfoldable pub take_next : State L → Option Times × L.Queue → State L
  take_next s (none, q) = record s { ready_queue = q }
  take_next s (some c, q) = record (dispatch L s q c) { last_on_total = 0 }

  -- `tick` when the quantum is over: the running thread goes to the tail of the ready queue.
  unfoldable pub rotate : State L → Option Times × L.Queue → Option (State L)
  rotate s (none, q) = none
  rotate s (some c, q) = some (record (dispatch L s q c) { last_on_total = 0 })

  unfoldable pub choose : State L → Option Times → Option (State L)
  choose s none = do s' ← priority_sort_if 2 s; some (take_next s' (L.queue_dequeue s'.ready_queue))
  choose s (some cur) =
      if code s.alg == 1 && leb s.quant s.last_on_total && not (L.queue_size s.ready_queue == 0)
      then rotate s
          (L.queue_dequeue (L.queue_enqueue s.ready_queue (record cur { last_on = s.ticks })))
      else some s

  -- The end of `tick`: the count of ticks on the CPU, and the clock.
  unfoldable pub end_tick : State L → State L
  end_tick s = record s {
    last_on_total =
        if not (is_null s.cur_t)
        then s.last_on_total + 1
        else (if s.last_on_total == s.quant then 0 else s.last_on_total);
    ticks = s.ticks + 1;
  }

  unfoldable pub tick : State L → Option (State L)
  tick s = do s' ← priority_sort_if 3 s; s'' ← choose s' s'.cur_t; some (end_tick s'')

  unfoldable pub sys_exit : State L → Option (State L)
  sys_exit s = do
    c ← s.cur_t
    some (record s {
      done_queue =
          L.queue_enqueue s.done_queue (record c { running_time = sub_ℕ s.ticks c.beg_time });
      cur_t = none;
    })

  -- `sys_read` takes the free device, or stamps the thread and queues it.
  unfoldable pub sys_read : State L → Option (State L)
  sys_read s = do
    c ← s.cur_t
    let c' = record c { last_on = s.ticks }
    some (
        if L.queue_size s.io_queue == 0 && is_null s.io_t
        then record s { io_t = some c'; cur_t = none }
        else record s { io_queue = L.queue_enqueue s.io_queue c'; cur_t = none })

  -- `sys_write` queues the thread and then stamps it, through the same pointer.
  unfoldable pub sys_write : State L → Option (State L)
  sys_write s = do
    c ← s.cur_t
    let c' = record c { last_on = s.ticks }
    some (
        if L.queue_size s.io_queue == 0 && is_null s.io_t
        then record s { io_t = some c'; cur_t = none }
        else record s { io_queue = L.queue_enqueue s.io_queue c'; cur_t = none })

  -- The end of `io_complete`: an idle CPU takes the head of the ready queue.
  unfoldable pub wake_cpu : State L → Option Times → Option Times × L.Queue → State L
  wake_cpu s (some cur) next = s
  wake_cpu s none (none, q) = record s { ready_queue = q }
  wake_cpu s none (some c, q) = dispatch L s q c

  unfoldable pub io_complete : State L → Option (State L)
  io_complete s = do
    c ← s.io_t
    let ready = L.queue_enqueue s.ready_queue (record c { last_on = s.ticks })
    let next = L.queue_dequeue s.io_queue
    some (
        wake_cpu (record s { ready_queue = ready; io_t = next.0; io_queue = next.1 }) s.cur_t
          (L.queue_dequeue ready))

  -- `(ticks - 1) - io_t->last_on`, and then `ticks - io_t->last_on` with `last_on` set to `ticks`.
  unfoldable pub io_starting : State L → Option (State L)
  io_starting s = do
    c ← s.io_t
    let c' = record c {
      waiting_time = c.waiting_time +ℤ sub_ℕ s.ticks (c.last_on + 1);
      last_on = s.ticks;
    }
    some (record s { io_t = some (resume s.ticks c') })

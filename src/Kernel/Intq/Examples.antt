-- ===== src/Kernel/Intq/Examples.antt =====
-- An empty buffer, and a thread that reads from it.
use cse130_git.Prelude.{ℕ, ◌≡◌, refl, some, [], ◌∷◌, true, false, ◌==◌, if◌then◌else◌, arith}
use cse130_git.Kernel.State.{running, blocked, Thread, Kernel}
use cse130_git.Kernel.Intq.{Intq, intq_init}
use cse130_git.Kernel.Intq.Fifo.{contents, put_all, get_all, get_all-put_all}

-- Thread 0 runs, 2 waits for a byte and is more urgent.
abbrev threads : ℕ → Thread
threads t =
    if t == 0
    then record { status = running; priority = 31; wake_up_tick = 0 }
    else record { status = blocked; priority = 40; wake_up_tick = 0 }

abbrev in_handler : Kernel
in_handler = record {
  thread = threads;
  cur = 0;
  idle_thread = 1;
  ready_list = [];
  timer_list = [];
  next_tid = 3;
  ticks = 0;
  thread_ticks = 0;
  idle_ticks = 0;
  kernel_ticks = 0;
  in_external_intr = true;
  yield_on_return = false;
}

abbrev empty : Intq
empty = intq_init (λ i. i)

contents-empty : contents empty ≡ []
unfolding contents
contents-empty = refl

get_all-put_all_example :
    (q : Intq) × (put_all (7 ∷ 8 ∷ []) empty in_handler ≡ some (q, in_handler)
      × get_all 2 q in_handler ≡ some (7 ∷ 8 ∷ []))
get_all-put_all_example =
    get_all-put_all (7 ∷ 8 ∷ []) empty in_handler (omega arith, omega arith) (refl, refl)
      contents-empty (omega arith)

abbrev awaited : Intq
awaited = record empty { not_empty = some 2 }

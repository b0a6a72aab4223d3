-- ===== src/Kernel/Actions.antt =====
-- Any sequence of the operations of thread.c.
use cse130_git.Prelude.{ℕ, ◌≤◌, ◌<◌, ◌≡◌, ◌≢◌, Option, none, some, Bool}
use cse130_git.Kernel.State.{blocked, Thread, Kernel, status_of}
use cse130_git.Kernel.Threads.{
  thread_yield, thread_block, thread_exit, thread_unblock, thread_create, thread_set_priority,
}

new_thread : ℕ → Thread
new_thread p = record { status = blocked; priority = p; wake_up_tick = 0 }

pub data Action : Type 0 where
  yields blocks exits : Action
  unblocks : (t : ℕ) → Action
  creates : (page : Bool) (priority : ℕ) → Action
  sets_priority : (priority : ℕ) → Action

-- The operation of an action, by the current thread.
abbrev pub act : Kernel → Action → Option Kernel
act k yields = thread_yield k
act k blocks = thread_block k
act k exits = thread_exit k
act k (unblocks t) = thread_unblock k t
act k (creates page p) = elim (thread_create k page p) [ none ↦ none | some (t, k') ↦ some k' ]
act k (sets_priority p) = thread_set_priority k p

-- What an action's caller has to see to: a thread to unblock is blocked and not the idle thread, and a
-- new priority is in its range.
abbrev pub IsAllowed : Kernel → Action → Type 0
IsAllowed k (unblocks t) = (status_of k t ≡ blocked) × (t ≢ k.idle_thread) × (t < k.next_tid)
IsAllowed k (creates page p) = p ≤ 63
IsAllowed k _ = Unit

-- ===== src/Kernel/Invariant.antt =====
-- Every operation leaves the most urgent thread running and the ready list in order.
use cse130_git.Prelude.{
  ℕ, ◌≤◌, ◌<◌, ◌≡◌, ◌≢◌, ◌⊎◌, inl, inr, refl, sym, List, [], ◌∷◌, Bool, All, arith,
}
use cse130_git.Kernel.State.{Status, running, ready, Kernel, priority_of, status_of, set_status}
use cse130_git.Kernel.Ordered.{
  Descending, Distinct, All-imp, All-both, insert-All, insert-Distinct, insert-Descending,
  Descending-cong,
}
use cse130_git.Kernel.Threads.{enqueue, thread_schedule_tail, schedule}

-- The ready list: threads that are ready, each once, the highest priority first, the idle thread not
-- among them.
pub record Queued (inside : Bool) (k : Kernel) : Type 0 where
  pub readies : All (λ t. status_of k t ≡ ready) k.ready_list
  pub ordered : Descending (priority_of k) k.ready_list
  pub distinct : Distinct k.ready_list
  pub no_idle : All (λ t. t ≢ k.idle_thread) k.ready_list
  pub known : All (λ t. t < k.next_tid) k.ready_list
  pub idle_known : k.idle_thread < k.next_tid
  pub cur_known : k.cur < k.next_tid
  pub context : k.in_external_intr ≡ inside

-- Between operations the current thread runs, and unless it is the idle thread no ready thread has a
-- higher priority.
pub record Inv (inside : Bool) (k : Kernel) : Type 0 where
  pub queued : Queued inside k
  pub runs : status_of k k.cur ≡ running
  pub urgent :
      (k.cur ≡ k.idle_thread) ⊎ All (λ t. priority_of k t ≤ priority_of k k.cur) k.ready_list

abbrev pub NotQueued : Kernel → ℕ → Type 0
NotQueued k t = All (λ y. y ≢ t) k.ready_list

pub unready-NotQueued :
    {b : Bool} (k : Kernel) (t : ℕ) → Queued b k → status_of k t ≢ ready → NotQueued k t
unready-NotQueued k t q h = All-imp k.ready_list (λ y e f. h (rw (sym f) e)) q.readies

pub set_status-Queued :
    {b : Bool} (k : Kernel) (t : ℕ) (s : Status)
    → Queued b k
    → NotQueued k t
    → Queued b (set_status k t s)
set_status-Queued k t s q h = record {
  readies = All-both k.ready_list (λ y e n. ground (arith, e, n)) q.readies h;
  ordered =
      Descending-cong (priority_of k) (priority_of (set_status k t s)) k.ready_list
        (All-imp k.ready_list (λ y n. ground (arith, n)) h) q.ordered;
  distinct = q.distinct;
  no_idle = q.no_idle;
  known = q.known;
  idle_known = q.idle_known;
  cur_known = q.cur_known;
  context = q.context;
}

-- A thread that is made ready joins the list.
pub make_ready-Queued :
    {b : Bool} (k : Kernel) (t : ℕ)
    → Queued b k
    → NotQueued k t
    → t ≢ k.idle_thread
    → t < k.next_tid
    → Queued b (set_status (enqueue k t) t ready)
make_ready-Queued k t q h i l = record {
  readies =
      insert-All (priority_of k) t (λ y. status_of (set_status k t ready) y ≡ ready) k.ready_list
        (ground arith) (All-both k.ready_list (λ y e n. ground (arith, e, n)) q.readies h);
  ordered =
      Descending-cong (priority_of k) (priority_of (set_status k t ready))
        ((enqueue k t).ready_list)
        (insert-All (priority_of k) t (λ y. priority_of k y ≡ priority_of (set_status k t ready) y)
          k.ready_list (ground arith) (All-imp k.ready_list (λ y n. ground (arith, n)) h))
        (insert-Descending (priority_of k) t k.ready_list q.ordered);
  distinct = insert-Distinct (priority_of k) t k.ready_list h q.distinct;
  no_idle = insert-All (priority_of k) t (λ y. y ≢ k.idle_thread) k.ready_list i q.no_idle;
  known = insert-All (priority_of k) t (λ y. y < k.next_tid) k.ready_list l q.known;
  idle_known = q.idle_known;
  cur_known = q.cur_known;
  context = q.context;
}

-- `schedule` runs the head of the list, or the idle thread.
run_next-Inv :
    {b : Bool} (k : Kernel) (t : ℕ) (ts : List ℕ)
    → Queued b (record k { ready_list = ts })
    → NotQueued (record k { ready_list = ts }) t
    → t < k.next_tid
    → (t ≡ k.idle_thread) ⊎ All (λ y. priority_of k y ≤ priority_of k t) ts
    → Inv b (thread_schedule_tail (record k { cur = t; ready_list = ts }))
run_next-Inv k t ts q h l u = record {
  queued =
      let q' = set_status-Queued (record k { ready_list = ts }) t running q h in
      record {
        readies = q'.readies;
        ordered = q'.ordered;
        distinct = q'.distinct;
        no_idle = q'.no_idle;
        known = q'.known;
        idle_known = q'.idle_known;
        cur_known = l;
        context = q'.context;
      };
  runs = ground arith;
  urgent = elim u [ inl e ↦ inl e | inr a ↦ inr (All-both ts (λ y l n. ground (arith, l, n)) a h) ];
}

rest-Queued :
    {b : Bool} (k : Kernel) (t : ℕ) (ts : List ℕ)
    → k.ready_list ≡ t ∷ ts
    → Queued b k
    → Queued b (record k { ready_list = ts })
rest-Queued k t ts e q = record {
  readies = (rw e at q.readies).1;
  ordered = (rw e at q.ordered).1;
  distinct = (rw e at q.distinct).1;
  no_idle = (rw e at q.no_idle).1;
  known = (rw e at q.known).1;
  idle_known = q.idle_known;
  cur_known = q.cur_known;
  context = q.context;
}

pub schedule-Inv :
    {b : Bool} (k : Kernel) (xs : List ℕ) → k.ready_list ≡ xs → Queued b k → Inv b (schedule k)
schedule-Inv k [] e q =
    rw e (run_next-Inv k k.idle_thread [] (rw (sym e) q) tt q.idle_known (inl refl))
schedule-Inv k (t ∷ ts) e q = rw e (
    run_next-Inv k t ts (rest-Queued k t ts e q) ((rw e at q.distinct).0) ((rw e at q.known).0)
      (inr ((rw e at q.ordered).0)))

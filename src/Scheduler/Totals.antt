-- ===== src/Scheduler/Totals.antt =====
-- What `stats` reports.
use cse130_git.Prelude.{
  ℕ, ◌/◌, ◌≡◌, ◌≢◌, refl, ap, ◌∙◌, none, some, List, [], ◌∷◌, map, ℤ, pos, ◌+ℤ◌, u32_of_int, head?,
  tail, length, arith, ◌==◌, false,
}
use cse130_git.Queue.{QueueLib}
use cse130_git.Scheduler.State.{Times, State}
use cse130_git.Scheduler.Report.{row, collect, stats}

-- The sum of an `int` field over a list, from the front.
abbrev pub total : (Times → ℤ) → ℤ → List Times → ℤ
total f acc [] = acc
total f acc (x ∷ xs) = total f (acc +ℤ f x) xs

length-ne-zero : (xs : List Times) → xs ≢ [] → (length xs == 0) ≡ false
length-ne-zero [] h = absurd (h refl)
length-ne-zero (x ∷ xs) h = ground arith

module _ (L : QueueLib Times) where
  collect_lem :
      (n : ℕ) (xs : List Times) (q : L.Queue) (turn wait : ℤ)
      → L.items q ≡ xs
      → collect L n (length xs) q turn wait
        ≡ some (record {
          rows = map (row n) xs;
          mean_turn = total (λ c. c.running_time) turn xs;
          mean_wait = total (λ c. c.waiting_time) wait xs;
        })
  unfolding collect
  collect_lem n [] q turn wait e = refl
  collect_lem n (x ∷ xs) q turn wait e =
      let front : (L.queue_dequeue q).0 ≡ some x = L.dequeue-head q ∙ ap head? e in
      let rest =
        collect_lem n xs (L.queue_dequeue q).1 (turn +ℤ x.running_time) (wait +ℤ x.waiting_time)
          (L.items-dequeue q ∙ ap tail e) in
      rw (front, rest)

  -- With at least one finished thread, `stats` returns a row for each, in the order in which they
  -- finished, and the two means as unsigned quotients of the sums.
  pub stats_lem :
      (s : State L)
      → L.items s.done_queue ≢ []
      → let done = L.items s.done_queue in
        stats L s
        ≡ some (record {
          thread_count = length done;
          turnaround_time = u32_of_int (total (λ c. c.running_time) (pos 0) done) / length done;
          waiting_time = u32_of_int (total (λ c. c.waiting_time) (pos 0) done) / length done;
          tstats = map (row (length done)) done;
        })
  unfolding stats
  stats_lem s h =
      let done = L.items s.done_queue in
      rw (
        L.size_lem s.done_queue,
        collect_lem (length done) done s.done_queue (pos 0) (pos 0) refl,
        length-ne-zero done h,
      )

  -- With no finished thread `stats` divides by zero.
  stats-none : (s : State L) → L.items s.done_queue ≡ [] → stats L s ≡ none
  unfolding stats
  stats-none s e = rw (
    L.size_lem s.done_queue,
    collect_lem (length (L.items s.done_queue)) (L.items s.done_queue) s.done_queue (pos 0) (pos 0)
        refl,
    ap length e,
  )

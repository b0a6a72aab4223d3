-- ===== src/Pager/Examples.antt =====
-- The pager run on small inputs, and its theorems at them, over queues that are lists.
use mathlib.Core.List.{reverse}
use cse130_git.Prelude.{update, ℕ, ◌≡◌, refl, some, List, [], ◌∷◌, arith}
use cse130_git.Queue.{QueueLib}
use cse130_git.Queue.Listed.{list_queue, insertion_sort}
use cse130_git.Pager.State.{Algorithm, FreqPage, Pager, pager_init}
use cse130_git.Pager.Search.{scan, refill, find_elem, scan_freq, refill_freq, find_elem_freq}
use cse130_git.Pager.Request.{
  sort_freq, spin, replace, evict, print_sorted, load, request_page, load_freq, end_freq,
  request_freq, pager_request, run,
}
use cse130_git.Pager.Clock.{Turn, clear_all, replace_turns}
use cse130_git.Pager.History.{lru_keeps_recent}

abbrev Pq : QueueLib ℕ
Pq = list_queue ℕ

abbrev Fq : QueueLib FreqPage
Fq = list_queue FreqPage

-- Arrays as `malloc` may find them: all ones.
abbrev ones : ℕ → ℕ
ones i = 1

abbrev holding : Algorithm → ℕ → List ℕ → List ℕ → ℕ → Pager Pq Fq
holding a frames pages log step = record {
  max_size = frames;
  alg = a;
  queue = pages;
  freq_queue = [];
  freq_list = ones;
  bit_refs = ones;
  step = step;
  fetched = log;
}

abbrev lru : Algorithm
lru = Algorithm.least_recently_used

abbrev fifo : Algorithm
fifo = Algorithm.first_in_first_out

abbrev three : List ℕ
three = 4 ∷ 7 ∷ 2 ∷ []

replace_turns_example :
    (q' : List ℕ) × (cleared : List ℕ) × (replace Pq 1 0 three ones
      ≡ some (q', clear_all ones 0 cleared))
    × Turn 1 ones three q' cleared
replace_turns_example =
    replace_turns Pq 1 0 three ones (omega arith) (refl, (refl, (refl, tt))) (λ e. ground arith)

-- With all bits set the loop goes round once and takes the head.
replace_full_turn : replace Pq 1 0 three ones ≡ some (7 ∷ 2 ∷ [], clear_all ones 0 three)
unfolding replace spin
replace_full_turn = refl

abbrev two_pages : Pager Pq Fq
two_pages = holding Algorithm.second_chance 2 (4 ∷ 7 ∷ []) (7 ∷ 4 ∷ []) 2

-- Page 2 is the least recent at the request for 3.
lru-run :
    run Pq Fq (1 ∷ 2 ∷ 1 ∷ 3 ∷ []) (pager_init Pq Fq ones lru 2)
    ≡ some (holding lru 2 (1 ∷ 3 ∷ []) (3 ∷ 2 ∷ 1 ∷ []) 4)
unfolding run pager_init pager_request request_page load evict find_elem scan refill
lru-run = refl

lru_keeps_recent_example : ◌≡◌ {A = List ℕ} (reverse (1 ∷ 3 ∷ [])) (3 ∷ 1 ∷ [])
lru_keeps_recent_example =
    lru_keeps_recent Pq Fq ones 1 (1 ∷ 2 ∷ 1 ∷ 3 ∷ [])
      (holding lru 2 (1 ∷ 3 ∷ []) (3 ∷ 2 ∷ 1 ∷ []) 4) lru-run

-- Page 1 came first.
fifo-run :
    run Pq Fq (1 ∷ 2 ∷ 1 ∷ 3 ∷ []) (pager_init Pq Fq ones fifo 2)
    ≡ some (holding fifo 2 (2 ∷ 3 ∷ []) (3 ∷ 2 ∷ 1 ∷ []) 4)
unfolding run pager_init pager_request request_page load evict find_elem scan refill
fifo-run = refl

abbrev rare : FreqPage
rare = record { uses = 1; page = 8; last = 5 }

abbrev frequent : FreqPage
frequent = record { uses = 3; page = 6; last = 4 }

abbrev counting : Pager Pq Fq
counting = record (holding Algorithm.least_frequently_used 2 [] (8 ∷ 6 ∷ []) 6) {
  freq_queue = rare ∷ frequent ∷ [];
}

-- The first use of a page is counted from what `malloc` left in the array.
first_use_counts_memory :
    request_freq Pq Fq (pager_init Pq Fq (λ i. 41) Algorithm.least_frequently_used 2) 9
    ≡ some (record (pager_init Pq Fq (λ i. 41) Algorithm.least_frequently_used 2) {
      freq_list = update (λ i. 41) 9 42;
      freq_queue = record { uses = 42; page = 9; last = 0 } ∷ [];
      fetched = 9 ∷ [];
    })
unfolding pager_init request_freq load_freq end_freq print_sorted find_elem_freq scan_freq
    refill_freq insertion_sort sort_freq
first_use_counts_memory = refl

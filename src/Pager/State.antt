-- ===== src/Pager/State.antt =====
-- The pager's variables, `pager_init`, and arrays as functions.
use cse130_git.Prelude.{ℕ, List, [], ◌==◌, Bool, ◌||◌}
use cse130_git.Queue.{QueueLib}

-- `enum algorithm` of Assignment5/simulator.h, with its values.
pub data Algorithm : Type 0 where
  first_in_first_out least_recently_used least_frequently_used second_chance : Algorithm
  circular_queue : Algorithm

abbrev pub code : Algorithm → ℕ
code Algorithm.first_in_first_out = 0
code Algorithm.least_recently_used = 1
code Algorithm.least_frequently_used = 2
code Algorithm.second_chance = 3
code Algorithm.circular_queue = 4

-- `struct freq_page`.
pub record FreqPage : Type 0 where
  pub uses : ℕ
  pub page : ℕ
  pub last : ℕ

-- The global variables. The one `queue` of the source holds pages, or `freq_page`s under least
-- frequently used: here it is two fields. `fetched` holds the calls of `sim_get_page`, the newest
-- first.
pub record Pager (P : QueueLib ℕ) (F : QueueLib FreqPage) : Type 0 where
  pub max_size : ℕ
  pub alg : Algorithm
  pub queue : P.Queue
  pub freq_queue : F.Queue
  pub freq_list : ℕ → ℕ
  pub bit_refs : ℕ → ℕ
  pub step : ℕ
  pub fetched : List ℕ

-- The length of the arrays that `pager_init` allocates.
abbrev pub array_len : ℕ
array_len = 1_000_000

-- Whether the algorithm indexes an array by the page.
abbrev pub uses_array : Algorithm → Bool
uses_array a = code a == 2 || (code a == 3 || code a == 4)

module _ (P : QueueLib ℕ) (F : QueueLib FreqPage) where
  -- `memory` is what `malloc` finds in the arrays: the code does not clear them.
  unfoldable pub pager_init : (memory : ℕ → ℕ) → Algorithm → ℕ → Pager P F
  pager_init memory algorithm frames = record {
    max_size = frames;
    alg = algorithm;
    queue = P.queue_create;
    freq_queue = F.queue_create;
    freq_list = memory;
    bit_refs = memory;
    step = 0;
    fetched = [];
  }

-- ===== src/Manpage/Threads.antt =====
-- The threads of `print_page`. `cur_page` is read and written under one mutex, so the steps between its
-- lock and its unlock are one, but for `pthread_cond_wait`, which gives it away and sleeps.
use cse130_git.Prelude.{ℕ, ◌+◌, ◌<◌, ◌≡◌, ◌≢◌, List, [], ◌∷◌, update}

pub data Pc : Type 0 where
  starting : Pc  -- before `pthread_mutex_lock`
  waiting : Pc  -- before the test of the loop
  asleep : Pc  -- in `pthread_cond_wait`
  announcing : Pc  -- before `pthread_cond_broadcast`
  finished : Pc

abbrev pub woken : Pc → Pc
woken asleep = waiting
woken p = p

-- Thread `i` has the paragraph `i`. `shown` holds what `showParagraph` has shown, the newest first.
pub record Page : Type 0 where
  pub cur_page : ℕ
  pub shown : List ℕ
  pub pc : ℕ → Pc

-- `manpage`: the global `cur_page` is 0.
abbrev pub manpage : Page
manpage = record { cur_page = 0; shown = []; pc = λ i. starting }

pub data Step (s : Page) : Page → Type 0 where
  begin : (i : ℕ) → i < 7 → s.pc i ≡ starting → Step s (record s { pc = update s.pc i waiting })
  sleep :
      (i : ℕ)
      → i < 7
      → s.pc i ≡ waiting
      → i ≢ s.cur_page
      → Step s (record s { pc = update s.pc i asleep })
  show :
      (i : ℕ)
      → i < 7
      → s.pc i ≡ waiting
      → i ≡ s.cur_page
      → Step s
          (record { cur_page = s.cur_page + 1; shown = i ∷ s.shown; pc = update s.pc i announcing })
  broadcast :
      (i : ℕ)
      → i < 7
      → s.pc i ≡ announcing
      → Step s (record s { pc = update (λ k. woken (s.pc k)) i finished })
  -- `pthread_cond_wait` may also return with no broadcast.
  spurious : (i : ℕ) → i < 7 → s.pc i ≡ asleep → Step s (record s { pc = update s.pc i waiting })

pub data Reach : Page → Type 0 where
  start : Reach manpage
  later : {s t : Page} → Reach s → Step s t → Reach t

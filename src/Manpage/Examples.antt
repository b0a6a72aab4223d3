-- ===== src/Manpage/Examples.antt =====
-- The first paragraph is shown.
use cse130_git.Prelude.{◌≤◌, ◌≡◌, refl, [], ◌∷◌, update, arith}
use cse130_git.Manpage.Threads.{
  waiting, announcing, Page, manpage, begin, show, Reach, start, later,
}
use cse130_git.Manpage.Order.{below, paragraphs_in_order}

abbrev one_shown : Page
one_shown = record {
  cur_page = 1;
  shown = 0 ∷ [];
  pc = update (update manpage.pc 0 waiting) 0 announcing;
}

one_run : Reach one_shown
one_run = later (later start (begin 0 (omega arith) refl)) (show 0 (omega arith) refl refl)

paragraphs_in_order_example : (one_shown.shown ≡ below 1) × (1 ≤ 7)
paragraphs_in_order_example = paragraphs_in_order one_run

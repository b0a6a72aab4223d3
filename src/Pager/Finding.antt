-- ===== src/Pager/Finding.antt =====
-- `find_elem` against the list of pages that the queue holds.
use mathlib.Core.Path.{fun_ext}
use mathlib.Core.List.{append_assoc, append-nil}
use cse130_git.Prelude.{
  ℕ, ◌≡◌, refl, sym, ap, ◌∙◌, Option, none, some, List, [], ◌∷◌, ◌++◌, Bool, true, false, ◌||◌, ltb,
  ◌==◌, if◌then◌else◌, length, head?, tail, arith,
}
use cse130_git.Queue.{QueueLib}
use cse130_git.Pager.Search.{mark, Scan, visit, scan, refill, find_elem}
use cse130_git.Pager.Pages.{has, remove}

mark-mark : (a v : ℕ) (b : ℕ → ℕ) → mark a v (mark a v b) ≡ mark a v b
mark-mark a v b = fun_ext (λ j. ground arith)

module _ (P : QueueLib ℕ) where
  -- What is kept of the pages `xs` that a scan goes over.
  abbrev keep : ℕ → ℕ → List ℕ → List ℕ
  keep a val xs = if a == 1 then remove val xs else xs

  record Scanned (a val : ℕ) (xs : List ℕ) (s r : Scan P) : Type 0 where
    emptied : P.items r.q ≡ []
    kept : P.items r.temp_queue ≡ P.items s.temp_queue ++ keep a val xs
    flagged : r.flag ≡ (has val xs || s.flag)
    marked : r.bits ≡ (if has val xs then mark a val s.bits else s.bits)

  visited :
      (a val x : ℕ) (xs : List ℕ) (s r : Scan P) (next : Option ℕ × P.Queue)
      → next.0 ≡ some x
      → Scanned a val xs (visit P a val s next) r
      → Scanned a val (x ∷ xs) s r
  visited a val x xs s r (none, q) e h = absurd (ground arith)
  visited a val x xs s r (some y, q) e h = record {
    emptied = h.emptied;
    kept = ground (
      arith,
      P.items-enqueue s.temp_queue y,
      append_assoc (P.items s.temp_queue) (y ∷ []) (keep a val xs),
    );
    flagged = ground arith;
    marked = ground (arith, mark-mark a val s.bits);
  }

  nonempty :
      (q : P.Queue) {x : ℕ} {xs : List ℕ} → P.items q ≡ x ∷ xs → ltb 0 (P.queue_size q) ≡ true
  nonempty q e = ground (arith, P.size_lem q)

  scan_lem :
      (a val : ℕ) (xs : List ℕ) (s : Scan P)
      → P.items s.q ≡ xs
      → Scanned a val xs s (scan P (length xs) a val s)
  unfolding scan
  scan_lem a val [] s e = record {
    emptied = e;
    kept = ground (arith, append-nil (P.items s.temp_queue));
    flagged = refl;
    marked = refl;
  }
  scan_lem a val (x ∷ xs) s e =
      let next = P.queue_dequeue s.q in
      rw (nonempty s.q e, scan)
        (visited a val x xs s (scan P (length xs) a val (visit P a val s next)) next
          (P.dequeue-head s.q ∙ ap head? e)
          (scan_lem a val xs (visit P a val s next)
            (visit-rest a val s next (P.items-dequeue s.q ∙ ap tail e))))
    where
      visit-rest :
          (a val : ℕ) (s : Scan P) (next : Option ℕ × P.Queue)
          → P.items next.1 ≡ xs
          → P.items (visit P a val s next).q ≡ xs
      visit-rest a val s (o, q) h = ground arith

  refill_lem :
      (xs : List ℕ) (temp q : P.Queue)
      → P.items temp ≡ xs
      → P.items (refill P (length xs) temp q) ≡ P.items q ++ xs
  unfolding refill
  refill_lem [] temp q e = sym (append-nil (P.items q))
  refill_lem (x ∷ xs) temp q e =
      let front : (P.queue_dequeue temp).0 ≡ some x = P.dequeue-head temp ∙ ap head? e in
      rw (nonempty temp e, refill, front)
        (refill_lem xs (P.queue_dequeue temp).1 (P.queue_enqueue q x)
            (P.items-dequeue temp ∙ ap tail e)
          ∙ (ap (λ (ys : List ℕ). ys ++ xs) (P.items-enqueue q x)
              ∙ append_assoc (P.items q) (x ∷ []) xs))

  refilled :
      {a val : ℕ} {xs : List ℕ} {q : P.Queue} {bits : ℕ → ℕ} (d : Scan P)
      → Scanned a val xs
          (record { q = q; temp_queue = P.queue_create; flag = false; bits = bits })
          d
      → P.items (refill P (P.queue_size d.temp_queue) d.temp_queue d.q) ≡ keep a val xs
  refilled {a} {val} {xs} d h =
      let temp : P.items d.temp_queue ≡ keep a val xs =
        h.kept ∙ ap (λ (ys : List ℕ). ys ++ keep a val xs) P.items-create in
      rw (P.size_lem d.temp_queue, temp)
        (refill_lem (keep a val xs) d.temp_queue d.q temp
          ∙ ap (λ (ys : List ℕ). ys ++ keep a val xs) h.emptied)

  -- `find_elem` returns whether the queue holds the page. Under least recently used it takes the page
  -- out of the queue, else the queue keeps its pages in their order; a hit, and no miss, writes the
  -- page's bit.
  pub find_elem_lem :
      (a : ℕ) (q : P.Queue) (bits : ℕ → ℕ) (val : ℕ)
      → let r = find_elem P a q bits val in
        (r.found ≡ has val (P.items q))
        × (P.items r.queue ≡ (if a == 1 then remove val (P.items q) else P.items q))
        × (r.bits ≡ (if has val (P.items q) then mark a val bits else bits))
  unfolding find_elem
  find_elem_lem a q bits val =
      let xs = P.items q in
      let start : Scan P = record {
        q = q;
        temp_queue = P.queue_create;
        flag = false;
        bits = bits;
      } in
      let r = scan P (P.queue_size q) a val start in
      let done : Scanned a val xs start r = rw (P.size_lem q) (scan_lem a val xs start refl) in
      (done.flagged ∙ or-false (has val xs), refilled r done, done.marked)
    where
      or-false : (b : Bool) → (b || false) ≡ b
      or-false true = refl
      or-false false = refl

-- ===== src/Pager/Frequency.antt =====
-- Least frequently used: the queue is ordered by use, and a full queue loses a least used page.
use mathlib.Core.List.{append_assoc, append-nil}
use cse130_git.Prelude.{
  update, ℕ, ◌+◌, ◌*◌, ◌^◌, ◌≤◌, ◌<◌, ◌≡◌, refl, sym, ap, ◌∙◌, some, List, [], ◌∷◌, ◌++◌, map, Bool,
  true, false, ◌||◌, ltb, leb, ◌==◌, ==_refl, if◌then◌else◌, length, head?, tail, All, Ascending,
  SameItems, count, nonpos, arith,
}
use cse130_git.Queue.{QueueLib}
use cse130_git.Pager.State.{FreqPage, Pager}
use cse130_git.Pager.Search.{ScanFreq, used, visit_freq, scan_freq, refill_freq, find_elem_freq}
use cse130_git.Pager.Request.{sort_freq, print_sorted, load_freq, end_freq}

-- The order of the queue: by use, and by the last use among equals.
abbrev pub rank : FreqPage → ℕ
rank v = v.uses * 2 ^ 31 + v.last

abbrev pub FitsInt : FreqPage → Type 0
FitsInt v = (v.uses < 2 ^ 31) × (v.last < 2 ^ 31)

sort_freq-ranked :
    (a b : FreqPage) → FitsInt a → FitsInt b → nonpos (sort_freq a b) ≡ leb (rank a) (rank b)
unfolding sort_freq
sort_freq-ranked a b ha hb = ground arith

-- The entry of `val` is marked as used.
abbrev pub touch : ℕ → ℕ → FreqPage → FreqPage
touch step val v = if v.page == val then used step v else v

abbrev pub has_page : ℕ → List FreqPage → Bool
has_page val [] = false
has_page val (v ∷ vs) = v.page == val || has_page val vs

module _ (F : QueueLib FreqPage) where
  nonempty :
      (q : F.Queue) {x : FreqPage} {xs : List FreqPage}
      → F.items q ≡ x ∷ xs
      → ltb 0 (F.queue_size q) ≡ true
  nonempty q e = ground (arith, F.size_lem q)

  refill_freq_lem :
      (xs : List FreqPage) (temp q : F.Queue)
      → F.items temp ≡ xs
      → (q' : F.Queue) × (refill_freq F (length xs) temp q ≡ some q')
        × (F.items q' ≡ F.items q ++ xs)
  unfolding refill_freq
  refill_freq_lem [] temp q e = (q, refl, sym (append-nil (F.items q)))
  refill_freq_lem (x ∷ xs) temp q e =
      let front : (F.queue_dequeue temp).0 ≡ some x = F.dequeue-head temp ∙ ap head? e in
      let (q', r, e') =
        refill_freq_lem xs (F.queue_dequeue temp).1 (F.queue_enqueue q x)
          (F.items-dequeue temp ∙ ap tail e) in
      (
        q',
        rw (nonempty temp e, refill_freq, front) r,
        e'
            ∙ (ap (λ (ys : List FreqPage). ys ++ xs) (F.items-enqueue q x)
                ∙ append_assoc (F.items q) (x ∷ []) xs),
      )

  module _ (step val : ℕ) (xs : List FreqPage) (s : ScanFreq F) (x : FreqPage) (q : F.Queue) where
    visit-kept :
        F.items (visit_freq F step val s x q).temp_queue ++ map (touch step val) xs
        ≡ F.items s.temp_queue ++ map (touch step val) (x ∷ xs)
    visit-kept = ground (
      arith,
      F.items-enqueue s.temp_queue x,
      F.items-enqueue s.temp_queue (used step x),
      append_assoc (F.items s.temp_queue) (x ∷ []) (map (touch step val) xs),
      append_assoc (F.items s.temp_queue) (used step x ∷ []) (map (touch step val) xs),
    )

    visit-flag :
        (has_page val xs || (visit_freq F step val s x q).flag) ≡ (has_page val (x ∷ xs) || s.flag)
    visit-flag = ground arith

  visit-rest :
      (step val : ℕ) (s : ScanFreq F) (x : FreqPage) (q : F.Queue)
      → F.items (visit_freq F step val s x q).q ≡ F.items q
  visit-rest step val s x q = ground arith

  scan_freq_lem :
      (step val : ℕ) (xs : List FreqPage) (s : ScanFreq F)
      → F.items s.q ≡ xs
      → (r : ScanFreq F) × (scan_freq F (length xs) step val s ≡ some r)
        × (F.items r.q ≡ [])
        × (F.items r.temp_queue ≡ F.items s.temp_queue ++ map (touch step val) xs)
        × (r.flag ≡ (has_page val xs || s.flag))
  unfolding scan_freq
  scan_freq_lem step val [] s e = (s, refl, e, sym (append-nil (F.items s.temp_queue)), refl)
  scan_freq_lem step val (x ∷ xs) s e =
      let front : (F.queue_dequeue s.q).0 ≡ some x = F.dequeue-head s.q ∙ ap head? e in
      let next = visit_freq F step val s x (F.queue_dequeue s.q).1 in
      let (r, run, empty, kept, flag) =
        scan_freq_lem step val xs next
          (visit-rest step val s x (F.queue_dequeue s.q).1 ∙ (F.items-dequeue s.q ∙ ap tail e)) in
      (
        r,
        rw (nonempty s.q e, scan_freq, front) run,
        empty,
        kept ∙ visit-kept step val xs s x (F.queue_dequeue s.q).1,
        flag ∙ visit-flag step val xs s x (F.queue_dequeue s.q).1,
      )

  -- `find_elem_freq` returns whether the queue holds the page, and marks its entry as used.
  pub find_elem_freq_lem :
      (step : ℕ) (q : F.Queue) (val : ℕ)
      → (q' : F.Queue) × (find_elem_freq F step q val ≡ some (has_page val (F.items q), q'))
        × (F.items q' ≡ map (touch step val) (F.items q))
  unfolding find_elem_freq
  find_elem_freq_lem step q val =
      let start : ScanFreq F = record { q = q; temp_queue = F.queue_create; flag = false } in
      let (r, run, empty, kept, flag) = scan_freq_lem step val (F.items q) start refl in
      let temp : F.items r.temp_queue ≡ map (touch step val) (F.items q) =
        kept ∙ ap (λ (ys : List FreqPage). ys ++ map (touch step val) (F.items q)) F.items-create in
      let (q', back, e) = refill_freq_lem (F.items r.temp_queue) r.temp_queue r.q refl in
      (
        q',
        rw (F.size_lem q, find_elem_freq, run, F.size_lem r.temp_queue, back)
            (ap (λ b. some (b, q')) (flag ∙ or-false (has_page val (F.items q)))),
        e ∙ (ap (λ (ys : List FreqPage). ys ++ F.items r.temp_queue) empty ∙ temp),
      )
    where
      or-false : (b : Bool) → (b || false) ≡ b
      or-false true = refl
      or-false false = refl

  print_sorted_lem :
      (q : F.Queue) → (q' : F.Queue) × (print_sorted F q ≡ some q') × (F.items q' ≡ F.items q)
  unfolding print_sorted
  print_sorted_lem q =
      let (t, out, e) = refill_freq_lem (F.items q) q F.queue_create refl in
      let (q', back, e') = refill_freq_lem (F.items t) t F.queue_create refl in
      (
        q',
        rw (F.size_lem q, print_sorted, out, F.size_lem t, back),
        e'
            ∙ (ap (λ (ys : List FreqPage). ys ++ F.items t) F.items-create
                ∙ (e ∙ ap (λ (ys : List FreqPage). ys ++ F.items q) F.items-create)),
      )

module _ (P : QueueLib ℕ) (F : QueueLib FreqPage) where
  abbrev pub entries : Pager P F → List FreqPage
  entries p = F.items p.freq_queue

  -- `end_freq` sorts.
  pub end_freq_lem :
      (p : Pager P F)
      → All FitsInt (entries p)
      → (q : F.Queue) × (end_freq P F p ≡ some (record p { freq_queue = q }))
        × SameItems (F.items q) (entries p)
        × Ascending rank (F.items q)
  unfolding end_freq
  end_freq_lem p fit =
      let sorted = F.queue_sort p.freq_queue sort_freq in
      let (q, out, e) = print_sorted_lem F sorted in
      (
        q,
        rw (end_freq, out),
        λ t. ap (count t) e ∙ F.sort-SameItems p.freq_queue sort_freq t,
        rw e (F.sort-Ascending p.freq_queue sort_freq rank FitsInt sort_freq-ranked fit),
      )

  pub load_freq_evicts_least :
      (p : Pager P F) (page : ℕ)
      → 0 < p.max_size
      → length (entries p) ≡ p.max_size
      → Ascending rank (entries p)
      → (p' : Pager P F) × (t : FreqPage) × (rest : List FreqPage) × (load_freq P F p page
          ≡ some p')
        × (entries p ≡ t ∷ rest)
        × (entries p' ≡ rest ++ record { uses = p.freq_list page; page = page; last = p.step } ∷ [])
        × All (λ (v : FreqPage). rank t ≤ rank v) rest
        × (p'.freq_list t.page ≡ 0)
        × (p'.fetched ≡ page ∷ p.fetched)
  unfolding load_freq
  load_freq_evicts_least p page pos full asc = go (entries p) refl full asc
    where
      new : FreqPage
      new = record { uses = p.freq_list page; page = page; last = p.step }

      go :
          (xs : List FreqPage)
          → entries p ≡ xs
          → length xs ≡ p.max_size
          → Ascending rank xs
          → (p' : Pager P F) × (t : FreqPage) × (rest : List FreqPage) × (load_freq P F p page
              ≡ some p')
            × (xs ≡ t ∷ rest)
            × (entries p' ≡ rest ++ new ∷ [])
            × All (λ (v : FreqPage). rank t ≤ rank v) rest
            × (p'.freq_list t.page ≡ 0)
            × (p'.fetched ≡ page ∷ p.fetched)
      go [] e size s = absurd (omega arith)
      go (t ∷ rest) e size s =
          let out = (F.queue_dequeue p.freq_queue).1 in
          (
            record p {
              fetched = page ∷ p.fetched;
              freq_list = update p.freq_list t.page 0;
              freq_queue = F.queue_enqueue out new;
            },
            t,
            rest,
            rw (is_full, load_freq, F.head_lem p.freq_queue ∙ ap head? e),
            refl,
            F.items-enqueue out new
                ∙ ap (λ (ys : List FreqPage). ys ++ new ∷ [])
                    (F.items-dequeue p.freq_queue ∙ ap tail e),
            s.0,
            rw (==_refl t.page),
            refl,
          )
        where
          is_full : (F.queue_size p.freq_queue == p.max_size) ≡ true
          is_full = ground (arith, F.size_lem p.freq_queue, ap length e)

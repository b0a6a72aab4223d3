-- ===== src/Pager/Search.antt =====
-- `find_elem` and `find_elem_freq`: the queue is emptied into a second one and filled again.
use cse130_git.Prelude.{
  update, ℕ, zero, suc, ◌+◌, ◌%◌, ◌^◌, Option, none, some, Bool, true, false, ltb, ◌==◌,
  if◌then◌else◌,
}
use cse130_git.Queue.{QueueLib}
use cse130_git.Pager.State.{FreqPage}

-- A page is kept in the queue as a pointer, so that NULL reads as page 0.
abbrev pub page_of : Option ℕ → ℕ
page_of none = 0
page_of (some v) = v

-- What a hit does to `bit_refs`, by the algorithm's value.
abbrev pub mark : ℕ → ℕ → (ℕ → ℕ) → ℕ → ℕ
mark a val bits = if a == 3 then update bits val 1 else (if a == 4 then update bits val 0 else bits)

module _ (P : QueueLib ℕ) where
  -- The variables of `find_elem`, and the array that it writes.
  pub record Scan : Type 0 where
    pub q : P.Queue
    pub temp_queue : P.Queue
    pub flag : Bool
    pub bits : ℕ → ℕ

  -- One round of the first loop, with what `queue_dequeue` returns.
  abbrev pub visit : ℕ → ℕ → Scan → Option ℕ × P.Queue → Scan
  visit a val s (o, q) =
      if page_of o == val
      then record s {
        q = q;
        temp_queue = if a == 1 then s.temp_queue else P.queue_enqueue s.temp_queue (page_of o);
        flag = true;
        bits = mark a val s.bits;
      }
      else record s { q = q; temp_queue = P.queue_enqueue s.temp_queue (page_of o) }

  -- `while (queue_size (q) > 0)`, with fuel.
  unfoldable pub scan : ℕ → ℕ → ℕ → Scan → Scan
  scan zero a val s = s
  scan (suc n) a val s = elim (ltb 0 (P.queue_size s.q)) [
    | true ↦ scan n a val (visit a val s (P.queue_dequeue s.q))
    | false ↦ s
  ]

  -- The second loop: back from the temporary queue.
  unfoldable pub refill : ℕ → P.Queue → P.Queue → P.Queue
  refill zero temp q = q
  refill (suc n) temp q = elim (ltb 0 (P.queue_size temp)) [
    | true ↦
        refill n (P.queue_dequeue temp).1 (P.queue_enqueue q (page_of (P.queue_dequeue temp).0))
    | false ↦ q
  ]

  -- The result, the queue, and the array.
  pub record Found : Type 0 where
    pub found : Bool
    pub queue : P.Queue
    pub bits : ℕ → ℕ

  unfoldable pub find_elem : ℕ → P.Queue → (ℕ → ℕ) → ℕ → Found
  find_elem a q bits val =
      let start : Scan = record { q = q; temp_queue = P.queue_create; flag = false; bits = bits } in
      let done = scan (P.queue_size q) a val start in
      record {
        found = done.flag;
        queue = refill (P.queue_size done.temp_queue) done.temp_queue done.q;
        bits = done.bits;
      }

-- `v->uses += 1; v->last = step;`
abbrev pub used : ℕ → FreqPage → FreqPage
used step v = record v { uses = (v.uses + 1) % 2 ^ 32; last = step }

module _ (F : QueueLib FreqPage) where
  pub record ScanFreq : Type 0 where
    pub q : F.Queue
    pub temp_queue : F.Queue
    pub flag : Bool

  -- A NULL from `queue_dequeue` is followed: a fault, which the test of the size rules out.
  abbrev pub visit_freq : ℕ → ℕ → ScanFreq → FreqPage → F.Queue → ScanFreq
  visit_freq step val s v q =
      if v.page == val
      then record s { q = q; temp_queue = F.queue_enqueue s.temp_queue (used step v); flag = true }
      else record s { q = q; temp_queue = F.queue_enqueue s.temp_queue v }

  unfoldable pub scan_freq : ℕ → ℕ → ℕ → ScanFreq → Option ScanFreq
  scan_freq zero step val s = some s
  scan_freq (suc n) step val s = elim (ltb 0 (F.queue_size s.q)) [
    | true ↦ elim (F.queue_dequeue s.q).0 [
      | none ↦ none
      | some v ↦ scan_freq n step val (visit_freq step val s v (F.queue_dequeue s.q).1)
    ]
    | false ↦ some s
  ]

  unfoldable pub refill_freq : ℕ → F.Queue → F.Queue → Option F.Queue
  refill_freq zero temp q = some q
  refill_freq (suc n) temp q = elim (ltb 0 (F.queue_size temp)) [
    | true ↦ elim (F.queue_dequeue temp).0 [
      | none ↦ none
      | some v ↦ refill_freq n (F.queue_dequeue temp).1 (F.queue_enqueue q v)
    ]
    | false ↦ some q
  ]

  unfoldable pub find_elem_freq : ℕ → F.Queue → ℕ → Option (Bool × F.Queue)
  find_elem_freq step q val =
      let start : ScanFreq = record { q = q; temp_queue = F.queue_create; flag = false } in
      elim (scan_freq (F.queue_size q) step val start) [
        | none ↦ none
        | some done ↦ elim (refill_freq (F.queue_size done.temp_queue) done.temp_queue done.q) [
          | none ↦ none
          | some q' ↦ some (done.flag, q')
        ]
      ]

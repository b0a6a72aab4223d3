-- ===== src/Pager/Request.antt =====
-- `pager_request` and what it calls. `none` is a fault, or a loop that does not end in its fuel.
use cse130_git.Prelude.{
  update, ℕ, zero, suc, ◌+◌, ◌%◌, ◌^◌, Option, none, some, List, [], ◌∷◌, true, false, ◌&&◌, leb,
  ◌==◌, if◌then◌else◌, ℤ, int_of_u32, sub_u32,
}
use cse130_git.Queue.{QueueLib}
use cse130_git.Pager.State.{code, FreqPage, Pager, array_len, uses_array}
use cse130_git.Pager.Search.{page_of, find_elem, find_elem_freq, refill_freq}

-- The comparator of the least frequently used queue: by use, then by the time of the last use.
unfoldable pub sort_freq : FreqPage → FreqPage → ℤ
sort_freq a b =
    let x = sub_u32 a.uses b.uses in
    if x == 0 then int_of_u32 (sub_u32 a.last b.last) else int_of_u32 x

module _ (P : QueueLib ℕ) where
  -- The loop of second chance (`ref` is 1, `clear` 0) and of the circular queue (0 and 1): pages
  -- with the bit `ref` go to the tail, with the bit changed, until one has another bit.
  unfoldable pub spin : ℕ → ℕ → ℕ → ℕ → P.Queue → (ℕ → ℕ) → Option (P.Queue × (ℕ → ℕ))
  spin zero ref clear temp q bits = none
  spin (suc n) ref clear temp q bits = elim (bits temp == ref) [
    | true ↦
        let next = P.queue_dequeue (P.queue_enqueue q temp) in
        spin n ref clear (page_of next.0) next.1 (update bits temp clear)
    | false ↦ some (q, bits)
  ]

  -- One look at each page in the queue, and a second one at the first.
  unfoldable pub replace : ℕ → ℕ → P.Queue → (ℕ → ℕ) → Option (P.Queue × (ℕ → ℕ))
  replace ref clear q bits =
      let next = P.queue_dequeue q in
      spin (P.queue_size q + 2) ref clear (page_of next.0) next.1 bits

  -- The page is not in the queue, and the queue is full.
  unfoldable pub evict : ℕ → P.Queue → (ℕ → ℕ) → Option (P.Queue × (ℕ → ℕ))
  evict a q bits =
      let second = replace 1 0 q bits in
      let circular = replace 0 1 q bits in
      if a == 3 then second else (if a == 4 then circular else some ((P.queue_dequeue q).1, bits))

module _ (F : QueueLib FreqPage) where
  -- `print_sorted`: the queue is emptied into a second one and filled again (the lines that it
  -- prints are left out).
  unfoldable pub print_sorted : F.Queue → Option F.Queue
  print_sorted q = elim (refill_freq F (F.queue_size q) q F.queue_create) [
    | none ↦ none
    | some temp ↦ refill_freq F (F.queue_size temp) temp F.queue_create
  ]

module _ (P : QueueLib ℕ) (F : QueueLib FreqPage) where
  -- The page is fetched, and put into a free frame or in the place of another page.
  unfoldable pub load : Pager P F → ℕ → Option (Pager P F)
  load p page =
      let p' : Pager P F = record p { fetched = page ∷ p.fetched } in
      if P.queue_size p.queue == p.max_size
      then elim (evict P (code p.alg) p.queue p.bit_refs) [
        | none ↦ none
        | some (q, bits) ↦ some (record p' { queue = P.queue_enqueue q page; bit_refs = bits })
      ]
      else some (record p' { queue = P.queue_enqueue p.queue page })

  -- The branch of all algorithms but least frequently used.
  unfoldable pub request_page : Pager P F → ℕ → Option (Pager P F)
  request_page p page =
      let bits = if code p.alg == 4 then update p.bit_refs page 0 else p.bit_refs in
      let r = find_elem P (code p.alg) p.queue bits page in
      let p' : Pager P F = record p { queue = r.queue; bit_refs = r.bits } in
      if r.found
      then (if code p.alg == 1
          then some (record p' { queue = P.queue_enqueue p'.queue page })
          else some p')
      else load p' page

  -- Least frequently used: a full queue loses its head, which the last sort put there.
  unfoldable pub load_freq : Pager P F → ℕ → Option (Pager P F)
  load_freq p page =
      let new : FreqPage = record { uses = p.freq_list page; page = page; last = p.step } in
      let p' : Pager P F = record p { fetched = page ∷ p.fetched } in
      if F.queue_size p.freq_queue == p.max_size
      then elim (F.queue_head p.freq_queue) [
        | none ↦ none
        | some t ↦ some (record p' {
          freq_list = update p.freq_list t.page 0;
          freq_queue = F.queue_enqueue (F.queue_dequeue p.freq_queue).1 new;
        })
      ]
      else some (record p' { freq_queue = F.queue_enqueue p.freq_queue new })

  unfoldable pub end_freq : Pager P F → Option (Pager P F)
  end_freq p = elim (print_sorted F (F.queue_sort p.freq_queue sort_freq)) [
    | none ↦ none
    | some q ↦ some (record p { freq_queue = q })
  ]

  unfoldable pub request_freq : Pager P F → ℕ → Option (Pager P F)
  request_freq p page =
      let counts = update p.freq_list page ((p.freq_list page + 1) % 2 ^ 32) in
      elim (find_elem_freq F p.step p.freq_queue page) [
        | none ↦ none
        | some (found, q) ↦
            let p' : Pager P F = record p { freq_list = counts; freq_queue = q } in
            elim found [
              | true ↦ end_freq p'
              | false ↦ elim (load_freq p' page) [ none ↦ none | some p'' ↦ end_freq p'' ]
            ]
      ]

  -- A page that is no index of the arrays is a fault where an array is used.
  unfoldable pub pager_request : Pager P F → ℕ → Option (Pager P F)
  pager_request p page =
      if uses_array p.alg && leb array_len page
      then none
      else elim (if code p.alg == 2 then request_freq p page else request_page p page) [
        | none ↦ none
        | some p' ↦ some (record p' { step = p'.step + 1 })
      ]

  -- A sequence of requests.
  unfoldable pub run : List ℕ → Pager P F → Option (Pager P F)
  run [] p = some p
  run (page ∷ rest) p = elim (pager_request p page) [ none ↦ none | some p' ↦ run rest p' ]

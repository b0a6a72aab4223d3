-- ===== src/Pager/History.antt =====
-- First in first out and least recently used against the history of requests.
use mathlib.Core.List.{reverse, append-nil}
use cse130_git.Prelude.{
  update, ℕ, zero, suc, ◌≤◌, ◌≡◌, refl, sym, ap, ◌∙◌, inl, inr, some, Option-cases, List, [], ◌∷◌,
  ◌++◌, true, false, ◌==◌, if◌then◌else◌, length, tail, take, length-take, take-all, take-take-suc,
  reverse-snoc, reverse-cons, length-reverse, reverse-tail, arith, Bool-cases,
}
use cse130_git.Queue.{QueueLib}
use cse130_git.Pager.State.{Algorithm, code, FreqPage, Pager, pager_init}
use cse130_git.Pager.Search.{find_elem}
use cse130_git.Pager.Request.{evict, load, request_page, pager_request, run}
use cse130_git.Pager.Pages.{
  has, remove, Distinct, has-remove_self, Distinct-remove, remove-absent, has-append,
}
use cse130_git.Pager.Finding.{find_elem_lem}

-- The pages of a history (the newest first), each at its newest place.
abbrev pub recent : List ℕ → List ℕ
recent [] = []
recent (x ∷ h) = x ∷ remove x (recent h)

Distinct-recent : (h : List ℕ) → Distinct (recent h)
Distinct-recent [] = tt
Distinct-recent (x ∷ h) =
    (has-remove_self x (recent h), Distinct-remove x (recent h) (Distinct-recent h))

has-take : (n v : ℕ) (xs : List ℕ) → has v xs ≡ false → has v (take n xs) ≡ false
has-take zero v xs h = refl
has-take (suc n) v [] h = refl
has-take (suc n) v (x ∷ xs) h = ground (arith, has-take n v xs)

take-remove_head :
    (n v : ℕ) (xs : List ℕ) → has v xs ≡ false → take n (remove v xs) ≡ remove v (take n xs)
take-remove_head n v xs h =
    ap (take n) (remove-absent v xs h) ∙ sym (remove-absent v (take n xs) (has-take n v xs h))

take-remove_hit :
    (n v : ℕ) (xs : List ℕ)
    → Distinct xs
    → has v (take (suc n) xs) ≡ true
    → take n (remove v xs) ≡ remove v (take (suc n) xs)
take-remove_hit n v [] d h = absurd (ground arith)
take-remove_hit zero v (x ∷ xs) d h = ground (arith, take-remove_head 0 v xs)
take-remove_hit (suc n) v (x ∷ xs) d h = elim (Bool-cases (x == v)) [
  | inl e ↦
      let absent : has v xs ≡ false = ground (arith, d.0) in
      rw e (take-remove_head (suc n) v xs absent)
  | inr e ↦ rw e (ap (◌∷◌ x) (take-remove_hit n v xs d.1 (ground arith)))
]

take-remove_miss :
    (n v : ℕ) (xs : List ℕ) → has v (take n xs) ≡ false → take n (remove v xs) ≡ take n xs
take-remove_miss zero v xs h = refl
take-remove_miss (suc n) v [] h = refl
take-remove_miss (suc n) v (x ∷ xs) h = ground (arith, take-remove_miss n v xs)

has-reverse : (v : ℕ) (xs : List ℕ) → has v (reverse xs) ≡ has v xs
has-reverse v [] = refl
has-reverse v (x ∷ xs) =
    ground
      (arith, ap (has v) (reverse-cons x xs), has-append v (reverse xs) (x ∷ []), has-reverse v xs)

remove-append : (v : ℕ) (xs ys : List ℕ) → remove v (xs ++ ys) ≡ remove v xs ++ remove v ys
remove-append v [] ys = refl
remove-append v (x ∷ xs) ys = ground (arith, remove-append v xs ys)

remove-reverse : (v : ℕ) (xs : List ℕ) → reverse (remove v xs) ≡ remove v (reverse xs)
remove-reverse v [] = refl
remove-reverse v (x ∷ xs) = ground (
  arith,
  reverse-cons x (remove v xs),
  ap (remove v) (reverse-cons x xs),
  remove-append v (reverse xs) (x ∷ []),
  remove-reverse v xs,
  append-nil (remove v (reverse xs)),
)

-- One request under least recently used, on the pages from the oldest use to the newest.
abbrev pub lru_step : ℕ → List ℕ → ℕ → List ℕ
lru_step k xs page =
    if has page xs
    then remove page xs ++ page ∷ []
    else (if length xs == k then tail xs ++ page ∷ [] else xs ++ page ∷ [])

-- One request under first in first out.
abbrev pub fifo_step : ℕ → List ℕ → ℕ → List ℕ
fifo_step k xs page =
    if has page xs then xs else (if length xs == k then tail xs ++ page ∷ [] else xs ++ page ∷ [])

-- A step takes the most recent pages to the most recent pages.
lru_step-recent :
    (k page : ℕ) (xs h : List ℕ)
    → reverse xs ≡ take (suc k) (recent h)
    → reverse (lru_step (suc k) xs page) ≡ take (suc k) (recent (page ∷ h))
lru_step-recent k page xs h e = elim (Bool-cases (has page xs)) [
  | inl hit ↦ rw hit (
      reverse-snoc (remove page xs) page
      ∙ ap (◌∷◌ page) (
          remove-reverse page xs
          ∙ (ap (remove page) e
              ∙ sym (take-remove_hit k page (recent h) (Distinct-recent h) (seen ∙ hit)))))
  | inr miss ↦ elim (Bool-cases (length xs == suc k)) [
    | inl full ↦
        rw (miss, full)
          (reverse-snoc (tail xs) page
            ∙ ap (◌∷◌ page) (
                reverse-tail xs k (ground arith)
                ∙ (ap (take k) e
                    ∙ (take-take-suc k (recent h)
                        ∙ sym (
                            take-remove_miss k page (recent h) (
                              sym (ap (has page) (take-take-suc k (recent h)))
                              ∙ has-take k page (take (suc k) (recent h)) (seen ∙ miss)))))))
    | inr room ↦
        let short : length (recent h) ≤ k =
          ground (arith, size, length-take (suc k) (recent h), length-reverse xs) in
        let whole : reverse xs ≡ recent h = e ∙ take-all (suc k) (recent h) (omega arith) in
        let absent : has page (recent h) ≡ false =
          sym (ap (has page) whole) ∙ (has-reverse page xs ∙ miss) in
        rw (miss, room)
          (reverse-snoc xs page
            ∙ ap (◌∷◌ page) (
                whole
                ∙ sym (
                    ap (take k) (remove-absent page (recent h) absent)
                    ∙ take-all k (recent h) short)))
  ]
]
  where
    seen : has page (take (suc k) (recent h)) ≡ has page xs
    seen = sym (ap (has page) e) ∙ has-reverse page xs

    size : length (reverse xs) ≡ length (take (suc k) (recent h))
    size = ap length e

fifo_step-recent :
    (k page : ℕ) (xs log : List ℕ)
    → reverse xs ≡ take (suc k) log
    → reverse (fifo_step (suc k) xs page) ≡ take (suc k) (if has page xs then log else page ∷ log)
fifo_step-recent k page xs log e = elim (Bool-cases (has page xs)) [
  | inl hit ↦ rw hit e
  | inr miss ↦ elim (Bool-cases (length xs == suc k)) [
    | inl full ↦
        rw (miss, full)
          (reverse-snoc (tail xs) page
            ∙ ap (◌∷◌ page)
                (reverse-tail xs k (ground arith) ∙ (ap (take k) e ∙ take-take-suc k log)))
    | inr room ↦
        let short : length log ≤ k =
          ground (arith, size, length-take (suc k) log, length-reverse xs) in
        rw (miss, room)
          (reverse-snoc xs page
            ∙ ap (◌∷◌ page) (e ∙ (take-all (suc k) log (omega arith) ∙ sym (take-all k log short))))
  ]
]
  where
    size : length (reverse xs) ≡ length (take (suc k) log)
    size = ap length e

module _ (P : QueueLib ℕ) (F : QueueLib FreqPage) where
  -- `pager_request` under the two algorithms, on the pages that the queue holds.
  request-lru :
      (p p' : Pager P F) (page : ℕ)
      → p.alg ≡ Algorithm.least_recently_used
      → pager_request P F p page ≡ some p'
      → (P.items p'.queue ≡ lru_step p.max_size (P.items p.queue) page)
        × (p'.alg ≡ p.alg)
        × (p'.max_size ≡ p.max_size)
  unfolding pager_request request_page load evict
  request-lru p p' page a r =
      let bits : ℕ → ℕ = if code p.alg == 4 then update p.bit_refs page 0 else p.bit_refs in
      let q : P.Queue = (find_elem P (code p.alg) p.queue bits page).queue in
      let out : P.Queue = (P.queue_dequeue q).1 in
      ground (
        arith,
        find_elem_lem P (code p.alg) p.queue bits page,
        remove-absent page (P.items p.queue),
        P.items-enqueue q page,
        P.items-enqueue out page,
        P.items-dequeue q,
        P.size_lem q,
      )

  request-fifo :
      (p p' : Pager P F) (page : ℕ)
      → p.alg ≡ Algorithm.first_in_first_out
      → pager_request P F p page ≡ some p'
      → (P.items p'.queue ≡ fifo_step p.max_size (P.items p.queue) page)
        × (p'.fetched ≡ (if has page (P.items p.queue) then p.fetched else page ∷ p.fetched))
        × (p'.alg ≡ p.alg)
        × (p'.max_size ≡ p.max_size)
  unfolding pager_request request_page load evict
  request-fifo p p' page a r =
      let bits : ℕ → ℕ = if code p.alg == 4 then update p.bit_refs page 0 else p.bit_refs in
      let q : P.Queue = (find_elem P (code p.alg) p.queue bits page).queue in
      let out : P.Queue = (P.queue_dequeue q).1 in
      ground (
        arith,
        find_elem_lem P (code p.alg) p.queue bits page,
        remove-absent page (P.items p.queue),
        P.items-enqueue q page,
        P.items-enqueue out page,
        P.items-dequeue q,
        P.size_lem q,
      )

  -- The history after more requests, the newest first.
  abbrev pub past : List ℕ → List ℕ → List ℕ
  past [] h = h
  past (page ∷ rest) h = past rest (page ∷ h)

  run-lru :
      (k : ℕ) (pages h : List ℕ) (p p' : Pager P F)
      → p.alg ≡ Algorithm.least_recently_used
      → p.max_size ≡ suc k
      → reverse (P.items p.queue) ≡ take (suc k) (recent h)
      → run P F pages p ≡ some p'
      → reverse (P.items p'.queue) ≡ take (suc k) (recent (past pages h))
  unfolding run
  run-lru k [] h p p' a size e r =
      let same : p ≡ p' = ground arith in
      ap (λ (x : Pager P F). reverse (P.items x.queue)) (sym same) ∙ e
  run-lru k (page ∷ rest) h p p' a size e r = elim (Option-cases (pager_request P F p page)) [
    | inl stop ↦ absurd (ground arith)
    | inr (t, done) ↦
        let (pages, alg, frames) = request-lru p t page a done in
        run-lru k rest (page ∷ h) t p' (alg ∙ a) (frames ∙ size)
          (ap reverse (pages ∙ ap (λ n. lru_step n (P.items p.queue) page) size)
            ∙ lru_step-recent k page (P.items p.queue) h e)
          (ground arith)
  ]

  -- Least recently used: after any sequence of requests the pages in memory are the most recently
  -- requested distinct pages, as many as there are frames, the least recent at the queue's head.
  pub lru_keeps_recent :
      (memory : ℕ → ℕ) (k : ℕ) (pages : List ℕ) (p : Pager P F)
      → run P F pages (pager_init P F memory Algorithm.least_recently_used (suc k)) ≡ some p
      → reverse (P.items p.queue) ≡ take (suc k) (recent (past pages []))
  unfolding pager_init
  lru_keeps_recent memory k pages p r =
      run-lru k pages [] (pager_init P F memory Algorithm.least_recently_used (suc k)) p refl refl
        (ap reverse P.items-create) r

  run-fifo :
      (k : ℕ) (pages : List ℕ) (p p' : Pager P F)
      → p.alg ≡ Algorithm.first_in_first_out
      → p.max_size ≡ suc k
      → reverse (P.items p.queue) ≡ take (suc k) p.fetched
      → run P F pages p ≡ some p'
      → reverse (P.items p'.queue) ≡ take (suc k) p'.fetched
  unfolding run
  run-fifo k [] p p' a size e r =
      let same : p ≡ p' = ground arith in
      ap (λ (x : Pager P F). reverse (P.items x.queue)) (sym same)
      ∙ (e ∙ ap (λ (x : Pager P F). take (suc k) x.fetched) same)
  run-fifo k (page ∷ rest) p p' a size e r = elim (Option-cases (pager_request P F p page)) [
    | inl stop ↦ absurd (ground arith)
    | inr (t, done) ↦
        let (pages, log, alg, frames) = request-fifo p t page a done in
        run-fifo k rest t p' (alg ∙ a) (frames ∙ size)
          (ap reverse (pages ∙ ap (λ n. fifo_step n (P.items p.queue) page) size)
            ∙ (fifo_step-recent k page (P.items p.queue) p.fetched e ∙ ap (take (suc k)) (sym log)))
          (ground arith)
  ]

  -- First in first out: after any sequence of requests the pages in memory are the ones fetched
  -- last, as many as there are frames, the first of them at the queue's head.
  pub fifo_keeps_fetched :
      (memory : ℕ → ℕ) (k : ℕ) (pages : List ℕ) (p : Pager P F)
      → run P F pages (pager_init P F memory Algorithm.first_in_first_out (suc k)) ≡ some p
      → reverse (P.items p.queue) ≡ take (suc k) p.fetched
  unfolding pager_init
  fifo_keeps_fetched memory k pages p r =
      run-fifo k pages (pager_init P F memory Algorithm.first_in_first_out (suc k)) p refl refl
        (ap reverse P.items-create) r

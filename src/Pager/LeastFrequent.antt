-- ===== src/Pager/LeastFrequent.antt =====
-- A whole request under least frequently used.
use cse130_git.Prelude.{
  update, ℕ, ◌+◌, ◌%◌, ◌^◌, ◌≤◌, ◌<◌, ◌≡◌, refl, ap, ◌∙◌, inl, inr, some, List, [], ◌∷◌, ◌++◌, map,
  true, false, ◌||◌, ltb, ◌==◌, ==_refl, if◌then◌else◌, length, length-append, All, All-append,
  Ascending, SameItems, count, arith, Bool-cases,
}
use mathlib.Core.Path.{subst}
use cse130_git.Queue.{QueueLib}
use cse130_git.Pager.State.{FreqPage, Pager}
use cse130_git.Pager.Request.{load_freq, end_freq, request_freq}
use cse130_git.Pager.Frequency.{
  rank, FitsInt, touch, has_page, find_elem_freq_lem, entries, end_freq_lem, load_freq_evicts_least,
}

has_page-count :
    (val : ℕ) (xs : List FreqPage) → has_page val xs ≡ ltb 0 (count (λ v. v.page == val) xs)
has_page-count val [] = ground arith
has_page-count val (x ∷ xs) = ground (arith, has_page-count val xs)

-- Every entry is counted by the test that always holds.
count-all : (xs : List FreqPage) → count (λ v. true) xs ≡ length xs
count-all [] = refl
count-all (x ∷ xs) = omega (arith, count-all xs)

SameItems-length : (xs ys : List FreqPage) → SameItems xs ys → length xs ≡ length ys
SameItems-length xs ys h = omega (arith, h (λ v. true), count-all xs, count-all ys)

SameItems-has_page :
    (val : ℕ) (xs ys : List FreqPage) → SameItems xs ys → has_page val xs ≡ has_page val ys
SameItems-has_page val xs ys h =
    ground (arith, h (λ v. v.page == val), has_page-count val xs, has_page-count val ys)

length-touch : (step val : ℕ) (xs : List FreqPage) → length (map (touch step val) xs) ≡ length xs
length-touch step val [] = refl
length-touch step val (x ∷ xs) = omega (arith, length-touch step val xs)

has_page-touch :
    (step val w : ℕ) (xs : List FreqPage) → has_page w (map (touch step val) xs) ≡ has_page w xs
has_page-touch step val w [] = refl
has_page-touch step val w (x ∷ xs) = ground (arith, has_page-touch step val w xs)

-- Entries that stay in the range of an `int` when they are used once more.
abbrev pub HasRoom : FreqPage → Type 0
HasRoom v = (v.uses + 1 < 2 ^ 31) × (v.last < 2 ^ 31)

FitsInt-touch :
    (step val : ℕ) (xs : List FreqPage)
    → step < 2 ^ 31
    → All HasRoom xs
    → All FitsInt (map (touch step val) xs)
FitsInt-touch step val [] h hs = tt
FitsInt-touch step val (x ∷ xs) h hs = (fits, FitsInt-touch step val xs h hs.1)
  where
    fits : FitsInt (touch step val x)
    fits = elim (Bool-cases (x.page == val)) [
      | inl e ↦ rw e (ground (arith, hs.0), h)
      | inr e ↦ rw e (ground (arith, hs.0), ground (arith, hs.0))
    ]

touch-miss :
    (step val : ℕ) (xs : List FreqPage) → has_page val xs ≡ false → map (touch step val) xs ≡ xs
touch-miss step val [] e = refl
touch-miss step val (x ∷ xs) e = ground (arith, touch-miss step val xs)

has_page-append :
    (w : ℕ) (xs ys : List FreqPage) → has_page w (xs ++ ys) ≡ (has_page w xs || has_page w ys)
has_page-append w [] ys = refl
has_page-append w (x ∷ xs) ys = ground (arith, has_page-append w xs ys)

module _ (P : QueueLib ℕ) (F : QueueLib FreqPage) where
  -- What holds after a request for `page`.
  pub record Counted (p : Pager P F) (page : ℕ) (p' : Pager P F) : Type 0 where
    pub ordered : Ascending rank (entries P F p')
    pub fits : length (entries P F p') ≤ p.max_size
    pub present : has_page page (entries P F p') ≡ true
    pub fetches :
        p'.fetched ≡ (if has_page page (entries P F p) then p.fetched else page ∷ p.fetched)

  -- The end of a request: the entries are sorted.
  sorted_end :
      (p p₁ : Pager P F) (page : ℕ)
      → All FitsInt (entries P F p₁)
      → length (entries P F p₁) ≤ p.max_size
      → has_page page (entries P F p₁) ≡ true
      → p₁.fetched ≡ (if has_page page (entries P F p) then p.fetched else page ∷ p.fetched)
      → (p' : Pager P F) × (end_freq P F p₁ ≡ some p') × Counted p page p'
  sorted_end p p₁ page fit room here log =
      let (q, e, same, asc) = end_freq_lem P F p₁ fit in
      (
        record p₁ { freq_queue = q },
        e,
        record {
          ordered = asc;
          fits = omega (arith, SameItems-length (F.items q) (entries P F p₁) same);
          present = SameItems-has_page page (F.items q) (entries P F p₁) same ∙ here;
          fetches = log;
        },
      )

  load_freq_room :
      (p : Pager P F) (page : ℕ)
      → 0 < p.max_size
      → length (entries P F p) ≤ p.max_size
      → Ascending rank (entries P F p)
      → All FitsInt (entries P F p)
      → FitsInt (record { uses = p.freq_list page; page = page; last = p.step })
      → (p' : Pager P F) × (load_freq P F p page ≡ some p')
        × All FitsInt (entries P F p')
        × (length (entries P F p') ≤ p.max_size)
        × (has_page page (entries P F p') ≡ true)
        × (p'.fetched ≡ page ∷ p.fetched)
  unfolding load_freq
  load_freq_room p page pos size asc fit new_fits =
      elim (Bool-cases (F.queue_size p.freq_queue == p.max_size)) [
        | inl full ↦
            let (p', t, rest, e, split, left, least, forgot, log) =
              load_freq_evicts_least P F p page pos (ground (arith, F.size_lem p.freq_queue)) asc in
            let fit' : All FitsInt (t ∷ rest) = subst (All FitsInt) split fit in
            (
              p',
              e,
              rw left (All-append FitsInt rest (new ∷ []) fit'.1 (new_fits, tt)),
              omega (arith, ap length left, ap length split, length-append rest (new ∷ [])),
              ap (has_page page) left
                  ∙ ground (arith, has_page-append page rest (new ∷ []), ==_refl page),
              log,
            )
        | inr room ↦
            let after = F.items-enqueue p.freq_queue new in
            (
              record p {
                fetched = page ∷ p.fetched;
                freq_queue = F.queue_enqueue p.freq_queue new;
              },
              rw (room, load_freq),
              rw after (All-append FitsInt (entries P F p) (new ∷ []) fit (new_fits, tt)),
              ground (
                arith,
                ap length after,
                F.size_lem p.freq_queue,
                length-append (entries P F p) (new ∷ []),
              ),
              ap (has_page page) after
                  ∙ ground (arith, has_page-append page (entries P F p) (new ∷ []), ==_refl page),
              refl,
            )
      ]
    where
      new : FreqPage
      new = record { uses = p.freq_list page; page = page; last = p.step }

  -- Under least frequently used, with frames and counters that stay in the range of an `int`, a
  -- request returns: the entries are in the order of use, at most one for each frame, the page is
  -- among them, and it is fetched exactly when it was not.
  pub request_freq_serves :
      (p : Pager P F) (page : ℕ)
      → 0 < p.max_size
      → length (entries P F p) ≤ p.max_size
      → Ascending rank (entries P F p)
      → All HasRoom (entries P F p)
      → p.freq_list page + 1 < 2 ^ 31
      → p.step < 2 ^ 31
      → (p' : Pager P F) × (request_freq P F p page ≡ some p') × Counted p page p'
  unfolding request_freq
  request_freq_serves p page pos size asc room uses step =
      let counts = update p.freq_list page ((p.freq_list page + 1) % 2 ^ 32) in
      let (q, found, e) = find_elem_freq_lem F p.step p.freq_queue page in
      let p₁ : Pager P F = record p { freq_list = counts; freq_queue = q } in
      let fit : All FitsInt (entries P F p₁) =
        rw e (FitsInt-touch p.step page (entries P F p) step room) in
      let fits : length (entries P F p₁) ≤ p.max_size =
        omega (arith, ap length e, length-touch p.step page (entries P F p)) in
      elim (Bool-cases (has_page page (entries P F p))) [
        | inl hit ↦
            let (p', r, c) =
              sorted_end p p₁ page fit fits
                (ap (has_page page) e ∙ (has_page-touch p.step page page (entries P F p) ∙ hit))
                (rw hit) in
            (p', rw (found ∙ ap (λ b. some (b, q)) hit, request_freq) r, c)
        | inr miss ↦
            let same : entries P F p₁ ≡ entries P F p =
              e ∙ touch-miss p.step page (entries P F p) miss in
            let (p₂, loaded, fit₂, size₂, here, log) =
              load_freq_room p₁ page pos fits (rw same asc) fit
                (ground (arith, ==_refl page), step) in
            let (p', r, c) = sorted_end p p₂ page fit₂ size₂ here (rw miss log) in
            (p', rw (found ∙ ap (λ b. some (b, q)) miss, request_freq, loaded) r, c)
      ]

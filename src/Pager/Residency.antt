-- ===== src/Pager/Residency.antt =====
-- Which pages are in memory after a request, under all algorithms but least frequently used.
use cse130_git.Prelude.{
  update, ℕ, ◌+◌, ◌≤◌, ◌<◌, ◌≡◌, ◌≢◌, refl, sym, ap, ◌∙◌, inl, inr, some, List, [], ◌∷◌, ◌++◌, true,
  false, not, ◌&&◌, leb, ◌==◌, ==_refl, if◌then◌else◌, length, length-append, count-append, tail,
  arith, Bool-cases, All,
}
use cse130_git.Queue.{QueueLib}
use cse130_git.Pager.State.{Algorithm, code, FreqPage, Pager, array_len, uses_array, pager_init}
use cse130_git.Pager.Search.{find_elem}
use cse130_git.Pager.Request.{evict, load, request_page, pager_request, run}
use cse130_git.Pager.Pages.{
  has, remove, Distinct, has-append, has-remove, has-remove_self, Distinct-remove, Distinct-snoc,
  length-remove, times, times-le_one, Distinct-of_times, remove-absent,
}
use cse130_git.Pager.Finding.{find_elem_lem}
use cse130_git.Pager.Clock.{Turn, first_other, full_turn, clear_all, replace_turns}

-- One page has left, and no page has come.
record Evicted (xs ys : List ℕ) : Type 0 where
  fewer : length ys + 1 ≡ length xs
  subset : (w : ℕ) → (has w ys && not (has w xs)) ≡ false
  distinct : Distinct ys

Turn-Evicted :
    {ref : ℕ} {bits : ℕ → ℕ} {xs ys cleared : List ℕ}
    → Turn ref bits xs ys cleared
    → Distinct xs
    → Evicted xs ys
Turn-Evicted {xs} {ys} {cleared} (first_other v post ex h m ey) d = record {
  fewer = omega (
    arith,
    ap length ex,
    ap length ey,
    length-append cleared (v ∷ post),
    length-append post cleared,
  );
  subset = λ w. ground (
    arith,
    ap (has w) ex,
    ap (has w) ey,
    has-append w cleared (v ∷ post),
    has-append w post cleared,
  );
  distinct = Distinct-of_times ys (λ w. omega (
    arith,
    times-le_one w xs d,
    ap (times w) ex,
    ap (times w) ey,
    count-append (λ x. x == w) cleared (v ∷ post),
    count-append (λ x. x == w) post cleared,
  ));
}
Turn-Evicted {xs} {ys} {cleared} (full_turn x ex h e) d = record {
  fewer = omega (arith, ap length ex);
  subset = λ w. ground (arith, ap (has w) ex);
  distinct = Distinct-of_times ys (λ w. omega (arith, times-le_one w xs d, ap (times w) ex));
}

tail-Evicted : (xs : List ℕ) → xs ≢ [] → Distinct xs → Evicted xs (tail xs)
tail-Evicted [] h d = absurd (h refl)
tail-Evicted (x ∷ xs) h d = record {
  fewer = omega arith;
  subset = λ w. ground arith;
  distinct = d.1;
}

module _ (P : QueueLib ℕ) where
  -- Every replacement algorithm that works on pages ends and frees one frame.
  evict_returns :
      (a : ℕ) (q : P.Queue) (bits : ℕ → ℕ)
      → Distinct (P.items q)
      → P.items q ≢ []
      → (q' : P.Queue) × (bits' : ℕ → ℕ) × (evict P a q bits ≡ some (q', bits'))
        × Evicted (P.items q) (P.items q')
  unfolding evict
  evict_returns a q bits d full = elim (Bool-cases (a == 3)) [
    | inl second ↦
        let (q', cleared, e, turn) = replace_turns P 1 0 q bits (omega arith) d full in
        (q', clear_all bits 0 cleared, rw second e, Turn-Evicted turn d)
    | inr other ↦ elim (Bool-cases (a == 4)) [
      | inl circular ↦
          let (q', cleared, e, turn) = replace_turns P 0 1 q bits (omega arith) d full in
          (q', clear_all bits 1 cleared, rw (other, circular) e, Turn-Evicted turn d)
      | inr plain ↦ (
        (P.queue_dequeue q).1,
        bits,
        rw (other, plain) refl,
        rw (P.items-dequeue q) (tail-Evicted (P.items q) full d),
      )
    ]
  ]

module _ (P : QueueLib ℕ) (F : QueueLib FreqPage) where
  abbrev pub resident : Pager P F → List ℕ
  resident p = P.items p.queue

  -- At most a page for each frame, and no page twice.
  pub record IsValid (p : Pager P F) : Type 0 where
    pub frames : 0 < p.max_size
    pub fits : length (resident p) ≤ p.max_size
    pub distinct : Distinct (resident p)

  -- What a request for `page` does, from `p` to `p'`.
  pub record Served (p : Pager P F) (page : ℕ) (p' : Pager P F) : Type 0 where
    pub valid : IsValid p'
    pub present : has page (resident p') ≡ true
    -- No other page comes in.
    pub others :
        (w : ℕ) → (has w (resident p') && not (has w (resident p)) && not (page == w)) ≡ false
    -- A page fault exactly when the page was not in memory.
    pub fetches : p'.fetched ≡ (if has page (resident p) then p.fetched else page ∷ p.fetched)
    pub same_frames : p'.max_size ≡ p.max_size
    pub same_alg : p'.alg ≡ p.alg

  -- The page goes to the tail of a queue with room that holds pages of `p` only.
  enqueue-Served :
      (p : Pager P F) (page : ℕ) (q : P.Queue) (bits : ℕ → ℕ) (log : List ℕ)
      → IsValid p
      → has page (P.items q) ≡ false
      → length (P.items q) + 1 ≤ p.max_size
      → Distinct (P.items q)
      → ((w : ℕ) → (has w (P.items q) && not (has w (resident p))) ≡ false)
      → log ≡ (if has page (resident p) then p.fetched else page ∷ p.fetched)
      → Served p page (record p { queue = P.queue_enqueue q page; bit_refs = bits; fetched = log })
  enqueue-Served p page q bits log v miss room d sub e =
      let after : P.items (P.queue_enqueue q page) ≡ P.items q ++ page ∷ [] =
        P.items-enqueue q page in
      record {
        valid = record {
          frames = v.frames;
          fits = omega (arith, ap length after, length-append (P.items q) (page ∷ []));
          distinct = rw after (Distinct-snoc page (P.items q) d miss);
        };
        present =
            ap (has page) after
            ∙ ground (arith, has-append page (P.items q) (page ∷ []), ==_refl page);
        others = λ w. ground (arith, ap (has w) after, has-append w (P.items q) (page ∷ []), sub w);
        fetches = e;
        same_frames = refl;
        same_alg = refl;
      }

  load_returns :
      (p : Pager P F) (page : ℕ)
      → IsValid p
      → has page (resident p) ≡ false
      → (p' : Pager P F) × (load P F p page ≡ some p') × Served p page p'
  unfolding load
  load_returns p page v miss = elim (Bool-cases (P.queue_size p.queue == p.max_size)) [
    | inl full ↦
        let (q', bits', e, out) =
          evict_returns P (code p.alg) p.queue p.bit_refs v.distinct
            (λ empty. ground (arith, v.frames, P.size_lem p.queue, ap length empty)) in
        (
          record p {
            queue = P.queue_enqueue q' page;
            bit_refs = bits';
            fetched = page ∷ p.fetched;
          },
          rw (full, e),
          enqueue-Served p page q' bits' (page ∷ p.fetched) v (ground (arith, out.subset page))
              (omega (arith, out.fewer, v.fits)) out.distinct out.subset (rw miss),
        )
    | inr room ↦ (
      record p { queue = P.queue_enqueue p.queue page; fetched = page ∷ p.fetched },
      rw room,
      enqueue-Served p page p.queue p.bit_refs (page ∷ p.fetched) v miss
          (ground (arith, v.fits, P.size_lem p.queue)) v.distinct (λ w. ground arith) (rw miss),
    )
  ]

  -- The pager as `find_elem` leaves it.
  abbrev searched : Pager P F → ℕ → (ℕ → ℕ) → Pager P F
  searched p page bits =
      let r = find_elem P (code p.alg) p.queue bits page in
      record p { queue = r.queue; bit_refs = r.bits }

  -- A pager with the same pages serves in the place of another.
  Served-from :
      (p p₀ : Pager P F) (page : ℕ) (p' : Pager P F)
      → resident p₀ ≡ resident p
      → p₀.fetched ≡ p.fetched
      → p₀.max_size ≡ p.max_size
      → p₀.alg ≡ p.alg
      → Served p₀ page p'
      → Served p page p'
  Served-from p p₀ page p' e log size alg s = record {
    valid = s.valid;
    present = s.present;
    others = λ w. ground (arith, ap (has w) e, s.others w);
    fetches = ground (arith, ap (has page) e, s.fetches);
    same_frames = s.same_frames ∙ size;
    same_alg = s.same_alg ∙ alg;
  }

  searched-miss :
      (p : Pager P F) (page : ℕ) (bits : ℕ → ℕ)
      → has page (resident p) ≡ false
      → resident (searched p page bits) ≡ resident p
  searched-miss p page bits miss =
      (find_elem_lem P (code p.alg) p.queue bits page).1
      ∙ ground (arith, remove-absent page (resident p))

  searched-hit :
      (p : Pager P F) (page : ℕ) (bits : ℕ → ℕ)
      → (code p.alg == 1) ≡ false
      → resident (searched p page bits) ≡ resident p
  searched-hit p page bits other = (find_elem_lem P (code p.alg) p.queue bits page).1 ∙ ground arith

  -- Under least recently used, a hit moves the page to the tail.
  hit-Served :
      (p : Pager P F) (page : ℕ) (bits : ℕ → ℕ)
      → IsValid p
      → has page (resident p) ≡ true
      → (code p.alg == 1) ≡ true
      → let p₀ = searched p page bits in
        Served p page (record p₀ { queue = P.queue_enqueue p₀.queue page })
  hit-Served p page bits v hit lru =
      let p₀ = searched p page bits in
      let left : resident p₀ ≡ remove page (resident p) =
        (find_elem_lem P (code p.alg) p.queue bits page).1 ∙ ground arith in
      enqueue-Served p page p₀.queue p₀.bit_refs p.fetched v
        (ap (has page) left ∙ has-remove_self page (resident p))
        (omega (arith, ap length left, length-remove page (resident p) v.distinct hit, v.fits))
        (rw left (Distinct-remove page (resident p) v.distinct))
        (λ w. ground (arith, ap (has w) left, has-remove w page (resident p))) (rw hit)

  request_page_returns :
      (p : Pager P F) (page : ℕ)
      → IsValid p
      → (p' : Pager P F) × (request_page P F p page ≡ some p') × Served p page p'
  unfolding request_page
  request_page_returns p page v =
      let bits : ℕ → ℕ = if code p.alg == 4 then update p.bit_refs page 0 else p.bit_refs in
      let p₀ : Pager P F = searched p page bits in
      let found = (find_elem_lem P (code p.alg) p.queue bits page).0 in
      elim (Bool-cases (has page (resident p))) [
        | inl hit ↦ elim (Bool-cases (code p.alg == 1)) [
          | inl lru ↦ (
            record p₀ { queue = P.queue_enqueue p₀.queue page },
            rw (found ∙ hit, lru),
            hit-Served p page bits v hit lru,
          )
          | inr other ↦
              let same = searched-hit p page bits other in
              (
                p₀,
                rw (found ∙ hit, other),
                record {
                  valid = record {
                    frames = v.frames;
                    fits = omega (arith, ap length same, v.fits);
                    distinct = rw same v.distinct;
                  };
                  present = ap (has page) same ∙ hit;
                  others = λ w. ground (arith, ap (has w) same);
                  fetches = rw hit;
                  same_frames = refl;
                  same_alg = refl;
                },
              )
        ]
        | inr miss ↦
            let same = searched-miss p page bits miss in
            let (p', e, served) =
              load_returns p₀ page
                (record {
                  frames = v.frames;
                  fits = omega (arith, ap length same, v.fits);
                  distinct = rw same v.distinct;
                })
                (ap (has page) same ∙ miss) in
            (p', rw (found ∙ miss) e, Served-from p p₀ page p' same refl refl refl served)
      ]

  pub pager_request_serves :
      (p : Pager P F) (page : ℕ)
      → IsValid p
      → code p.alg ≢ 2
      → (uses_array p.alg && leb array_len page) ≡ false
      → (p' : Pager P F) × (pager_request P F p page ≡ some p') × Served p page p'
  unfolding pager_request
  pager_request_serves p page v plain bounds =
      let (p', e, s) = request_page_returns p page v in
      let other : (code p.alg == 2) ≡ false = ground arith in
      (
        record p' { step = p'.step + 1 },
        rw (bounds, other, e) refl,
        record {
          valid = record {
            frames = s.valid.frames;
            fits = s.valid.fits;
            distinct = s.valid.distinct;
          };
          present = s.present;
          others = s.others;
          fetches = s.fetches;
          same_frames = s.same_frames;
          same_alg = s.same_alg;
        },
      )

  pager_init-IsValid :
      (memory : ℕ → ℕ) (a : Algorithm) (n : ℕ) → 0 < n → IsValid (pager_init P F memory a n)
  unfolding pager_init
  pager_init-IsValid memory a n h = record {
    frames = h;
    fits = omega (arith, ap length P.items-create);
    distinct = rw P.items-create tt;
  }

  run_returns :
      (pages : List ℕ) (p : Pager P F)
      → IsValid p
      → code p.alg ≢ 2
      → All (λ page. page < array_len) pages
      → (p' : Pager P F) × (run P F pages p ≡ some p') × IsValid p'
  unfolding run
  run_returns [] p v plain h = (p, refl, v)
  run_returns (page ∷ rest) p v plain h =
      let (p', e, s) = pager_request_serves p page v plain (ground (arith, h.0)) in
      let (p'', e', v') =
        run_returns rest p' s.valid (λ two. plain (sym (ap code s.same_alg) ∙ two)) h.1 in
      (p'', rw (e, run) e', v')

  -- Any sequence of requests for pages below the arrays' length runs to its end, under every
  -- algorithm but least frequently used, and leaves at most a page for each frame and no page twice.
  pub run_stays-IsValid :
      (memory : ℕ → ℕ) (a : Algorithm) (n : ℕ) (pages : List ℕ)
      → 0 < n
      → code a ≢ 2
      → All (λ page. page < array_len) pages
      → (p : Pager P F) × (run P F pages (pager_init P F memory a n) ≡ some p) × IsValid p
  unfolding pager_init
  run_stays-IsValid memory a n pages h plain below =
      run_returns pages (pager_init P F memory a n) (pager_init-IsValid memory a n h) plain below

-- ===== src/Manpage/Order.antt =====
-- The paragraphs come in their order, and the last one comes.
use cse130_git.Prelude.{
  ℕ, zero, suc, ◌+◌, ◌≤◌, ◌<◌, ◌≡◌, ◌≢◌, refl, List, [], ◌∷◌, Bool, true, false, ltb, update, arith,
}
use cse130_git.Manpage.Threads.{
  Pc, starting, waiting, asleep, announcing, finished, Page, manpage, Step, begin, sleep, show,
  broadcast, spurious, Reach, start, later,
}

-- The paragraphs below `n`, the last one first.
abbrev pub below : ℕ → List ℕ
below zero = []
below (suc n) = n ∷ below n

-- Whether a thread has shown its paragraph.
abbrev pub has_shown : Pc → Bool
has_shown announcing = true
has_shown finished = true
has_shown _ = false

record Inv (s : Page) : Type 0 where
  pub order : s.shown ≡ below s.cur_page
  pub past : (i : ℕ) → has_shown (s.pc i) ≡ ltb i s.cur_page
  pub bound : s.cur_page ≤ 7
  pub awake : s.pc s.cur_page ≡ asleep → (k : ℕ) × (k < 7) × (s.pc k ≡ announcing)

manpage-Inv : Inv manpage
manpage-Inv = record {
  order = refl;
  past = λ i. ground arith;
  bound = omega arith;
  awake = λ e. absurd (ground arith);
}

module _ {s : Page} (inv : Inv s) where
  open inv use {order, past, bound, awake}

  -- A step of a thread that neither shows nor announces.
  quiet_awake :
      (i : ℕ) (p : Pc)
      → s.pc i ≢ announcing
      → (i ≡ s.cur_page → p ≢ asleep)
      → update s.pc i p s.cur_page ≡ asleep
      → (k : ℕ) × (k < 7) × (update s.pc i p k ≡ announcing)
  quiet_awake i p calm stays e =
      let old : s.pc s.cur_page ≡ asleep = ground (arith, e, stays) in
      let (k, b, a) = awake old in (k, b, ground (arith, a, calm))

  Step-Inv : {t : Page} → Step s t → Inv t
  Step-Inv (begin i b e) = record {
    order = order;
    past = λ k. ground (arith, past k, e);
    bound = bound;
    awake = quiet_awake i waiting (ground (arith, e)) (λ x. ground arith);
  }
  Step-Inv (sleep i b e n) = record {
    order = order;
    past = λ k. ground (arith, past k, e);
    bound = bound;
    awake = quiet_awake i asleep (ground (arith, e)) (λ x. absurd (n x));
  }
  Step-Inv (show i b e n) = record {
    order = shown_more;
    past = λ k. ground (arith, past k, e, n);
    bound = omega (arith, b, n);
    awake = λ x. (i, b, ground arith);
  }
    where
      shown_more : i ∷ s.shown ≡ below (s.cur_page + 1)
      shown_more = let f : s.cur_page + 1 ≡ suc s.cur_page = omega arith in rw (f, order, n) refl
  Step-Inv (broadcast i b e) = record {
    order = order;
    past = λ k. ground (arith, past k, e);
    bound = bound;
    awake = λ x. absurd (ground (arith, x));
  }
  Step-Inv (spurious i b e) = record {
    order = order;
    past = λ k. ground (arith, past k, e);
    bound = bound;
    awake = quiet_awake i waiting (ground (arith, e)) (λ x. ground arith);
  }

Reach-Inv : {s : Page} → Reach s → Inv s
Reach-Inv start = manpage-Inv
Reach-Inv (later r step) = Step-Inv (Reach-Inv r) step

-- However the threads interleave, the paragraphs that are shown are 0, 1, 2 and so on up to the one
-- before `cur_page`, each once, in this order, and there are at most seven.
pub paragraphs_in_order : {s : Page} → Reach s → (s.shown ≡ below s.cur_page) × (s.cur_page ≤ 7)
paragraphs_in_order r = let i = Reach-Inv r in (i.order, i.bound)

-- While a paragraph is left, some thread that does not sleep can take a step: it begins, tests, shows or
-- broadcasts. There is no deadlock.
pub page_comes :
    {s : Page}
    → Reach s
    → s.cur_page < 7
    → (k : ℕ) × (k < 7) × ((s.pc k ≢ asleep) × (s.pc k ≢ finished)) × (t : Page) × Step s t
page_comes {s} r left = by_state (s.pc s.cur_page) refl
  where
    i : Inv s
    i = Reach-Inv r

    by_state :
        (p : Pc)
        → s.pc s.cur_page ≡ p
        → (k : ℕ) × (k < 7) × ((s.pc k ≢ asleep) × (s.pc k ≢ finished)) × (t : Page) × Step s t
    by_state starting e =
        (s.cur_page, left, (ground (arith, e), ground (arith, e)), _, begin s.cur_page left e)
    by_state waiting e =
        (s.cur_page, left, (ground (arith, e), ground (arith, e)), _, show s.cur_page left e refl)
    by_state asleep e =
        let (k, b, a) = i.awake e in
        (k, b, (ground (arith, a), ground (arith, a)), _, broadcast k b a)
    by_state announcing e = absurd (ground (arith, e, i.past s.cur_page))
    by_state finished e = absurd (ground (arith, e, i.past s.cur_page))

-- ===== src/Cartman/Safety.antt =====
-- What the users of the railway see: the rules of Assignment3/cartman.h are obeyed, the carts do not
-- share a junction, and the sleepers are woken.
use cse130_git.Prelude.{
  ℕ, ◌≤◌, ◌<◌, ◌^◌, ◌≡◌, ◌≢◌, inl, inr, refl, none, some, Bool, true, false, ◌==◌, update, arith,
  Bool-cases,
}
use cse130_git.Cartman.Threads.{
  CartMove, Shared, System, Pc, unborn, started, wants, asleep, holding, crossed, announcing,
  finished, Move, begin, sleep, take, go, free, Step, moves, broadcasts, Reach,
}
use cse130_git.Cartman.Rules.{Reserved, replay, holds}
use cse130_git.Cartman.Invariant.{Wakes, Reach-Inv}

-- A thread that can take a step with no broadcast of another's.
abbrev pub is_ready : Pc → Bool
is_ready unborn = false
is_ready (asleep c t a b) = false
is_ready finished = false
is_ready _ = true

-- A thread with work left.
abbrev pub is_pending : Pc → Bool
is_pending unborn = false
is_pending finished = false
is_pending _ = true

module _ {n : ℕ} {memory : ℕ → CartMove} {s : System} (two : 2 ≤ n) (small : n < 2 ^ 31)
    (run : Reach n memory s) where
  -- Two threads never keep the same junction.
  pub junction_exclusive : (i k j : ℕ) → holds (s.pc i) j ≡ true → holds (s.pc k) j ≡ true → i ≡ k
  junction_exclusive = let (r, inv) = Reach-Inv two small run in inv.unique

  -- A thread in `pthread_cond_wait` is not forgotten: another one keeps one of its junctions, or is
  -- about to broadcast.
  pub sleeper_woken : (i c t a b : ℕ) → s.pc i ≡ asleep c t a b → Wakes s.pc a b
  sleeper_woken = let (r, inv) = Reach-Inv two small run in inv.awake

  ready_below : (k : ℕ) → is_ready (s.pc k) ≡ true → k < s.born
  ready_below k h = let (r, inv) = Reach-Inv two small run in ground (arith, inv.unborn_rest k)

  advance_from :
      (k : ℕ) {p p' : Pc} {m : Shared}
      → s.pc k ≡ p
      → k < s.born
      → Move s.shared p m p'
      → p' ≢ p
      → (t : System) × Step s t × (t.pc k ≢ p)
  advance_from k {p} {p'} {m} e b mv differ = (
    record s { shared = m; pc = update s.pc k p' },
    moves k {m = m} {p = p'} b (rw e mv),
    ground (arith, differ),
  )

  ready_steps :
      (k : ℕ) (p : Pc)
      → s.pc k ≡ p
      → is_ready p ≡ true
      → k < s.born
      → (t : System) × Step s t × (t.pc k ≢ p)
  ready_steps k unborn e h b = absurd (ground arith)
  ready_steps k (started slot) e h b = advance_from k e b begin (λ x. ground arith)
  ready_steps k (wants c t x y) e h b = elim (Bool-cases (s.shared.locks x == 0)) [
    | inl f ↦ elim (Bool-cases (s.shared.locks y == 0)) [
      | inl g ↦ advance_from k e b (take (ground arith) (ground arith)) (λ x. ground arith)
      | inr g ↦ advance_from k e b (sleep (inr g)) (λ x. ground arith)
    ]
    | inr f ↦ advance_from k e b (sleep (inl f)) (λ x. ground arith)
  ]
  ready_steps k (asleep c t x y) e h b = absurd (ground arith)
  ready_steps k (holding c t x y) e h b = advance_from k e b go (λ x. ground arith)
  ready_steps k (crossed c x y) e h b = advance_from k e b free (λ x. ground arith)
  ready_steps k announcing e h b = (_, broadcasts k b e, ground arith)
  ready_steps k finished e h b = absurd (ground arith)

  find_ready :
      (i : ℕ) (p : Pc) → s.pc i ≡ p → is_pending p ≡ true → (k : ℕ) × (is_ready (s.pc k) ≡ true)
  find_ready i unborn e h = absurd (ground arith)
  find_ready i (started slot) e h = (i, ground arith)
  find_ready i (wants c t x y) e h = (i, ground arith)
  find_ready i (asleep c t x y) e h = let (k, w) = sleeper_woken i c t x y e in (k, ground arith)
  find_ready i (holding c t x y) e h = (i, ground arith)
  find_ready i (crossed c x y) e h = (i, ground arith)
  find_ready i announcing e h = (i, ground arith)
  find_ready i finished e h = absurd (ground arith)

  -- There is no deadlock: while a thread has work left, some thread that does not sleep can step on.
  pub no_deadlock :
      (i : ℕ)
      → is_pending (s.pc i) ≡ true
      → (k : ℕ) × (is_ready (s.pc k) ≡ true) × (t : System) × Step s t × (t.pc k ≢ s.pc k)
  no_deadlock i h =
      let (k, ready) = find_ready i (s.pc i) refl h in
      let (t, step, changed) = ready_steps k (s.pc k) refl ready (ready_below k ready) in
      (k, ready, t, step, changed)

  -- Once no thread has work left, every junction is free: the calls replay to no reservation.
  pub idle_releases :
      ((i : ℕ) → is_pending (s.pc i) ≡ false)
      → (r : Reserved) × (replay n s.shared.calls ≡ some r) × ((j : ℕ) → r j ≡ none)
  idle_releases idle =
      let (r, inv) = Reach-Inv two small run in
      (
        r,
        inv.replayed,
        λ j. elim (Bool-cases (s.shared.locks j == 0)) [
          | inl f ↦ ground (arith, inv.agrees j)
          | inr f ↦ let (k, x) = inv.backed j f in absurd (ground (arith, idle k))
        ],
      )

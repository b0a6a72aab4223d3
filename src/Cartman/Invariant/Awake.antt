-- ===== src/Cartman/Invariant/Awake.antt =====
-- A move keeps every locked junction with a thread, and no sleeper is forgotten.
use cse130_git.Prelude.{
  ℕ, ◌≤◌, ◌<◌, ◌^◌, ◌≡◌, inl, inr, sym, true, false, ◌||◌, ◌==◌, update, arith, Bool-cases,
}
use cse130_git.Cartman.Threads.{
  Shared, Pc, wants, asleep, holding, crossed, announcing, plan, Move, begin, sleep, take, spurious,
  go, free,
}
use cse130_git.Cartman.Rules.{Reserved, holds, is_announcing}
use cse130_git.Cartman.Invariant.Defs.{IsSound, Wakes, Inv}
use cse130_git.Cartman.Invariant.Moves.{
  after, Move-replayed, Move-agrees, Move-owned, Move-unique, Move-IsSound, Move-tracks, Move-slots,
}

module _ {n : ℕ} {s : Shared} {pc : ℕ → Pc} {born : ℕ} {r : Reserved} (inv : Inv n s pc born r)
    (i : ℕ) where
  open inv use {tracks, replayed, agrees, owned, unique, sound, backed, awake, unborn_rest}

  -- A locked junction is still kept by the thread that kept it, but if that is the mover.
  stays_backed :
      (p' : Pc) (j : ℕ)
      → (holds (pc i) j ≡ true → holds p' j ≡ true)
      → (k : ℕ) × (holds (pc k) j ≡ true)
      → (k : ℕ) × (holds (update pc i p' k) j ≡ true)
  stays_backed p' j keep (k, h) = (k, ground (arith, keep))

  Move-backed :
      {p p' : Pc} {s' : Shared} (mv : Move s p s' p')
      → pc i ≡ p
      → (j : ℕ) → (s'.locks j == 0) ≡ false
      → (k : ℕ) × (holds (update pc i p' k) j ≡ true)
  Move-backed (begin {slot}) e j h =
      stays_backed (plan s.num_tracks (s.c_moves slot)) j (λ x. ground arith) (backed j h)
  Move-backed (sleep {c} {t} {a} {b} _) e j h =
      stays_backed (asleep c t a b) j (λ x. ground arith) (backed j h)
  Move-backed (take {c} {t} {a} {b} fa fb) e j h = elim (Bool-cases (a == j || b == j)) [
    | inl y ↦ (i, ground arith)
    | inr y ↦ stays_backed (holding c t a b) j (λ x. ground arith) (backed j (ground arith))
  ]
  Move-backed (spurious {c} {t} {a} {b}) e j h =
      stays_backed (wants c t a b) j (λ x. ground arith) (backed j h)
  Move-backed (go {c} {t} {a} {b}) e j h =
      stays_backed (crossed c a b) j (λ x. ground arith) (backed j h)
  Move-backed (free {c} {a} {b}) e j h =
      stays_backed announcing j (λ x. ground arith) (backed j (ground arith))

  -- Whoever will wake the sleepers still will, but for the mover.
  stays_awake :
      (p' : Pc) (a b : ℕ)
      → ((holds (pc i) a || (holds (pc i) b || is_announcing (pc i))) ≡ true
          → (holds p' a || (holds p' b || is_announcing p')) ≡ true)
      → Wakes pc a b
      → Wakes (update pc i p') a b
  stays_awake p' a b keep (k, h) = (k, ground (arith, keep))

  Move-keeps :
      {p p' : Pc} {s' : Shared} (mv : Move s p s' p')
      → pc i ≡ p
      → (a b : ℕ) → (holds (pc i) a || (holds (pc i) b || is_announcing (pc i))) ≡ true
      → (holds p' a || (holds p' b || is_announcing p')) ≡ true
  Move-keeps begin e a b h = ground arith
  Move-keeps (sleep _) e a b h = ground arith
  Move-keeps (take _ _) e a b h = ground arith
  Move-keeps spurious e a b h = ground arith
  Move-keeps go e a b h = ground arith
  Move-keeps free e a b h = ground arith

  -- A thread that goes to sleep found a locked junction, and another thread keeps it.
  slept :
      {p p' : Pc} {s' : Shared} (mv : Move s p s' p')
      → pc i ≡ p
      → (c t a b : ℕ) → p' ≡ asleep c t a b
      → Wakes (update pc i p') a b
  slept (begin {slot}) e c t a b h = absurd (ground arith)
  slept (sleep {c = c'} {t = t'} {a = a'} {b = b'} (inl f)) e c t a b h =
      let (k, x) = Move-backed (sleep {c = c'} {t = t'} {a = a'} {b = b'} (inl f)) e a' f in
      (k, ground arith)
  slept (sleep {c = c'} {t = t'} {a = a'} {b = b'} (inr f)) e c t a b h =
      let (k, x) = Move-backed (sleep {c = c'} {t = t'} {a = a'} {b = b'} (inr f)) e b' f in
      (k, ground arith)
  slept (take _ _) e c t a b h = absurd (ground arith)
  slept spurious e c t a b h = absurd (ground arith)
  slept go e c t a b h = absurd (ground arith)
  slept free e c t a b h = absurd (ground arith)

  Move-awake :
      {p p' : Pc} {s' : Shared} (mv : Move s p s' p')
      → pc i ≡ p
      → (k c t a b : ℕ) → update pc i p' k ≡ asleep c t a b
      → Wakes (update pc i p') a b
  Move-awake {p} {p'} mv e k c t a b h = elim (Bool-cases (i == k)) [
    | inl y ↦ slept mv e c t a b (ground arith)
    | inr y ↦ stays_awake p' a b (Move-keeps mv e a b) (awake k c t a b (ground arith))
  ]

  pub Move-Inv :
      {p p' : Pc} {s' : Shared} (mv : Move s p s' p')
      → 2 ≤ n
      → n < 2 ^ 31
      → pc i ≡ p
      → i < born
      → Inv n s' (update pc i p') born (after mv r)
  Move-Inv {p} {p'} mv two small e fresh = record {
    tracks = Move-tracks inv i mv;
    replayed = Move-replayed inv i mv e;
    agrees = Move-agrees inv i mv;
    owned = Move-owned inv i mv e;
    unique = Move-unique inv i mv e;
    sound = λ k. rw (Move-slots inv i mv) (sounds k);
    backed = Move-backed mv e;
    awake = Move-awake mv e;
    unborn_rest = λ k h. ground (arith, unborn_rest k);
  }
    where
      moved : IsSound n s.c_moves p'
      moved =
          rw (sym (Move-slots inv i mv)) (Move-IsSound inv i mv two small (rw (sym e) (sound i)))

      sounds : (k : ℕ) → IsSound n s.c_moves (update pc i p' k)
      sounds k = elim (Bool-cases (i == k)) [ inl y ↦ rw y moved | inr y ↦ rw y (sound k) ]

-- ===== src/Cartman/Invariant/Moves.antt =====
-- A move of thread `i` keeps each field of `Inv`.
use cse130_git.Prelude.{ℕ, ◌≤◌, ◌<◌, ◌^◌, ◌≡◌, refl, none, some, true, false, ◌==◌, update, arith}
use cse130_git.Cartman.Claim.{claim, claim_lem, opposite}
use cse130_git.Cartman.Threads.{
  CartMove, Shared, Pc, wants, plan, Move, begin, sleep, take, spurious, go, free,
}
use cse130_git.Cartman.Rules.{Reserved, is_free, replay, holds, owner}
use cse130_git.Cartman.Invariant.Defs.{AtEnd, IsSound, Inv}

-- The reservations after a move.
abbrev pub after : {s s' : Shared} {p p' : Pc} → Move s p s' p' → Reserved → Reserved
after (take {c} {t} {a} {b} _ _) r = update (update r a (some c)) b (some c)
after (free {c} {a} {b}) r = update (update r a none) b none
after _ r = r

module _ {n : ℕ} {s : Shared} {pc : ℕ → Pc} {born : ℕ} {r : Reserved} (inv : Inv n s pc born r)
    (i : ℕ) where
  open inv use {tracks, replayed, agrees, owned, unique, sound, backed, awake, unborn_rest}

  pub Move-replayed :
      {p p' : Pc} {s' : Shared} (mv : Move s p s' p')
      → pc i ≡ p
      → replay n s'.calls ≡ some (after mv r)
  Move-replayed begin e = replayed
  Move-replayed (sleep _) e = replayed
  Move-replayed (take {c} {t} {a} {b} fa fb) e =
      ground (arith, replayed, agrees a, agrees b, sound i)
  Move-replayed spurious e = replayed
  Move-replayed (go {c} {t} {a} {b}) e = ground (arith, replayed, owned i a, owned i b, sound i)
  Move-replayed (free {c} {a} {b}) e = ground (arith, replayed, owned i a, owned i b, sound i)

  pub Move-agrees :
      {p p' : Pc} {s' : Shared} (mv : Move s p s' p') (j : ℕ)
      → is_free (after mv r j) ≡ (s'.locks j == 0)
  Move-agrees (take fa fb) j = ground (arith, agrees j)
  Move-agrees free j = ground (arith, agrees j)
  Move-agrees begin j = agrees j
  Move-agrees (sleep _) j = agrees j
  Move-agrees spurious j = agrees j
  Move-agrees go j = agrees j

  plan-holds : (m : CartMove) (j : ℕ) → holds (plan s.num_tracks m) j ≡ false
  plan-holds m j = ground arith

  pub Move-owned :
      {p p' : Pc} {s' : Shared} (mv : Move s p s' p')
      → pc i ≡ p
      → (k j : ℕ) → holds (update pc i p' k) j ≡ true
      → after mv r j ≡ some (owner (update pc i p' k))
  Move-owned (begin {slot}) e k j h = ground (arith, owned k j, plan-holds (s.c_moves slot) j)
  Move-owned (sleep _) e k j h = ground (arith, owned k j)
  Move-owned (take {c} {t} {a} {b} fa fb) e k j h = ground (arith, owned k j, agrees a, agrees b)
  Move-owned spurious e k j h = ground (arith, owned k j)
  Move-owned go e k j h = ground (arith, owned k j, owned i j)
  Move-owned (free {c} {a} {b}) e k j h = ground (arith, owned k j, unique i k j)

  pub Move-unique :
      {p p' : Pc} {s' : Shared} (mv : Move s p s' p')
      → pc i ≡ p
      → (k l j : ℕ) → holds (update pc i p' k) j ≡ true
      → holds (update pc i p' l) j ≡ true
      → k ≡ l
  Move-unique (begin {slot}) e k l j h g =
      ground (arith, unique k l j, plan-holds (s.c_moves slot) j)
  Move-unique (sleep _) e k l j h g = ground (arith, unique k l j)
  Move-unique (take {c} {t} {a} {b} fa fb) e k l j h g =
      ground (arith, unique k l j, owned k j, owned l j, agrees a, agrees b)
  Move-unique spurious e k l j h g = ground (arith, unique k l j)
  Move-unique go e k l j h g = ground (arith, unique k l j, unique i l j, unique k i j)
  Move-unique free e k l j h g = ground (arith, unique k l j)

  plan_wants :
      (m : CartMove) (b : ℕ)
      → claim n m.track_num m.junc_num ≡ some (m.junc_num, b)
      → plan n m ≡ wants m.cart_num m.track_num m.junc_num b
  plan_wants m b e = rw (plan, e) refl

  plan-IsSound :
      (m : CartMove) → 2 ≤ n → n < 2 ^ 31 → AtEnd n m → IsSound n s.c_moves (plan s.num_tracks m)
  plan-IsSound m two small e =
      let (claims, differ, inside) =
        claim_lem n m.track_num m.junc_num two small e.track e.junction e.is_end in
      rw (tracks, plan_wants m (opposite n m.track_num m.junc_num) claims) (differ, refl)

  pub Move-IsSound :
      {p p' : Pc} {s' : Shared} (mv : Move s p s' p')
      → 2 ≤ n
      → n < 2 ^ 31
      → IsSound n s.c_moves p
      → IsSound n s'.c_moves p'
  Move-IsSound (begin {slot}) two small h = plan-IsSound (s.c_moves slot) two small h
  Move-IsSound (sleep _) two small h = h
  Move-IsSound (take _ _) two small h = h
  Move-IsSound spurious two small h = h
  Move-IsSound go two small h = h.0
  Move-IsSound free two small h = tt

  pub Move-tracks : {p p' : Pc} {s' : Shared} (mv : Move s p s' p') → s'.num_tracks ≡ n
  Move-tracks begin = tracks
  Move-tracks (sleep _) = tracks
  Move-tracks (take _ _) = tracks
  Move-tracks spurious = tracks
  Move-tracks go = tracks
  Move-tracks free = tracks

  pub Move-slots : {p p' : Pc} {s' : Shared} (mv : Move s p s' p') → s'.c_moves ≡ s.c_moves
  Move-slots begin = refl
  Move-slots (sleep _) = refl
  Move-slots (take _ _) = refl
  Move-slots spurious = refl
  Move-slots go = refl
  Move-slots free = refl

-- ===== src/Cartman/Invariant/Steps.antt =====
-- Every step keeps the invariant, so it holds in every state.
use cse130_git.Prelude.{
  ℕ, ◌≤◌, ◌<◌, ◌^◌, ◌≡◌, ◌≢◌, inl, inr, refl, sym, none, true, ◌==◌, update, arith, Bool-cases,
}
use cse130_git.Cartman.Threads.{
  CartMove, System, Pc, unborn, started, wants, asleep, holding, crossed, announcing, finished,
  woken, cartman, arrive, Step, arrives, moves, broadcasts, Reach, start, later,
}
use cse130_git.Cartman.Rules.{Reserved, holds, owner}
use cse130_git.Cartman.Invariant.Defs.{AtEnd, IsSound, Inv}
use cse130_git.Cartman.Invariant.Moves.{after}
use cse130_git.Cartman.Invariant.Awake.{Move-Inv}

cartman-Inv :
    (n : ℕ) (memory : ℕ → CartMove)
    → let s = cartman n memory in Inv n s.shared s.pc s.born (λ j. none)
cartman-Inv n memory = record {
  tracks = refl;
  replayed = refl;
  agrees = λ j. refl;
  owned = λ i j h. absurd (ground arith);
  unique = λ i k j h g. absurd (ground arith);
  sound = λ i. tt;
  backed = λ j h. absurd (ground arith);
  awake = λ i c t a b h. absurd (ground arith);
  unborn_rest = λ i h. refl;
}

woken-holds : (p : Pc) (j : ℕ) → holds (woken p) j ≡ holds p j
woken-holds p j = ground arith

woken-owner : (p : Pc) (j : ℕ) → holds p j ≡ true → owner (woken p) ≡ owner p
woken-owner p j h = ground arith

woken-IsSound :
    (n : ℕ) (slots : ℕ → CartMove) (p : Pc) → IsSound n slots p → IsSound n slots (woken p)
woken-IsSound n slots unborn h = tt
woken-IsSound n slots (started slot) h = h
woken-IsSound n slots (wants c t a b) h = h
woken-IsSound n slots (asleep c t a b) h = h
woken-IsSound n slots (holding c t a b) h = h
woken-IsSound n slots (crossed c a b) h = h
woken-IsSound n slots announcing h = tt
woken-IsSound n slots finished h = tt

woken-awake : (p : Pc) (c t a b : ℕ) → woken p ≢ asleep c t a b
woken-awake p c t a b h = ground arith

-- A new arrival in a slot is sound, and the threads that have not read theirs see sound ones.
filled-IsSound :
    (n : ℕ) (slots : ℕ → CartMove) (c : ℕ) (m : CartMove) (p : Pc)
    → AtEnd n m
    → IsSound n slots p
    → IsSound n (update slots c m) p
filled-IsSound n slots c m (started slot) e h = elim (Bool-cases (c == slot)) [
  | inl y ↦ rw y e
  | inr y ↦ rw y h
]
filled-IsSound n slots c m unborn e h = tt
filled-IsSound n slots c m (wants _ _ _ _) e h = h
filled-IsSound n slots c m (asleep _ _ _ _) e h = h
filled-IsSound n slots c m (holding _ _ _ _) e h = h
filled-IsSound n slots c m (crossed _ _ _) e h = h
filled-IsSound n slots c m announcing e h = tt
filled-IsSound n slots c m finished e h = tt

module _ {n : ℕ} {s : System} {r : Reserved} (inv : Inv n s.shared s.pc s.born r) where
  open inv use {tracks, replayed, agrees, owned, unique, sound, backed, awake, unborn_rest}

  arrive-Inv :
      (c t j : ℕ)
      → AtEnd n (record { cart_num = c; track_num = t; junc_num = j })
      → let s' = arrive s c t j in Inv n s'.shared s'.pc s'.born r
  arrive-Inv c t j e = record {
    tracks = tracks;
    replayed = replayed;
    agrees = agrees;
    owned = λ i j h. ground (arith, owned i j);
    unique = λ i k j h g. ground (arith, unique i k j);
    sound = sounds;
    backed = λ j h. let (k, x) = backed j h in (k, ground (arith, unborn_rest k));
    awake = λ i c t a b h.
        let (k, x) = awake i c t a b (ground arith) in (k, ground (arith, unborn_rest k));
    unborn_rest = λ i h. ground (arith, unborn_rest i);
  }
    where
      sounds :
          (i : ℕ) → IsSound n (arrive s c t j).shared.c_moves (update s.pc s.born (started c) i)
      sounds i = elim (Bool-cases (s.born == i)) [
        | inl y ↦ rw y (let hit : (c == c) ≡ true = ground arith in rw hit e)
        | inr y ↦ rw y (
            filled-IsSound n s.shared.c_moves c
              (record { cart_num = c; track_num = t; junc_num = j }) (s.pc i) e (sound i))
      ]

  broadcast-Inv :
      (i : ℕ)
      → i < s.born
      → s.pc i ≡ announcing
      → Inv n s.shared (update (λ k. woken (s.pc k)) i finished) s.born r
  broadcast-Inv i b e = record {
    tracks = tracks;
    replayed = replayed;
    agrees = agrees;
    owned = λ k j h. ground (arith, owned k j, woken-holds (s.pc k) j, woken-owner (s.pc k) j);
    unique =
        λ k l j h g. ground (arith, unique k l j, woken-holds (s.pc k) j, woken-holds (s.pc l) j);
    sound = sounds;
    backed = λ j h. let (k, x) = backed j h in (k, ground (arith, woken-holds (s.pc k) j));
    awake = λ k c t a b h. absurd (ground (arith, woken-awake (s.pc k) c t a b));
    unborn_rest = λ k h. ground (arith, unborn_rest k);
  }
    where
      sounds : (k : ℕ) → IsSound n s.shared.c_moves (update (λ k. woken (s.pc k)) i finished k)
      sounds k = elim (Bool-cases (i == k)) [
        | inl y ↦ rw y tt
        | inr y ↦ rw y (woken-IsSound n s.shared.c_moves (s.pc k) (sound k))
      ]

Step-Inv :
    {n : ℕ} {s t : System} {r : Reserved}
    → 2 ≤ n
    → n < 2 ^ 31
    → Step s t
    → Inv n s.shared s.pc s.born r
    → (r' : Reserved) × Inv n t.shared t.pc t.born r'
Step-Inv {n} {s} {r} two small (arrives c t j below onTrack onJunction e) inv = (
  r,
  arrive-Inv inv c t j
      (rw (sym inv.tracks) (record { track = onTrack; junction = onJunction; is_end = e })),
)
Step-Inv {r} two small (moves i {m} {p} below mv) inv =
    (after mv r, Move-Inv inv i mv two small refl below)
Step-Inv {r} two small (broadcasts i below e) inv = (r, broadcast-Inv inv i below e)

pub Reach-Inv :
    {n : ℕ} {memory : ℕ → CartMove} {s : System}
    → 2 ≤ n
    → n < 2 ^ 31
    → Reach n memory s
    → (r : Reserved) × Inv n s.shared s.pc s.born r
Reach-Inv {n} {memory} two small start = ((λ j. none), cartman-Inv n memory)
Reach-Inv two small (later h step) =
    let (r, inv) = Reach-Inv two small h in Step-Inv two small step inv

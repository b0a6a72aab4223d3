-- ===== src/Cartman/Threads.antt =====
-- The threads and what they share. Every access to `locks` lies between `pthread_mutex_lock` and
-- `pthread_mutex_unlock` of one mutex, so `reserve2` and `release2` are steps that nothing interrupts,
-- but for `pthread_cond_wait`, which gives the mutex away and sleeps.
use cse130_git.Prelude.{ℕ, ◌+◌, ◌<◌, ◌≡◌, ◌⊎◌, none, some, List, [], ◌∷◌, false, ◌==◌, update}
use cse130_git.Cartman.Claim.{claim, next_junction}

-- The calls of the railway's functions of cartman.h.
pub data Call : Type 0 where
  reserve : (cart junction : ℕ) → Call
  release : (cart junction : ℕ) → Call
  cross : (cart track junction : ℕ) → Call

-- `struct cart_move`.
pub record CartMove : Type 0 where
  pub cart_num : ℕ
  pub track_num : ℕ
  pub junc_num : ℕ

-- The global variables, and the calls made so far, the newest first.
pub record Shared : Type 0 where
  pub num_tracks : ℕ
  pub locks : ℕ → ℕ
  pub c_moves : ℕ → CartMove
  pub calls : List Call

-- Where a thread stands, with the values that it has read.
pub data Pc : Type 0 where
  unborn : Pc
  started : (slot : ℕ) → Pc  -- before it copies `c_moves[slot]`
  wants : (cart track junc1 junc2 : ℕ) → Pc  -- before `reserve2` tests the locks
  asleep : (cart track junc1 junc2 : ℕ) → Pc  -- in `pthread_cond_wait`
  holding : (cart track junc1 junc2 : ℕ) → Pc  -- before `cross`
  crossed : (cart junc1 junc2 : ℕ) → Pc  -- before `release2`
  announcing : Pc  -- before `pthread_cond_broadcast`
  finished : Pc

-- What a broadcast does to a thread: a sleeper tests the locks again.
abbrev pub woken : Pc → Pc
woken (asleep c t a b) = wants c t a b
woken p = p

-- `cart_start` up to `reserve2`.
abbrev pub plan : ℕ → CartMove → Pc
plan n m = elim (claim n m.track_num m.junc_num) [
  | none ↦ finished
  | some (a, b) ↦ wants m.cart_num m.track_num a b
]

-- One step of one thread.
pub data Move (s : Shared) : Pc → Shared → Pc → Type 0 where
  begin : {slot : ℕ} → Move s (started slot) s (plan s.num_tracks (s.c_moves slot))
  sleep :
      {c t a b : ℕ}
      → ((s.locks a == 0) ≡ false) ⊎ ((s.locks b == 0) ≡ false)
      → Move s (wants c t a b) s (asleep c t a b)
  take :
      {c t a b : ℕ}
      → s.locks a ≡ 0
      → s.locks b ≡ 0
      → Move s
          (wants c t a b)
          (record s {
            locks = update (update s.locks a 1) b 1;
            calls = reserve c b ∷ reserve c a ∷ s.calls;
          })
          (holding c t a b)
  -- `pthread_cond_wait` may also return with no broadcast.
  spurious : {c t a b : ℕ} → Move s (asleep c t a b) s (wants c t a b)
  go :
      {c t a b : ℕ}
      → Move s (holding c t a b) (record s { calls = cross c t a ∷ s.calls }) (crossed c a b)
  free :
      {c a b : ℕ}
      → Move s
          (crossed c a b)
          (record s {
            locks = update (update s.locks a 0) b 0;
            calls = release c b ∷ release c a ∷ s.calls;
          })
          announcing

-- The threads, by number: `arrive` starts the next one.
pub record System : Type 0 where
  pub shared : Shared
  pub pc : ℕ → Pc
  pub born : ℕ

-- `cartman (tracks)`.
abbrev pub cartman : ℕ → (ℕ → CartMove) → System
cartman tracks memory = record {
  shared = record { num_tracks = tracks; locks = λ j. 0; c_moves = memory; calls = [] };
  pc = λ i. unborn;
  born = 0;
}

-- `arrive`: the slot of the cart is filled in, and a thread is started on it.
abbrev pub arrive : System → ℕ → ℕ → ℕ → System
arrive s cart track junction = record {
  shared = record (s.shared) {
    c_moves =
        update s.shared.c_moves cart
          (record { cart_num = cart; track_num = track; junc_num = junction });
  };
  pc = update s.pc s.born (started cart);
  born = s.born + 1;
}

-- The simulator announces carts at the ends of their tracks, in slots of the array.
pub data Step (s : System) : System → Type 0 where
  arrives :
      (cart track junction : ℕ)
      → cart < 10000
      → track < s.shared.num_tracks
      → junction < s.shared.num_tracks
      → (track ≡ junction) ⊎ (next_junction s.shared.num_tracks track ≡ junction)
      → Step s (arrive s cart track junction)
  moves :
      (i : ℕ) {m : Shared} {p : Pc}
      → i < s.born
      → Move s.shared (s.pc i) m p
      → Step s (record s { shared = m; pc = update s.pc i p })
  broadcasts :
      (i : ℕ)
      → i < s.born
      → s.pc i ≡ announcing
      → Step s (record s { pc = update (λ k. woken (s.pc k)) i finished })

pub data Reach (n : ℕ) (memory : ℕ → CartMove) : System → Type 0 where
  start : Reach n memory (cartman n memory)
  later : {s t : System} → Reach n memory s → Step s t → Reach n memory t

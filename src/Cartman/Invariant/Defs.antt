-- ===== src/Cartman/Invariant/Defs.antt =====
use cse130_git.Prelude.{ℕ, ◌≤◌, ◌<◌, ◌≡◌, ◌≢◌, ◌⊎◌, some, true, false, ◌||◌, ◌==◌}
use cse130_git.Cartman.Claim.{next_junction, opposite}
use cse130_git.Cartman.Threads.{
  CartMove, Shared, Pc, unborn, started, wants, asleep, holding, crossed,
}
use cse130_git.Cartman.Rules.{Reserved, is_free, replay, holds, owner, is_announcing}

-- A cart at an end of its track.
pub record AtEnd (n : ℕ) (m : CartMove) : Type 0 where
  pub track : m.track_num < n
  pub junction : m.junc_num < n
  pub is_end : (m.track_num ≡ m.junc_num) ⊎ (next_junction n m.track_num ≡ m.junc_num)

-- The values of a thread: two ends of its track.
abbrev pub IsSound : ℕ → (ℕ → CartMove) → Pc → Type 0
IsSound n slots (started slot) = AtEnd n (slots slot)
IsSound n slots (wants c t a b) = (a ≢ b) × (opposite n t a ≡ b)
IsSound n slots (asleep c t a b) = (a ≢ b) × (opposite n t a ≡ b)
IsSound n slots (holding c t a b) = (a ≢ b) × (opposite n t a ≡ b)
IsSound n slots (crossed c a b) = a ≢ b
IsSound n slots _ = Unit

-- A thread that keeps `a` or `b`, or that is about to wake the sleepers.
abbrev pub Wakes : (ℕ → Pc) → ℕ → ℕ → Type 0
Wakes pc a b = (k : ℕ) × ((holds (pc k) a || (holds (pc k) b || is_announcing (pc k))) ≡ true)

pub record Inv (n : ℕ) (s : Shared) (pc : ℕ → Pc) (born : ℕ) (r : Reserved) : Type 0 where
  pub tracks : s.num_tracks ≡ n
  pub replayed : replay n s.calls ≡ some r
  pub agrees : (j : ℕ) → is_free (r j) ≡ (s.locks j == 0)
  pub owned : (i j : ℕ) → holds (pc i) j ≡ true → r j ≡ some (owner (pc i))
  pub unique : (i k j : ℕ) → holds (pc i) j ≡ true → holds (pc k) j ≡ true → i ≡ k
  pub sound : (i : ℕ) → IsSound n s.c_moves (pc i)
  pub backed : (j : ℕ) → (s.locks j == 0) ≡ false → (i : ℕ) × (holds (pc i) j ≡ true)
  pub awake : (i c t a b : ℕ) → pc i ≡ asleep c t a b → Wakes pc a b
  pub unborn_rest : (i : ℕ) → born ≤ i → pc i ≡ unborn

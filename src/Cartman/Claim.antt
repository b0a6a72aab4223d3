-- ===== src/Cartman/Claim.antt =====
-- Which two junctions `cart_start` reserves.
use cse130_git.Prelude.{
  ℕ, ◌+◌, ◌-◌, ◌%◌, ◌^◌, ◌<◌, ◌≤◌, ◌≡◌, ◌≢◌, ◌⊎◌, Option, none, some, ◌&&◌, ◌||◌, ◌==◌,
  if◌then◌else◌, arith,
}

-- `a - 1` on an `unsigned int`, as an enumeration's value is one.
abbrev pub pred_u32 : ℕ → ℕ
pred_u32 a = (a + 2 ^ 32 - 1) % 2 ^ 32

-- The tests of `cart_start`, for `n` tracks: the junctions of `reserve2` and `release2`, or none
-- where the thread just returns.
unfoldable pub claim : ℕ → ℕ → ℕ → Option (ℕ × ℕ)
claim n track junction =
    if track == junction
    then (if junction + 1 == n then some (junction, 0) else some (junction, junction + 1))
    else (if pred_u32 junction == track || (junction == 0 && track == pred_u32 n)
        then (if pred_u32 junction == 2 ^ 32 - 1
            then some (junction, pred_u32 n)
            else some (junction, pred_u32 junction))
        else none)

-- The layout: track `t` runs from junction `t` to the next one, round a circle of `n`.
abbrev pub next_junction : ℕ → ℕ → ℕ
next_junction n t = if t + 1 == n then 0 else t + 1

-- The other end of `track`, seen from `junction`.
abbrev pub opposite : ℕ → ℕ → ℕ → ℕ
opposite n track junction = if track == junction then next_junction n track else track

-- With at least two tracks, a cart at an end of its track claims that junction and the other end of
-- the track, two different junctions of the layout.
pub claim_lem :
    (n track junction : ℕ)
    → 2 ≤ n
    → n < 2 ^ 31
    → track < n
    → junction < n
    → (track ≡ junction) ⊎ (next_junction n track ≡ junction)
    → (claim n track junction ≡ some (junction, opposite n track junction))
      × (junction ≢ opposite n track junction)
      × (opposite n track junction < n)
unfolding claim
claim_lem n track junction two small t j ends = (ground arith, ground arith, ground arith)

-- A cart at a junction that is no end of its track claims nothing: its thread returns.
pub claim-none :
    (n track junction : ℕ)
    → 2 ≤ n
    → n < 2 ^ 31
    → track < n
    → junction < n
    → track ≢ junction
    → next_junction n track ≢ junction
    → claim n track junction ≡ none
unfolding claim
claim-none n track junction two small t j a b = ground arith

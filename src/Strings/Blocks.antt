-- ===== src/Strings/Blocks.antt =====
-- What memcpy and memmove copy.
use cse130_git.Prelude.{
  ℕ, zero, suc, ◌+◌, ◌-◌, ◌≡◌, ◌≤◌, ◌<◌, ◌⊎◌, inl, inr, some, Bool-cases, true, false, ◌&&◌, ltb,
  leb, ◌==◌, if◌then◌else◌, update, arith, refl, ◌∙◌,
}
use cse130_git.Strings.{Memory, checked, copy_up, copy_down, memmove}

-- The bytes of a block, with those that a block somewhere else had before, and the others as before.
abbrev pub Copied : Memory → Memory → (dst src size : ℕ) → Type 0
Copied m m' dst src size =
    (a : ℕ) → m' a ≡ (if leb dst a && ltb a (dst + size) then m (src + (a - dst)) else m a)

further :
    (dst src n : ℕ) → dst < src ⊎ src + suc n ≤ dst → dst + 1 < src + 1 ⊎ src + 1 + n ≤ dst + 1
further dst src n (inl h) = inl (omega (arith, h))
further dst src n (inr h) = inr (omega (arith, h))

pub copy_up_lem :
    (n : ℕ) (m : Memory) (dst src : ℕ)
    → dst < src ⊎ src + n ≤ dst
    → Copied m (copy_up m dst src n) dst src n
copy_up_lem zero m dst src h a = ground arith
copy_up_lem (suc n) m dst src h a =
    copy_up_lem n (update m dst (m src)) (dst + 1) (src + 1) (further dst src n h) a
    ∙ elim (Bool-cases (dst == a)) [
      | inl q ↦
          let w : leb (dst + 1) a && ltb a (dst + 1 + n) ≡ false = ground (arith, q) in
          let w' : leb dst a && ltb a (dst + suc n) ≡ true = ground (arith, q) in
          let e : src + (a - dst) ≡ src = ground (arith, q) in rw (w, w', q, e) refl
      | inr q ↦ elim (Bool-cases (leb (dst + 1) a && ltb a (dst + 1 + n))) [
        | inl w ↦
            let w' : leb dst a && ltb a (dst + suc n) ≡ true = ground (arith, w) in
            let miss : dst == src + 1 + (a - (dst + 1)) ≡ false = ground (arith, w, h) in
            let e : src + 1 + (a - (dst + 1)) ≡ src + (a - dst) = ground (arith, w) in
            rw (w, w', miss, e) refl
        | inr w ↦
            let w' : leb dst a && ltb a (dst + suc n) ≡ false = ground (arith, w, q) in
            rw (w, w', q) refl
      ]
    ]

copy_down_lem :
    (n : ℕ) (m : Memory) (dst src : ℕ) → src ≤ dst → Copied m (copy_down m dst src n) dst src n
copy_down_lem zero m dst src h a = ground arith
copy_down_lem (suc n) m dst src h a =
    copy_down_lem n (update m (dst + n) (m (src + n))) dst src h a
    ∙ elim (Bool-cases (dst + n == a)) [
      | inl q ↦
          let w : leb dst a && ltb a (dst + n) ≡ false = ground (arith, q) in
          let w' : leb dst a && ltb a (dst + suc n) ≡ true = ground (arith, q) in
          let e : src + (a - dst) ≡ src + n = ground (arith, q) in rw (w, w', q, e) refl
      | inr q ↦ elim (Bool-cases (leb dst a && ltb a (dst + n))) [
        | inl w ↦
            let w' : leb dst a && ltb a (dst + suc n) ≡ true = ground (arith, w) in
            let miss : dst + n == src + (a - dst) ≡ false = ground (arith, w, h) in
            rw (w, w', miss) refl
        | inr w ↦
            let w' : leb dst a && ltb a (dst + suc n) ≡ false = ground (arith, w, q) in
            rw (w, w', q) refl
      ]
    ]

-- `memmove` between addresses that are not NULL copies the block to its new place, whether the two overlap
-- or not, and leaves the rest; it returns the place if that is not below the old one, and the end of the
-- block otherwise.
pub memmove_lem :
    (m : Memory) (dst src size : ℕ)
    → 0 < dst
    → 0 < src
    → (m' : Memory) × (memmove m dst src size ≡ some (if ltb dst src then dst + size else dst, m')
        × Copied m m' dst src size)
unfolding memmove
memmove_lem m dst src size d s =
    let c : checked dst src size ≡ true = ground (arith, d, s) in
    elim (Bool-cases (ltb dst src)) [
      | inl b ↦
          rw (memmove, c, b)
            (copy_up m dst src size, (refl, copy_up_lem size m dst src (inl (ground (arith, b)))))
      | inr b ↦
          rw (memmove, c, b)
            (copy_down m dst src size, (refl, copy_down_lem size m dst src (ground (arith, b))))
    ]

-- ===== src/Strings/Copies.antt =====
-- Strings in memory, and what strlcpy makes of them.
use cse130_git.Prelude.{
  ℕ, zero, suc, ◌+◌, ◌-◌, ◌≡◌, ◌≢◌, ◌≤◌, ◌<◌, ◌⊎◌, inl, inr, some, List, [], ◌∷◌, Bool-cases, true,
  false, ◌&&◌, ltb, leb, ◌==◌, length, take, take-all, update, arith, refl, sym, ◌∙◌,
}
use cse130_git.Strings.{Memory, checked, copy_up, memcpy, length_from, strlen, shorter, strlcpy}
use cse130_git.Strings.Blocks.{Copied, copy_up_lem}

-- The bytes of a string, of which none is 0, and a final 0.
abbrev pub StringAt : Memory → ℕ → List ℕ → Type 0
StringAt m p [] = m p ≡ 0
StringAt m p (c ∷ cs) = (m p ≡ c × c ≢ 0) × StringAt m (p + 1) cs

length_from_lem :
    (w : List ℕ) (fuel : ℕ) (m : Memory) (p : ℕ)
    → StringAt m p w
    → length w < fuel
    → length_from fuel m p ≡ some (length w)
length_from_lem w zero m p s h = absurd (omega (arith, h))
length_from_lem [] (suc fuel) m p s h = rw (s) refl
length_from_lem (c ∷ cs) (suc fuel) m p s h =
    let more : c == 0 ≡ false = ground (arith, s.0.1) in
    rw (s.0.0, more) (rw (length_from_lem cs fuel m (p + 1) s.1 (omega (arith, h))) refl)

take-shorter : (k : ℕ) (w : List ℕ) → take (shorter (length w) k) w ≡ take k w
take-shorter k w = elim (Bool-cases (ltb (length w) k)) [
  | inl h ↦ rw (h) (take-all (length w) w (omega arith) ∙ sym (take-all k w (ground (arith, h))))
  | inr h ↦ rw (h) refl
]

-- A part of a string that is copied and ended is a string.
pub part_lem :
    (n : ℕ) (w : List ℕ) (m m' : Memory) (p q : ℕ)
    → StringAt m q w
    → n ≤ length w
    → ((k : ℕ) → k < n → m' (p + k) ≡ m (q + k))
    → m' (p + n) ≡ 0
    → StringAt m' p (take n w)
part_lem zero w m m' p q s h f z = let e : p + 0 ≡ p = omega arith in rw (e) at z
part_lem (suc n) [] m m' p q s h f z = absurd (omega (arith, h))
part_lem (suc n) (c ∷ cs) m m' p q s h f z =
    let e : p + 0 ≡ p = omega arith in
    let e' : q + 0 ≡ q = omega arith in
    let first : m' p ≡ m q = rw (e, e') at (f 0 (omega arith)) in
    let last : p + suc n ≡ p + 1 + n = omega arith in
    (
      (first ∙ s.0.0, s.0.1),
      part_lem n cs m m' (p + 1) (q + 1) s.1 (omega (arith, h))
          (λ k l.
            let i : p + suc k ≡ p + 1 + k = omega arith in
            let j : q + suc k ≡ q + 1 + k = omega arith in
            rw (i, j) at (f (suc k) (omega (arith, l))))
          (rw (last) at z),
    )

nearer : (dst src l n : ℕ) → n ≤ l → dst < src ⊎ src + l ≤ dst → dst < src ⊎ src + n ≤ dst
nearer dst src l n h (inl a) = inl a
nearer dst src l n h (inr b) = inr (omega (arith, h, b))

-- A copied block with a 0 behind it: what it holds, its end, and what stays.
ended_copy-holds :
    (m up : Memory) (dst src n : ℕ)
    → Copied m up dst src n
    → (k : ℕ) → k < n
    → update up (dst + n) 0 (dst + k) ≡ m (src + k)
ended_copy-holds m up dst src n copied k h =
    let miss : dst + n == dst + k ≡ false = ground (arith, h) in
    let inside : leb dst (dst + k) && ltb (dst + k) (dst + n) ≡ true = ground (arith, h) in
    let place : src + (dst + k - dst) ≡ src + k = omega arith in
    rw (miss) (rw (inside, place) at (copied (dst + k)))

ended_copy-ends : (up : Memory) (p : ℕ) → update up p 0 p ≡ 0
ended_copy-ends up p = let hit : p == p ≡ true = ground arith in rw (hit) refl

ended_copy-keeps :
    (m up : Memory) (dst src n size : ℕ)
    → Copied m up dst src n
    → n < size
    → (a : ℕ) → a < dst ⊎ dst + size ≤ a
    → update up (dst + n) 0 a ≡ m a
ended_copy-keeps m up dst src n size copied h a (inl l) =
    let miss : dst + n == a ≡ false = ground (arith, l) in
    let outside : leb dst a && ltb a (dst + n) ≡ false = ground (arith, l) in
    rw (miss) (rw (outside) at (copied a))
ended_copy-keeps m up dst src n size copied h a (inr l) =
    let miss : dst + n == a ≡ false = ground (arith, l, h) in
    let outside : leb dst a && ltb a (dst + n) ≡ false = ground (arith, l, h) in
    rw (miss) (rw (outside) at (copied a))

-- `strlcpy` of a string to a buffer of a size that is not 0, below it or behind it, ends with fuel above the
-- string's length. It returns this length and leaves in the buffer the string, cut to one byte less than
-- the size, with its 0; behind the size and before the buffer nothing changes.
pub strlcpy_lem :
    (fuel : ℕ) (m : Memory) (dst src size : ℕ) (w : List ℕ)
    → StringAt m src w
    → length w < fuel
    → 0 < dst
    → 0 < src
    → 0 < size
    → dst < src ⊎ src + length w ≤ dst
    → (m' : Memory) × (strlcpy fuel m dst src size ≡ some (length w, m')
        × (StringAt m' dst (take (size - 1) w) × ((a : ℕ) → a < dst ⊎ dst + size ≤ a → m' a ≡ m a)))
unfolding strlcpy memcpy
strlcpy_lem fuel m dst src size w s enough d r room apart =
    let n = shorter (length w) (size - 1) in
    let n_len : n ≤ length w = ground arith in
    let n_size : n ≤ size - 1 = ground arith in
    let d0 : dst == 0 ≡ false = ground (arith, d) in
    let r0 : src == 0 ≡ false = ground (arith, r) in
    let z0 : size == 0 ≡ false = ground (arith, room) in
    let c : checked dst src n ≡ true = ground (arith, d, r) in
    let up = copy_up m dst src n in
    let copied = copy_up_lem n m dst src (nearer dst src (length w) n n_len apart) in
    let m' = update up (dst + n) 0 in
    (
      m',
      (
        rw (strlcpy, d0, strlen, r0, length_from_lem w fuel m src s enough)
            (rw (z0) (rw (memcpy, c) refl)),
        (
          rw (sym (take-shorter (size - 1) w)) (
              part_lem n w m m' dst src s n_len (ended_copy-holds m up dst src n copied)
                (ended_copy-ends up (dst + n))),
          ended_copy-keeps m up dst src n size copied (omega (arith, n_size, room)),
        ),
      ),
    )

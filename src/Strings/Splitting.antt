-- ===== src/Strings/Splitting.antt =====
-- What strtok_r cuts off a string.
use mathlib.Core.List.{append-nil}
use mathlib.Core.Path.{subst}
use cse130_git.Prelude.{
  ℕ, zero, suc, ◌+◌, ◌≡◌, ◌≢◌, ◌<◌, ◌≤◌, some, List, [], ◌∷◌, ◌++◌, All, Bool, true, false, ◌||◌,
  ◌==◌, length, tail, take-append, length-append, update, arith, refl, ap, Bool-cases, inl, inr,
}
use cse130_git.Strings.{Memory}
use cse130_git.Strings.Copies.{StringAt, part_lem}
use cse130_git.Strings.Tokens.{
  find_from, found, skip_delimiters, token_end, cut, next_token, strtok_r,
}

-- Whether a character is of the set.
abbrev pub has : List ℕ → ℕ → Bool
has [] c = false
has (d ∷ ds) c = d == c || has ds c

-- A part of a line that ends, or goes on with a character of the set.
abbrev pub Breaks : List ℕ → List ℕ → Type 0
Breaks ds [] = Unit
Breaks ds (c ∷ cs) = has ds c ≡ true

find_from-hit :
    (ds : List ℕ) (fuel : ℕ) (m : Memory) (p c : ℕ)
    → StringAt m p ds
    → length ds < fuel
    → 0 < p
    → has ds c ≡ true
    → (q : ℕ) × (find_from fuel m p c ≡ some q × (q == 0) ≡ false)
find_from-hit ds zero m p c s h l t = absurd (omega (arith, h))
find_from-hit [] (suc fuel) m p c s h l t = absurd (ground (arith, t))
find_from-hit (d ∷ ds) (suc fuel) m p c s h l t = elim (Bool-cases (d == c)) [
  | inl e ↦ (p, (rw (s.0.0, e) refl, ground (arith, l)))
  | inr e ↦
      let more : d == 0 ≡ false = ground (arith, s.0.1) in
      let there : has ds c ≡ true = rw (e) at t in
      let r = find_from-hit ds fuel m (p + 1) c s.1 (omega (arith, h)) (omega arith) there in
      (r.0, (rw (s.0.0, e, more) r.1.0, r.1.1))
]

find_from-miss :
    (ds : List ℕ) (fuel : ℕ) (m : Memory) (p c : ℕ)
    → StringAt m p ds
    → length ds < fuel
    → c ≢ 0
    → has ds c ≡ false
    → find_from fuel m p c ≡ some 0
find_from-miss ds zero m p c s h z t = absurd (omega (arith, h))
find_from-miss [] (suc fuel) m p c s h z t =
    let other : 0 == c ≡ false = ground (arith, z) in rw (s, other) refl
find_from-miss (d ∷ ds) (suc fuel) m p c s h z t = elim (Bool-cases (d == c)) [
  | inl e ↦ absurd (ground (arith, e, t))
  | inr e ↦
      let more : d == 0 ≡ false = ground (arith, s.0.1) in
      rw (s.0.0, e, more)
        (find_from-miss ds fuel m (p + 1) c s.1 (omega (arith, h)) z (rw (e) at t))
]

-- The final zero of the set is found.
find_from-zero :
    (ds : List ℕ) (fuel : ℕ) (m : Memory) (p : ℕ)
    → StringAt m p ds
    → length ds < fuel
    → 0 < p
    → (q : ℕ) × (find_from fuel m p 0 ≡ some q × (q == 0) ≡ false)
find_from-zero ds zero m p s h l = absurd (omega (arith, h))
find_from-zero [] (suc fuel) m p s h l = (p, (rw (s) refl, ground (arith, l)))
find_from-zero (d ∷ ds) (suc fuel) m p s h l =
    let more : d == 0 ≡ false = ground (arith, s.0.1) in
    let r = find_from-zero ds fuel m (p + 1) s.1 (omega (arith, h)) (omega arith) in
    (r.0, (rw (s.0.0, more) r.1.0, r.1.1))

StringAt-append :
    (a b : List ℕ) (m : Memory) (p : ℕ) → StringAt m p (a ++ b) → StringAt m (p + length a) b
StringAt-append [] b m p s = let e : p + 0 ≡ p = omega arith in rw (e) s
StringAt-append (c ∷ a) b m p s =
    let e : p + suc (length a) ≡ p + 1 + length a = omega arith in
    rw (e) (StringAt-append a b m (p + 1) s.1)

StringAt-below :
    (w : List ℕ) (m : Memory) (p at : ℕ) → at < p → StringAt m p w → StringAt (update m at 0) p w
StringAt-below [] m p at h s = let miss : at == p ≡ false = ground (arith, h) in rw (miss) s
StringAt-below (c ∷ w) m p at h s =
    let miss : at == p ≡ false = ground (arith, h) in
    ((rw (miss) s.0.0, s.0.1), StringAt-below w m (p + 1) at (omega (arith, h)) s.1)

skip_delimiters_lem :
    (pre w : List ℕ) (ds : List ℕ) (c fuel within : ℕ) (m : Memory) (d s : ℕ)
    → StringAt m s (pre ++ c ∷ w)
    → StringAt m d ds
    → length ds < within
    → 0 < d
    → All (λ x. has ds x ≡ true) pre
    → has ds c ≡ false
    → length pre < fuel
    → skip_delimiters fuel within m d s ≡ some (found (s + length pre))
skip_delimiters_lem pre w ds c zero within m d s l set i z p t h = absurd (omega (arith, h))
skip_delimiters_lem [] w ds c (suc fuel) within m d s l set i z p t h =
    let d0 : d == 0 ≡ false = ground (arith, z) in
    let e : s + 0 ≡ s = omega arith in
    rw (skip_delimiters, l.0.0, d0, find_from-miss ds within m d c set i l.0.1 t, e) refl
skip_delimiters_lem (x ∷ pre) w ds c (suc fuel) within m d s l set i z p t h =
    let d0 : d == 0 ≡ false = ground (arith, z) in
    let x0 : m s == 0 ≡ false = ground (arith, l.0.0, l.0.1) in
    let r = find_from-hit ds within m d x set i z p.0 in
    let e : s + suc (length pre) ≡ s + 1 + length pre = omega arith in
    rw (skip_delimiters, l.0.0, d0, r.1.0, r.1.1, x0, e)
      (skip_delimiters_lem pre w ds c fuel within m d (s + 1) l.1 set i z p.1 t (omega (arith, h)))

token_end_lem :
    (tok rest : List ℕ) (ds : List ℕ) (fuel within : ℕ) (m : Memory) (d s : ℕ)
    → StringAt m s (tok ++ rest)
    → StringAt m d ds
    → length ds < within
    → 0 < d
    → All (λ x. has ds x ≡ false) tok
    → Breaks ds rest
    → length tok < fuel
    → token_end fuel within m d s ≡ some (s + length tok)
token_end_lem tok rest ds zero within m d s l set i z p t h = absurd (omega (arith, h))
token_end_lem [] [] ds (suc fuel) within m d s l set i z p t h =
    let d0 : d == 0 ≡ false = ground (arith, z) in
    let e : s + 0 ≡ s = omega arith in
    let r = find_from-zero ds within m d set i z in rw (token_end, l, d0, r.1.0, r.1.1, e) refl
token_end_lem [] (x ∷ rest) ds (suc fuel) within m d s l set i z p t h =
    let d0 : d == 0 ≡ false = ground (arith, z) in
    let e : s + 0 ≡ s = omega arith in
    let r = find_from-hit ds within m d x set i z t in
    rw (token_end, l.0.0, d0, r.1.0, r.1.1, e) refl
token_end_lem (x ∷ tok) rest ds (suc fuel) within m d s l set i z p t h =
    let d0 : d == 0 ≡ false = ground (arith, z) in
    let e : s + suc (length tok) ≡ s + 1 + length tok = omega arith in
    rw (token_end, l.0.0, d0, find_from-miss ds within m d x set i l.0.1 p.0, e)
      (token_end_lem tok rest ds fuel within m d (s + 1) l.1 set i z p.1 t (omega (arith, h)))

-- Cutting behind a token ends it, and leaves what follows the character there.
cut_lem :
    (tok rest : List ℕ) (m : Memory) (p : ℕ)
    → StringAt m p (tok ++ rest)
    → (saved : ℕ) × (m' : Memory) × (cut m p (p + length tok) ≡ (p, saved, m')
        × (StringAt m' p tok × StringAt m' saved (tail rest)))
cut_lem tok [] m p s =
    let end : StringAt m (p + length tok) [] = StringAt-append tok [] m p s in
    (p + length tok, m, (rw (end) refl, (subst (StringAt m p) (append-nil tok) s, end)))
cut_lem tok (c ∷ rest) m p s =
    let n = length tok in
    let end : StringAt m (p + n) (c ∷ rest) = StringAt-append tok (c ∷ rest) m p s in
    let more : m (p + n) == 0 ≡ false = ground (arith, end.0.0, end.0.1) in
    let m' = update m (p + n) 0 in
    let hit : p + n == p + n ≡ true = ground arith in
    let same : (k : ℕ) → k < n → m' (p + k) ≡ m (p + k) =
      λ k h. let miss : p + n == p + k ≡ false = ground (arith, h) in rw (miss) refl in
    let size : n ≤ length (tok ++ c ∷ rest) = omega (arith, length-append tok (c ∷ rest)) in
    (
      p + n + 1,
      m',
      (
        rw (more) refl,
        (
          subst (StringAt m' p) (take-append tok (c ∷ rest))
              (part_lem n (tok ++ c ∷ rest) m m' p p s size same (rw (hit) refl)),
          StringAt-below rest m (p + n + 1) (p + n) (omega arith) end.1,
        ),
      ),
    )

-- In a string of delimiters, a word without them, and a rest that is empty or begins with a delimiter,
-- `strtok_r` comes to an end, with fuel above the lengths of these parts and of the set. It returns the
-- place of the word, which is now a string of its own, and saves that of the string that follows the
-- delimiter behind the word.
pub strtok_r_lem :
    (fuel : ℕ) (m : Memory) (s d saved : ℕ) (ds pre : List ℕ) (c : ℕ) (word rest : List ℕ)
    → StringAt m s (pre ++ c ∷ (word ++ rest))
    → StringAt m d ds
    → 0 < s
    → 0 < d
    → All (λ x. has ds x ≡ true) pre
    → All (λ x. has ds x ≡ false) (c ∷ word)
    → Breaks ds rest
    → length pre < fuel
    → length (c ∷ word) < fuel
    → length ds < fuel
    → (next : ℕ) × (m' : Memory) × (strtok_r fuel m s d saved ≡ some (s + length pre, next, m')
        × (StringAt m' (s + length pre) (c ∷ word) × StringAt m' next (tail rest)))
strtok_r_lem fuel m s d saved ds pre c word rest l set s_at d_at p t b h k i =
    let s0 : s == 0 ≡ false = ground (arith, s_at) in
    let d0 : d == 0 ≡ false = ground (arith, d_at) in
    let here = StringAt-append pre (c ∷ (word ++ rest)) m s l in
    let r = cut_lem (c ∷ word) rest m (s + length pre) here in
    let skipped =
      skip_delimiters_lem pre (word ++ rest) ds c fuel fuel m d s l set i d_at p t.0 h in
    let stopped =
      token_end_lem (c ∷ word) rest ds fuel fuel m d (s + length pre) here set i d_at t b k in
    (r.0, r.1, (rw (strtok_r, s0, d0, s0, next_token, skipped, stopped) (ap some r.2.0), r.2.1))

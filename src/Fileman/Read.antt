-- ===== src/Fileman/Read.antt =====
-- What `fileman_read` and `fileman_copy` read of a file.
use Prim.Native.String.{String}
use cse130_git.Prelude.{
  ℕ, zero, suc, ◌+◌, ◌≡◌, Option-cases, inl, inr, refl, ap, none, some, List, [], ◌∷◌, true, ◌==◌,
  if◌then◌else◌, length, take, update, arith, Bool-cases, drop,
}
use cse130_git.Fileman.Bytes.{Stream, fgetc, eof, before_eof, store}
use cse130_git.Fileman.Files.{
  Files, put, failure, open_stream, skip, fill, fileman_read, copy_loop, fileman_copy,
}

-- The state of the loops at the bytes `bs`: the first is read already.
abbrev at_bytes : List ℕ → ℕ → ℕ × Stream
at_bytes bs pos = fgetc (record { rest = bs; pos = pos })

abbrev got : ℕ → ℕ → List ℕ → List ℕ
got n m bs = take m (drop n (before_eof bs))

fill-eof : (m : ℕ) (s : Stream) (buf : ℕ → ℕ) (at ind : ℕ) → fill m eof s buf at ind ≡ (ind, buf)
unfolding fill
fill-eof zero s buf at ind = refl
fill-eof (suc m) s buf at ind = refl

fill-eof_test :
    (m c : ℕ) (s : Stream) (buf : ℕ → ℕ) (at : ℕ) → c == eof ≡ true → fill m c s buf at 0 ≡ (0, buf)
unfolding fill
fill-eof_test zero c s buf at e = refl
fill-eof_test (suc m) c s buf at e = rw (fill, e) refl

-- From `ind` characters on, the buffer takes what is left before the end, up to its size.
fill_lem :
    (m : ℕ) (bs : List ℕ) (pos : ℕ) (buf : ℕ → ℕ) (at ind : ℕ)
    → let (c, s) = at_bytes bs pos in
      let out = take m (before_eof bs) in
      fill m c s buf at ind ≡ (ind + length out, store buf (at + ind) out)
unfolding fill fgetc
fill_lem zero [] pos buf at ind = let e : ind + 0 ≡ ind = omega arith in rw e refl
fill_lem zero (b ∷ bs) pos buf at ind = let e : ind + 0 ≡ ind = omega arith in rw e refl
fill_lem (suc m) [] pos buf at ind = let e : ind + 0 ≡ ind = omega arith in rw e refl
fill_lem (suc m) (b ∷ bs) pos buf at ind = elim (Bool-cases (b == eof)) [
  | inl e ↦ let z : ind + 0 ≡ ind = omega arith in rw (fill, e, z) refl
  | inr e ↦
      let out = take m (before_eof bs) in
      let f : at + (ind + 1) ≡ at + ind + 1 = omega arith in
      let g : ind + 1 + length out ≡ ind + suc (length out) = omega arith in
      rw (fill, e) (rw (f, g) at (fill_lem m bs (pos + 1) (update buf (at + ind) b) at (ind + 1)))
]

take-nil : (m : ℕ) → take {A = ℕ} m [] ≡ []
take-nil zero = refl
take-nil (suc m) = refl

-- Both loops, for `n` characters to skip and room for `m`.
read_lem :
    (n m : ℕ) (bs : List ℕ) (pos : ℕ) (buf : ℕ → ℕ) (at : ℕ)
    → let (c, s) = at_bytes bs pos in
      let (c', s') = skip n c s in
      fill m c' s' buf at 0 ≡ (length (got n m bs), store buf at (got n m bs))
unfolding skip fgetc
read_lem zero m bs pos buf at =
    let e : at + 0 ≡ at = omega arith in
    let f : 0 + length (got 0 m bs) ≡ length (got 0 m bs) = omega arith in
    rw (e, f) at (fill_lem m bs pos buf at 0)
read_lem (suc n) m [] pos buf at =
    rw (take-nil m) (fill-eof m (record { rest = []; pos = pos }) buf at 0)
read_lem (suc n) m (b ∷ bs) pos buf at = elim (Bool-cases (b == eof)) [
  | inl e ↦
      rw (skip, e, take-nil m) (fill-eof_test m b (record { rest = bs; pos = pos + 1 }) buf at e)
  | inr e ↦ rw (skip, e) (read_lem n m bs (pos + 1) buf at)
]

-- `fileman_read` of a missing file fails and leaves the buffer. Of a file it reads the bytes that stand
-- before the first byte of 255, from the offset on, as many as there are and at most the size, stores
-- them in the buffer from its offset on, and returns how many they are.
pub fileman_read_lem :
    (fs : Files) (fname : String) (foffset : ℕ) (buf : ℕ → ℕ) (boffset size : ℕ)
    → fileman_read fs fname foffset buf boffset size ≡ elim (fs fname) [
      | none ↦ (failure, buf)
      | some bytes ↦
          let got = take size (drop foffset (before_eof bytes)) in
          (length got, store buf boffset got)
    ]
unfolding fileman_read
fileman_read_lem fs fname foffset buf boffset size = elim (Option-cases (fs fname)) [
  | inl e ↦ rw (fileman_read, e) refl
  | inr (bytes, e) ↦ rw (fileman_read, e) (read_lem foffset size bytes 0 buf boffset)
]

abbrev pub has_eof : List ℕ → ℕ
has_eof [] = 0
has_eof (b ∷ bs) = let rest = has_eof bs in if b == eof then 1 else rest

copy_lem :
    (b : ℕ) (bs : List ℕ) (pos : ℕ)
    → copy_loop b bs (pos + 1)
      ≡ (before_eof (b ∷ bs), pos + length (before_eof (b ∷ bs)) + has_eof (b ∷ bs))
unfolding copy_loop
copy_lem b [] pos = elim (Bool-cases (b == eof)) [
  | inl e ↦ let z : pos + 0 + 1 ≡ pos + 1 = omega arith in rw (e, z) refl
  | inr e ↦ let z : pos + 1 + 0 ≡ pos + 1 = omega arith in rw (e, z) refl
]
copy_lem b (c ∷ bs) pos = elim (Bool-cases (b == eof)) [
  | inl e ↦ let z : pos + 0 + 1 ≡ pos + 1 = omega arith in rw (copy_loop, e, z) refl
  | inr e ↦
      let n = length (before_eof (c ∷ bs)) in
      let z : pos + 1 + n + has_eof (c ∷ bs) ≡ pos + suc n + has_eof (c ∷ bs) = omega arith in
      rw (e, copy_lem c bs (pos + 1)) (ap (λ x. (b ∷ before_eof (c ∷ bs), x)) z)
]

-- `fileman_copy` fails, and changes nothing, where the source is missing or the destination is there.
-- Otherwise it makes the destination of the bytes of the source before the first byte of 255, and returns
-- how many bytes it has read, that byte included.
pub fileman_copy_lem :
    (fs : Files) (fsrc fdest : String)
    → fileman_copy fs fsrc fdest ≡ elim (fs fdest) [
      | some old ↦ (failure, fs)
      | none ↦ elim (fs fsrc) [
        | none ↦ (failure, fs)
        | some bytes ↦ (length (before_eof bytes) + has_eof bytes, put fs fdest (before_eof bytes))
      ]
    ]
unfolding fileman_copy copy_loop fgetc
fileman_copy_lem fs fsrc fdest = elim (Option-cases (fs fdest)) [
  | inr (old, e) ↦ rw (fileman_copy, e) refl
  | inl e ↦ elim (Option-cases (fs fsrc)) [
    | inl f ↦ rw (fileman_copy, e, f) refl
    | inr (bytes, f) ↦ rw (fileman_copy, e, f) (copied bytes)
  ]
]
  where
    copied :
        (bytes : List ℕ)
        → let (c, s) = fgetc (open_stream bytes) in
          let (out, end) = copy_loop c s.rest s.pos in
          ◌≡◌ {A = ℕ × Files}
            (end, put fs fdest out)
            (length (before_eof bytes) + has_eof bytes, put fs fdest (before_eof bytes))
    copied [] = refl
    copied (b ∷ bs) =
        let z : 0 + length (before_eof (b ∷ bs)) ≡ length (before_eof (b ∷ bs)) = omega arith in
        rw (copy_lem b bs 0, z) refl

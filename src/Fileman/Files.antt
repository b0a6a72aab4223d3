-- ===== src/Fileman/Files.antt =====
-- fileman_read, fileman_write, fileman_append and fileman_copy, over the files of the machine by name.
use Prim.Native.String.{String}
use cse130_git.Fileman.Names.{same_name}
use cse130_git.Prelude.{
  ℕ, zero, suc, ◌+◌, ◌-◌, ◌^◌, Option, none, some, List, [], ◌∷◌, ◌++◌, true, false, leb, ◌==◌,
  if◌then◌else◌, update, bytes_of, zeros,
}
use cse130_git.Fileman.Bytes.{Stream, fgetc, eof}

-- `(size_t) -1`.
abbrev pub failure : ℕ
failure = 2 ^ 64 - 1

abbrev pub Files : Type 0
Files = String → Option (List ℕ)

abbrev pub put : Files → String → List ℕ → Files
put fs name bytes other = if same_name name other then some bytes else fs other

abbrev pub open_stream : List ℕ → Stream
open_stream bytes = record { rest = bytes; pos = 0 }

-- The first loop of `fileman_read`, for the `n` characters that are left to skip.
unfoldable pub skip : ℕ → ℕ → Stream → ℕ × Stream
skip zero c s = (c, s)
skip (suc n) c s = elim (c == eof) [
  | true ↦ (c, s)
  | false ↦ let (c', s') = fgetc s in skip n c' s'
]

-- The second loop, for the `n` characters that the buffer still takes: the characters read in all, and
-- the buffer.
unfoldable pub fill : ℕ → ℕ → Stream → (ℕ → ℕ) → ℕ → ℕ → ℕ × (ℕ → ℕ)
fill zero c s buf boffset ind = (ind, buf)
fill (suc n) c s buf boffset ind = elim (c == eof) [
  | true ↦ (ind, buf)
  | false ↦ let (c', s') = fgetc s in fill n c' s' (update buf (boffset + ind) c) boffset (ind + 1)
]

unfoldable pub fileman_read :
    Files → String → (foffset : ℕ) → (ℕ → ℕ) → (boffset size : ℕ) → ℕ × (ℕ → ℕ)
fileman_read fs fname foffset buf boffset size = elim (fs fname) [
  | none ↦ (failure, buf)
  | some bytes ↦
      let (c, s) = fgetc (open_stream bytes) in
      let (c', s') = skip foffset c s in fill size c' s' buf boffset 0
]

-- `fseek` refuses an offset that is negative as a `long`; `fwrite` behind the end of a file fills the
-- gap with zeros, and changes nothing when it writes nothing.
unfoldable pub fileman_write :
    Files → String → (foffset : ℕ) → (ℕ → ℕ) → (boffset size : ℕ) → ℕ × Files
fileman_write fs fname foffset buf boffset size = elim (fs fname) [
  | some bytes ↦ (failure, fs)
  | none ↦
      if leb (2 ^ 63) foffset
      then (failure, put fs fname [])
      else (if size == 0
          then (0, put fs fname [])
          else (size, put fs fname (zeros foffset ++ bytes_of buf boffset size)))
]

unfoldable pub fileman_append : Files → String → (ℕ → ℕ) → ℕ → ℕ × Files
fileman_append fs fname buf size = elim (fs fname) [
  | none ↦ (failure, fs)
  | some bytes ↦ (size, put fs fname (bytes ++ bytes_of buf 0 size))
]

-- The loop of `fileman_copy`, with the character read and the bytes that are left: the bytes written, and
-- the place in the source.
unfoldable pub copy_loop : ℕ → List ℕ → ℕ → List ℕ × ℕ
copy_loop c [] pos = if c == eof then ([], pos) else (c ∷ [], pos)
copy_loop c (b ∷ bs) pos =
    let (out, end) = copy_loop b bs (pos + 1) in if c == eof then ([], pos) else (c ∷ out, end)

unfoldable pub fileman_copy : Files → (fsrc fdest : String) → ℕ × Files
fileman_copy fs fsrc fdest = elim (fs fdest) [
  | some old ↦ (failure, fs)
  | none ↦ elim (fs fsrc) [
    | none ↦ (failure, fs)
    | some bytes ↦
        let (c, s) = fgetc (open_stream bytes) in
        let (out, end) = copy_loop c s.rest s.pos in (end, put fs fdest out)
  ]
]

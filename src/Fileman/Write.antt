-- ===== src/Fileman/Write.antt =====
-- `fileman_read` after `fileman_write` and `fileman_append`.
use Prim.Native.String.{String}
use cse130_git.Prelude.{
  All-append, take-append, ℕ, zero, suc, ◌^◌, ◌<◌, ◌≡◌, refl, ◌∙◌, none, some, List, [], ◌++◌,
  false, leb, ◌==◌, All, length, take, take-all, arith, bytes_of, drop, drop-append, drop-zeros,
  length-bytes_of, zeros,
}
use cse130_git.Fileman.Names.{same_name_refl}
use cse130_git.Fileman.Bytes.{eof, before_eof, store, before_eof-All, zeros-All}
use cse130_git.Fileman.Files.{Files, put, fileman_read, fileman_write, fileman_append}
use cse130_git.Fileman.Read.{fileman_read_lem}

read_back :
    (fs : Files) (fname : String) (bytes : List ℕ) (foffset : ℕ) (buf : ℕ → ℕ) (boffset size : ℕ)
    (got : List ℕ)
    → fs fname ≡ some bytes
    → take size (drop foffset (before_eof bytes)) ≡ got
    → length got ≡ size
    → fileman_read fs fname foffset buf boffset size ≡ (size, store buf boffset got)
read_back fs fname bytes foffset buf boffset size got e f g =
    fileman_read_lem fs fname foffset buf boffset size ∙ rw (e, f, g) refl

put-same : (fs : Files) (fname : String) (bytes : List ℕ) → put fs fname bytes fname ≡ some bytes
put-same fs fname bytes = rw (same_name_refl fname) refl

gap_lem :
    (n size : ℕ) (bs : List ℕ)
    → All (λ b. b < eof) bs
    → length bs ≡ size
    → take size (drop n (before_eof (zeros n ++ bs))) ≡ bs
gap_lem n size bs h e =
    rw
      (
        before_eof-All (zeros n ++ bs) (All-append (λ b. b < eof) (zeros n) bs (zeros-All n) h),
        drop-zeros n bs,
      )
      (take-all size bs (omega (arith, e)))

-- A file that is made at an offset that `fseek` takes, of bytes of which none is 255, gives them back: a
-- read of as many bytes at that offset returns how many they are, and stores them in the buffer.
pub write-read :
    (fs : Files) (fname : String) (foffset : ℕ) (buf : ℕ → ℕ) (boffset size : ℕ) (buf' : ℕ → ℕ)
    (boffset' : ℕ)
    → fs fname ≡ none
    → foffset < 2 ^ 63
    → All (λ b. b < eof) (bytes_of buf boffset size)
    → let (w, fs') = fileman_write fs fname foffset buf boffset size in
      w ≡ size
      × fileman_read fs' fname foffset buf' boffset' size
        ≡ (size, store buf' boffset' (bytes_of buf boffset size))
unfolding fileman_write
write-read fs fname foffset buf boffset zero buf' boffset' absent low plain =
    let ok : leb (2 ^ 63) foffset ≡ false = ground (arith, low) in
    rw (fileman_write, absent, ok)
      (
        refl,
        read_back (put fs fname []) fname [] foffset buf' boffset' 0 [] (put-same fs fname []) refl
            refl,
      )
write-read fs fname foffset buf boffset (suc n) buf' boffset' absent low plain =
    let bs = bytes_of buf boffset (suc n) in
    let ok : leb (2 ^ 63) foffset ≡ false = ground (arith, low) in
    let some_bytes : suc n == 0 ≡ false = ground arith in
    let bytes = zeros foffset ++ bs in
    let len = length-bytes_of buf boffset (suc n) in
    rw (fileman_write, absent, ok, some_bytes)
      (
        refl,
        read_back (put fs fname bytes) fname bytes foffset buf' boffset' (suc n) bs
            (put-same fs fname bytes) (gap_lem foffset (suc n) bs plain len) len,
      )

-- `fileman_append` to a file that is there keeps its bytes, and a read from their end gives the new ones,
-- where none of all these is 255.
pub append-read :
    (fs : Files) (fname : String) (bytes : List ℕ) (buf : ℕ → ℕ) (size : ℕ) (buf' : ℕ → ℕ)
    (boffset' : ℕ)
    → fs fname ≡ some bytes
    → All (λ b. b < eof) bytes
    → All (λ b. b < eof) (bytes_of buf 0 size)
    → let (w, fs') = fileman_append fs fname buf size in
      w ≡ size
      × (fileman_read fs' fname 0 buf' boffset' (length bytes)
            ≡ (length bytes, store buf' boffset' bytes)
          × fileman_read fs' fname (length bytes) buf' boffset' size
            ≡ (size, store buf' boffset' (bytes_of buf 0 size)))
unfolding fileman_append
append-read fs fname bytes buf size buf' boffset' there plain plain' =
    let bs = bytes_of buf 0 size in
    let all = bytes ++ bs in
    let len = length-bytes_of buf 0 size in
    let same = put-same fs fname all in
    let whole = before_eof-All all (All-append (λ b. b < eof) bytes bs plain plain') in
    rw (fileman_append, there)
      (
        refl,
        (
          read_back (put fs fname all) fname all 0 buf' boffset' (length bytes) bytes same
              (rw (whole) (take-append bytes bs)) refl,
          read_back (put fs fname all) fname all (length bytes) buf' boffset' size bs same
              (rw (whole, drop-append bytes bs) (take-all size bs (omega (arith, len)))) len,
        ),
      )

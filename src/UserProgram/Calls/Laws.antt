-- ===== src/UserProgram/Calls/Laws.antt =====
-- What the system calls do.
use cse130_git.Prelude.{
  ℕ, suc, ◌+◌, ◌-◌, ◌%◌, ◌^◌, ◌≡◌, ◌<◌, some, List, [], ◌∷◌, ◌++◌, true, ltb, All, length, arith,
  refl, ap, ◌∙◌,
}
use cse130_git.UserProgram.Stack.{word32}
use cse130_git.UserProgram.Calls.{
  phys_base, Memory, plus32, umem_get, umem_check, umem_read_from, umem_read, value_of, read_word,
  returns, putbuf, sys_write, write_handler, syscall_handler,
}

-- The bytes of a list stand at addresses of the user from `buffer` on.
abbrev pub UserBytes : Memory → ℕ → List ℕ → Type 0
UserBytes memory buffer [] = Unit
UserBytes memory buffer (b ∷ bs) =
    (buffer < phys_base × memory buffer ≡ some b) × UserBytes memory (buffer + 1) bs

putbuf_lem :
    (bs : List ℕ) (memory : Memory) (buffer : ℕ)
    → UserBytes memory buffer bs
    → putbuf memory buffer (length bs) ≡ some bs
unfolding putbuf
putbuf_lem [] memory buffer h = refl
putbuf_lem (b ∷ bs) memory buffer h =
    let next : plus32 buffer 1 ≡ buffer + 1 = omega (arith, h.0.0) in
    rw (putbuf, h.0.1) (rw (next, putbuf_lem bs memory (buffer + 1) h.1) refl)

-- An address of the user passes the check.
umem_check_lem :
    (b : ℕ) (memory : Memory) (uaddr : ℕ)
    → uaddr < phys_base
    → memory uaddr ≡ some b
    → umem_check memory uaddr ≡ true
umem_check_lem b memory uaddr low e =
    let low' : ltb uaddr phys_base ≡ true = ground (arith, low) in
    rw (umem_check, umem_get, low', e) refl

last_lem :
    (b : ℕ) (bs : List ℕ) (memory : Memory) (buffer : ℕ)
    → UserBytes memory buffer (b ∷ bs)
    → umem_check memory (buffer + length bs) ≡ true × buffer + length bs < phys_base
last_lem b [] memory buffer h =
    let e : buffer + 0 ≡ buffer = omega arith in
    rw (e) (umem_check_lem b memory buffer h.0.0 h.0.1, h.0.0)
last_lem b (c ∷ bs) memory buffer h =
    let e : buffer + suc (length bs) ≡ buffer + 1 + length bs = omega arith in
    rw (e) (last_lem c bs memory (buffer + 1) h.1)

sys_write_lem :
    (b : ℕ) (bs : List ℕ) (memory : Memory) (buffer : ℕ)
    → UserBytes memory buffer (b ∷ bs)
    → sys_write memory 1 buffer (length (b ∷ bs)) ≡ returns (b ∷ bs) (length (b ∷ bs))
sys_write_lem b bs memory buffer h =
    let last = last_lem b bs memory buffer h in
    let e : plus32 buffer (suc (length bs) + 2 ^ 32 - 1) ≡ buffer + length bs =
      omega (arith, last.1) in
    rw (umem_check_lem b memory buffer h.0.0 h.0.1, e, last.0, putbuf_lem (b ∷ bs) memory buffer h)
      refl

umem_read_from_lem :
    (bs : List ℕ) (memory : Memory) (src i : ℕ)
    → All (λ b. b < 256) bs
    → UserBytes memory (src + i) bs
    → umem_read_from memory src i (length bs) ≡ some bs
unfolding umem_read_from
umem_read_from_lem [] memory src i bytes h = refl
umem_read_from_lem (b ∷ bs) memory src i bytes h =
    let low : ltb (src + i) phys_base ≡ true = ground (arith, h.0.0) in
    let at : plus32 src i ≡ src + i = omega (arith, h.0.0) in
    let next : src + i + 1 ≡ src + (i + 1) = omega arith in
    let small : b % 256 ≡ b = omega (arith, bytes.0) in
    let rest = umem_read_from_lem bs memory src (i + 1) bytes.1 (rw (next) at h.1) in
    rw (umem_read_from, at, umem_get, low, h.0.1) (rw (rest) (rw (small) refl))

-- A word of the stack is read back.
read_word_lem :
    (memory : Memory) (src x : ℕ)
    → x < 2 ^ 32
    → UserBytes memory src (word32 x)
    → read_word memory src ≡ some x
unfolding word32
read_word_lem memory src x low h =
    let e : src + 0 ≡ src = omega arith in
    let value : value_of (word32 x) ≡ x = omega (arith, low) in
    let bytes : All (λ b. b < 256) (word32 x) =
      (omega arith, (omega arith, (omega arith, (omega arith, tt)))) in
    let read : umem_read_from memory src 0 4 ≡ some (word32 x) =
      umem_read_from_lem (word32 x) memory src 0 bytes (rw (e) h) in
    rw (read_word, umem_read, read) (ap some value)

UserBytes-append :
    (xs ys : List ℕ) (memory : Memory) (a : ℕ)
    → UserBytes memory a (xs ++ ys)
    → UserBytes memory a xs × UserBytes memory (a + length xs) ys
UserBytes-append [] ys memory a h = let e : a + 0 ≡ a = omega arith in (tt, rw (e) h)
UserBytes-append (x ∷ xs) ys memory a h =
    let e : a + suc (length xs) ≡ a + 1 + length xs = omega arith in
    let rest = UserBytes-append xs ys memory (a + 1) h.1 in ((h.0, rest.0), rw (e) rest.1)

-- The first of two words, and the second further on.
two_words :
    (memory : Memory) (a x : ℕ) (ys : List ℕ)
    → x < 2 ^ 32
    → UserBytes memory a (word32 x ++ ys)
    → read_word memory a ≡ some x × UserBytes memory (a + 4) ys
unfolding word32
two_words memory a x ys low h =
    let parts = UserBytes-append (word32 x) ys memory a h in
    (read_word_lem memory a x low parts.0, parts.1)

first_low :
    (memory : Memory) (a x : ℕ) (ys : List ℕ) → UserBytes memory a (word32 x ++ ys) → a < phys_base
unfolding word32
first_low memory a x ys h = h.0.0

write_handler_lem :
    (memory : Memory) (esp fd buffer size : ℕ)
    → read_word memory (plus32 esp 4) ≡ some fd
    → read_word memory (plus32 esp 8) ≡ some buffer
    → read_word memory (plus32 esp 12) ≡ some size
    → write_handler memory esp ≡ sys_write memory fd buffer size
write_handler_lem memory esp fd buffer size a b c = rw (write_handler, a) (rw (b) (rw (c) refl))

-- A call of write, with its number, the standard output, a buffer and its size on the stack, prints the
-- bytes of the buffer, one at least, and returns how many they are, where stack and buffer are the
-- user's.
pub syscall_handler_writes :
    (memory : Memory) (esp buffer b : ℕ) (bs : List ℕ)
    → UserBytes memory esp (word32 9 ++ (word32 1 ++ (word32 buffer ++ word32 (length (b ∷ bs)))))
    → UserBytes memory buffer (b ∷ bs)
    → syscall_handler memory esp ≡ returns (b ∷ bs) (length (b ∷ bs))
unfolding syscall_handler
syscall_handler_writes memory esp buffer b bs stack user =
    let size = length (b ∷ bs) in
    let number =
      two_words memory esp 9 (word32 1 ++ (word32 buffer ++ word32 size)) (omega arith) stack in
    let fd = two_words memory (esp + 4) 1 (word32 buffer ++ word32 size) (omega arith) number.1 in
    let place =
      two_words memory (esp + 4 + 4) buffer (word32 size) (omega (arith, user.0.0)) fd.1 in
    let end = last_lem b bs memory buffer user in
    let last = read_word_lem memory (esp + 4 + 4 + 4) size (omega (arith, end.1)) place.1 in
    let low = first_low memory esp 9 (word32 1 ++ (word32 buffer ++ word32 size)) stack in
    let a : esp + 4 ≡ plus32 esp 4 = omega (arith, low) in
    let b' : esp + 4 + 4 ≡ plus32 esp 8 = omega (arith, low) in
    let c : esp + 4 + 4 + 4 ≡ plus32 esp 12 = omega (arith, low) in
    rw (syscall_handler, number.0)
      (write_handler_lem memory esp 1 buffer size (rw (a) at fd.0) (rw (b') at place.0)
          (rw (c) at last)
        ∙ sys_write_lem b bs memory buffer user)

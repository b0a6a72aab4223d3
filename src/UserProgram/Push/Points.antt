-- ===== src/UserProgram/Push/Points.antt =====
-- What a program finds on the stack that `push_command` leaves: argc, argv and its strings.
use cse130_git.Prelude.{
  ℕ, zero, suc, ◌+◌, ◌-◌, ◌*◌, ◌%◌, ◌^◌, ◌≡◌, ◌≤◌, ◌<◌, some, List, [], ◌∷◌, ◌++◌, length,
  length-append, take, take-append, drop, drop-append, drop-nil, drop-zeros, zeros, arith, refl, ap,
  sym, ◌∙◌,
}
use cse130_git.UserProgram.Stack.{Stack, word32}
use cse130_git.UserProgram.Push.{push_command}
use cse130_git.UserProgram.Push.Words.{arguments, strings, size, size-arguments}
use cse130_git.UserProgram.Push.Frame.{
  addresses, words32, padding, argv_of, frame, push_command_lem,
}

-- Each word, with its zero, stands at its place in the bytes from an address up.
unfoldable pub PointsTo : ℕ → List ℕ → List ℕ → List (List ℕ) → Type 0
PointsTo at bytes [] [] = Unit
PointsTo at bytes (a ∷ places) (w ∷ ws) =
    (at ≤ a × take (length w + 1) (drop (a - at) bytes) ≡ w ++ 0 ∷ []) × PointsTo at bytes places ws
PointsTo at bytes _ _ = ⊥

drop_add : (m n : ℕ) (xs : List ℕ) → drop (m + n) xs ≡ drop n (drop m xs)
drop_add zero n xs = let e : 0 + n ≡ n = omega arith in rw (e) refl
drop_add (suc m) n [] = let e : suc m + n ≡ suc (m + n) = omega arith in rw (e) (sym (drop-nil n))
drop_add (suc m) n (x ∷ xs) =
    let e : suc m + n ≡ suc (m + n) = omega arith in rw (e) (drop_add m n xs)

points_lem :
    (ws : List (List ℕ)) (base at : ℕ) (bytes : List ℕ)
    → at + size ws ≤ base
    → drop (base - size ws - at) bytes ≡ strings ws
    → PointsTo at bytes (addresses base ws) ws
unfolding PointsTo
points_lem [] base at bytes room e = tt
points_lem (w ∷ ws) base at bytes room e =
    let len : length (w ++ 0 ∷ []) ≡ length w + 1 = length-append w (0 ∷ []) in
    let next : base - size ws - at ≡ base - size (w ∷ ws) - at + (length w + 1) =
      omega (arith, room) in
    (
      (omega (arith, room), rw (e, sym len) (take-append (w ++ 0 ∷ []) (strings ws))),
      points_lem ws base at bytes (omega (arith, room)) (
          rw (next, drop_add (base - size (w ∷ ws) - at) (length w + 1) bytes, e, sym len)
            (drop-append (w ++ 0 ∷ []) (strings ws))),
    )

length-words32 :
    (base : ℕ) (ws : List (List ℕ)) → length (words32 (addresses base ws)) ≡ 4 * length ws
unfolding word32
length-words32 base [] = omega arith
length-words32 base (w ∷ ws) = omega (arith, length-words32 base ws)

-- The words stand behind the pointers, the null pointer and the gap.
drop-frame :
    (base : ℕ) (ws : List (List ℕ))
    → drop (12 + (4 * length ws + (4 + padding base ws))) (frame base ws).bytes ≡ strings ws
unfolding word32
drop-frame base ws =
    let pointers = words32 (addresses base ws) in
    let gap = zeros (padding base ws) ++ strings ws in
    drop_add 12 (4 * length ws + (4 + padding base ws)) (frame base ws).bytes
    ∙ drop_add (4 * length ws) (4 + padding base ws) (pointers ++ (word32 0 ++ gap))
    ∙ ap (drop (4 + padding base ws))
        (rw (sym (length-words32 base ws)) (drop-append pointers (word32 0 ++ gap)))
    ∙ drop_add 4 (padding base ws) (word32 0 ++ gap)
    ∙ drop-zeros (padding base ws) (strings ws)

-- `base` is a multiple of four; the gap brings an odd size of the words to two above one.
rest_of_place :
    (base s n : ℕ)
    → base % 4 ≡ 0
    → s + 4 * n + 20 ≤ base
    → (base - s - (4 - (base - s) % 4) - 4 - 4 * n - 12) % 4 ≡ 2 * (s % 2)
rest_of_place base s n four fits = omega (arith, four, fits)

distance :
    (base s n : ℕ)
    → s + 4 * n + 20 ≤ base
    → base - s - (base - s - (4 - (base - s) % 4) - 4 - 4 * n - 12)
      ≡ 12 + (4 * n + (4 + (4 - (base - s) % 4)))
distance base s n fits = omega (arith, fits)

head_lem :
    (base : ℕ) (ws : List (List ℕ))
    → size ws + 4 * length ws + 20 ≤ base
    → take 12 (frame base ws).bytes
      ≡ word32 0 ++ (word32 (length ws) ++ word32 (argv_of base ws - 12 + 12))
unfolding word32
head_lem base ws fits =
    let e : argv_of base ws - 12 + 12 ≡ argv_of base ws = omega (arith, fits) in rw (e) refl

-- For a command line that is not empty, of fewer than 256 words, and a page of zeros with room for the
-- frame, `push_command` comes to an end. It leaves `esp` at a multiple of four if the words with their
-- zeros have an even size, and two above one if it is odd. At `esp` stand a return address of zero, the
-- number of the words, and the place of an array of pointers, which follows: each points to the bytes of
-- its word with a final zero, in the order of the line.
pub push_command-PointsTo :
    (page : ℕ → ℕ) (cmdline : List ℕ) (esp : ℕ)
    → ((a : ℕ) → page a ≡ 0)
    → 0 < length cmdline
    → length (arguments cmdline) < 256
    → length cmdline + 4 * length (arguments cmdline) + 24 ≤ esp
    → esp < 2 ^ 32
    → (s : Stack) × (push_command page cmdline esp ≡ some s
        × (s.esp % 4 ≡ 2 * (size (arguments cmdline) % 2)
            × (take 12 s.bytes
                  ≡ word32 0 ++ (word32 (length (arguments cmdline)) ++ word32 (s.esp + 12))
                × ((places : List ℕ) × (take (4 * length (arguments cmdline)) (drop 12 s.bytes)
                        ≡ words32 places
                      × PointsTo s.esp s.bytes places (arguments cmdline))))))
unfolding word32
push_command-PointsTo page cmdline esp z some_bytes few room low =
    let ws = arguments cmdline in
    let base = esp - esp % 4 in
    let fits : size ws + 4 * length ws + 20 ≤ base = omega (arith, room, size-arguments cmdline) in
    (
      frame base ws,
      (
        push_command_lem page cmdline esp z some_bytes few room low,
        (
          rest_of_place base (size ws) (length ws) (omega arith) fits,
          (
            head_lem base ws fits,
            (
              addresses base ws,
              (
                rw (sym (length-words32 base ws)) (
                    take-append (words32 (addresses base ws))
                      (word32 0 ++ (zeros (padding base ws) ++ strings ws))),
                points_lem ws base (argv_of base ws - 12) (frame base ws).bytes
                    (omega (arith, fits))
                    (rw (distance base (size ws) (length ws) fits) (drop-frame base ws)),
              ),
            ),
          ),
        ),
      ),
    )

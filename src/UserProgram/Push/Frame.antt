-- ===== src/UserProgram/Push/Frame.antt =====
-- The frame that `push_command` leaves on the stack.
use cse130_git.Prelude.{
  ℕ, zero, suc, ◌+◌, ◌-◌, ◌*◌, ◌%◌, ◌/◌, ◌^◌, ◌≡◌, ◌≤◌, ◌<◌, some, List, [], ◌∷◌, ◌++◌,
  if◌then◌else◌, length, drop, bytes_of, zeros, arith, refl, ap, ◌∙◌,
}
use cse130_git.UserProgram.Stack.{sub32, sub32_lem, Stack, word32, push, skip, push_char}
use cse130_git.UserProgram.Push.{push_pointers, push_argv, push_command}
use cse130_git.UserProgram.Push.Words.{word, at_space, later, arguments, strings, size, size-later}
use cse130_git.UserProgram.Push.Scanning.{offsets_of, length-offsets_of, with_strings, scan_lem}

-- Where the words stand that end at an address.
abbrev pub addresses : ℕ → List (List ℕ) → List ℕ
addresses base [] = []
addresses base (w ∷ ws) = (base - size (w ∷ ws)) ∷ addresses base ws

abbrev pub words32 : List ℕ → List ℕ
words32 [] = []
words32 (a ∷ as_) = word32 a ++ words32 as_

bytes_of-zeros : (page : ℕ → ℕ) (at n : ℕ) → ((a : ℕ) → page a ≡ 0) → bytes_of page at n ≡ zeros n
bytes_of-zeros page at zero z = refl
bytes_of-zeros page at (suc n) z = rw (z at, bytes_of-zeros page (at + 1) n z) refl

-- Lowered by one offset after the other.
abbrev lowered : List ℕ → ℕ → ℕ
lowered [] base = base
lowered (o ∷ os) base = lowered os (sub32 base o)

push_pointers-append :
    (os ps : List ℕ) (base : ℕ) (s : Stack)
    → push_pointers (os ++ ps) base s ≡ push_pointers ps (lowered os base) (push_pointers os base s)
push_pointers-append [] ps base s = refl
push_pointers-append (o ∷ os) ps base s =
    push_pointers-append os ps (sub32 base o) (push (word32 (sub32 base o)) s)

lowered-append :
    (os ps : List ℕ) (base : ℕ) → lowered (os ++ ps) base ≡ lowered ps (lowered os base)
lowered-append [] ps base = refl
lowered-append (o ∷ os) ps base = lowered-append os ps (sub32 base o)

lowered_lem :
    (ws : List (List ℕ)) (base : ℕ)
    → size ws ≤ base
    → base < 2 ^ 32
    → lowered (offsets_of ws) base ≡ base - size ws
lowered_lem [] base fit low = omega arith
lowered_lem (w ∷ ws) base fit low =
    lowered-append (offsets_of ws) ((length w + 1) ∷ []) base
    ∙ rw (lowered_lem ws base (omega (arith, fit)) low) (
        sub32_lem (base - size ws) (length w + 1) (omega (arith, fit)) (omega (arith, low))
        ∙ omega arith)

-- The pointers to the words, the first word's lowest.
push_pointers_lem :
    (ws : List (List ℕ)) (base : ℕ) (s : Stack)
    → size ws ≤ base
    → base < 2 ^ 32
    → 4 * length ws ≤ s.esp
    → s.esp < 2 ^ 32
    → push_pointers (offsets_of ws) base s
      ≡ record { esp = s.esp - 4 * length ws; bytes = words32 (addresses base ws) ++ s.bytes }
unfolding word32
push_pointers_lem [] base s fit low room low' =
    let z : s.esp - 4 * 0 ≡ s.esp = omega arith in rw (z) refl
push_pointers_lem (w ∷ ws) base s fit low room low' =
    push_pointers-append (offsets_of ws) ((length w + 1) ∷ []) base s
    ∙ (let at : sub32 (base - size ws) (length w + 1) ≡ base - size (w ∷ ws) =
          sub32_lem (base - size ws) (length w + 1) (omega (arith, fit)) (omega (arith, low))
          ∙ omega arith in
        let down : sub32 (s.esp - 4 * length ws) 4 ≡ s.esp - 4 * suc (length ws) =
          sub32_lem (s.esp - 4 * length ws) 4 (omega (arith, room)) (omega (arith, low'))
          ∙ omega arith in
        rw
          (
            lowered_lem ws base (omega (arith, fit)) low,
            push_pointers_lem ws base s (omega (arith, fit)) low (omega (arith, room)) low',
            at,
            down,
          )
          refl)

-- The bytes that are left out below the words, so that the next ones are at a multiple of four.
abbrev pub padding : ℕ → List (List ℕ) → ℕ
padding base ws = 4 - (base - size ws) % 4

abbrev pub argv_of : ℕ → List (List ℕ) → ℕ
argv_of base ws = base - size ws - padding base ws - 4 - 4 * length ws

-- From the lowest address: a return address of zero, the number of the words, the place of the pointers,
-- these, a null pointer, the gap, and the words.
abbrev pub frame : ℕ → List (List ℕ) → Stack
frame base ws = record {
  esp = argv_of base ws - 12;
  bytes =
      word32 0
      ++ (word32 (length ws)
          ++ (word32 (argv_of base ws)
              ++ (words32 (addresses base ws)
                  ++ (word32 0 ++ (zeros (padding base ws) ++ strings ws)))));
}

-- One byte over three that are zero is a small number.
push_char_lem :
    (page : ℕ → ℕ) (x : ℕ) (s : Stack)
    → ((a : ℕ) → page a ≡ 0)
    → x < 256
    → 4 ≤ s.esp
    → s.esp < 2 ^ 32
    → push_char page x s ≡ record { esp = s.esp - 4; bytes = word32 x ++ s.bytes }
unfolding word32
push_char_lem page x s z small room low =
    let a : x / 256 % 256 ≡ 0 = omega (arith, small) in
    let b : x / 65536 % 256 ≡ 0 = omega (arith, small) in
    let c : x / 16777216 % 256 ≡ 0 = omega (arith, small) in
    rw
      (
        sub32_lem s.esp 4 room low,
        z (s.esp - 4 + 1),
        z (s.esp - 4 + 1 + 1),
        z (s.esp - 4 + 1 + 1 + 1),
        a,
        b,
        c,
      )
      refl

skip_lem :
    (page : ℕ → ℕ) (n : ℕ) (s : Stack)
    → ((a : ℕ) → page a ≡ 0)
    → n ≤ s.esp
    → s.esp < 2 ^ 32
    → skip page n s ≡ record { esp = s.esp - n; bytes = zeros n ++ s.bytes }
skip_lem page n s z room low =
    rw (sub32_lem s.esp n room low, bytes_of-zeros page (s.esp - n) n z) refl

push_place :
    (s : Stack)
    → 4 ≤ s.esp
    → s.esp < 2 ^ 32
    → push (word32 (sub32 s.esp 4 + 4)) s
      ≡ record { esp = s.esp - 4; bytes = word32 s.esp ++ s.bytes }
unfolding word32
push_place s room low =
    let e : s.esp - 4 + 4 ≡ s.esp = omega (arith, room) in rw (sub32_lem s.esp 4 room low, e) refl

-- The three words below the pointers.
push_call : (ℕ → ℕ) → ℕ → Stack → Stack
push_call page n argv =
    push_char page 0 (push_char page n (push (word32 (sub32 argv.esp 4 + 4)) argv))

push_call_lem :
    (page : ℕ → ℕ) (n : ℕ) (s : Stack)
    → ((a : ℕ) → page a ≡ 0)
    → n < 256
    → 12 ≤ s.esp
    → s.esp < 2 ^ 32
    → push_call page n s
      ≡ record { esp = s.esp - 12; bytes = word32 0 ++ (word32 n ++ (word32 s.esp ++ s.bytes)) }
unfolding push_call
push_call_lem page n s z few room low =
    let first : Stack = record { esp = s.esp - 4; bytes = word32 s.esp ++ s.bytes } in
    let second : Stack = record { esp = s.esp - 8; bytes = word32 n ++ first.bytes } in
    let f : s.esp - 4 - 4 ≡ s.esp - 8 = omega arith in
    let g : s.esp - 8 - 4 ≡ s.esp - 12 = omega arith in
    ap (λ t. push_char page 0 (push_char page n t)) (push_place s (omega (arith, room)) low)
    ∙ ap (push_char page 0)
        (rw (f) at (push_char_lem page n first z few (omega (arith, room)) (omega (arith, low))))
    ∙ (rw (g) at
        (push_char_lem page 0 second z (omega arith) (omega (arith, room)) (omega (arith, low))))

push_argv_lem :
    (page : ℕ → ℕ) (base end prev : ℕ) (ws : List (List ℕ))
    → ((a : ℕ) → page a ≡ 0)
    → length ws < 256
    → size ws + 4 * length ws + 20 ≤ base
    → base < 2 ^ 32
    → push_argv page base (record {
      stack = with_strings base ws;
      end_ind = end;
      prev_space = prev;
      offsets = offsets_of ws;
    })
      ≡ frame base ws
unfolding push_call
push_argv_lem page base end prev ws z few room low =
    let os = offsets_of ws in
    let n = length os in
    let pad = padding base ws in
    let s = with_strings base ws in
    let gap : Stack = record { esp = base - size ws - pad; bytes = zeros pad ++ strings ws } in
    let null : Stack = record { esp = base - size ws - pad - 4; bytes = word32 0 ++ gap.bytes } in
    let argv : Stack = record {
      esp = argv_of base ws;
      bytes = words32 (addresses base ws) ++ null.bytes;
    } in
    ap (λ t. push_call page n (push_pointers os base (push_char page 0 t)))
      (skip_lem page pad s z (omega (arith, room)) (omega (arith, low)))
    ∙ ap (λ t. push_call page n (push_pointers os base t))
        (push_char_lem page 0 gap z (omega arith) (omega (arith, room)) (omega (arith, low)))
    ∙ ap (push_call page n) (
        push_pointers_lem ws base null (omega (arith, room)) low (omega (arith, room))
          (omega (arith, low)))
    ∙ ap (λ m. push_call page m argv) (length-offsets_of ws)
    ∙ push_call_lem page (length ws) argv z few (omega (arith, room)) (omega (arith, low))

drop-length : (cs : List ℕ) → drop (length cs) cs ≡ []
drop-length [] = refl
drop-length (c ∷ cs) = drop-length cs

-- For a command line that is not empty, of fewer than 256 words, and a page of zeros with room for the
-- frame, `push_command` comes to an end and leaves the frame of the words of the line below the place
-- where the stack began, lowered to a multiple of four.
pub push_command_lem :
    (page : ℕ → ℕ) (cmdline : List ℕ) (esp : ℕ)
    → ((a : ℕ) → page a ≡ 0)
    → 0 < length cmdline
    → length (arguments cmdline) < 256
    → length cmdline + 4 * length (arguments cmdline) + 24 ≤ esp
    → esp < 2 ^ 32
    → push_command page cmdline esp ≡ some (frame (esp - esp % 4) (arguments cmdline))
unfolding push_command
push_command_lem page [] esp z some_bytes few room low = absurd (omega arith)
push_command_lem page (c ∷ cs) esp z some_bytes few room low =
    let base = esp - esp % 4 in
    let ws = arguments (c ∷ cs) in
    let sz : size ws ≤ length cs + 2 = omega (arith, size-later cs) in
    let below : base < 2 ^ 32 = omega (arith, low) in
    let fits : length cs + 2 + 4 * length ws + 20 ≤ base = omega (arith, room) in
    let found =
      scan_lem (c ∷ cs) base below (omega (arith, fits)) few' (length cs) [] (drop-length cs)
        (omega arith) in
    let a : base - 0 ≡ base = omega arith in
    let b : length cs + 0 ≡ length cs = omega arith in
    rw (push_command, rw (a, b) at found)
      (ap some (
        push_argv_lem page base (1 + length (word cs)) (if at_space cs then 1 else 0) ws z few
          (omega (arith, fits, sz)) below))
  where
    few' : length (later (c ∷ cs)) < 1000
    few' = ground (arith, few)

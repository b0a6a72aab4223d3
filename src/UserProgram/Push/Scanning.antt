-- ===== src/UserProgram/Push/Scanning.antt =====
-- The scan of `push_command` from the right finds the words that stand from the left.
use cse130_git.Prelude.{
  ℕ, zero, suc, ◌+◌, ◌-◌, ◌^◌, ◌≡◌, ◌≤◌, ◌<◌, some, List, [], ◌∷◌, ◌++◌, true, ltb, ◌==◌,
  if◌then◌else◌, length, length-append, take, drop, arith, refl, ap, sym, ◌∙◌, Bool-cases, inl, inr,
}
use cse130_git.UserProgram.Stack.{sub32, sub32_lem, Stack}
use cse130_git.UserProgram.Push.{char_at, Scan, push_string, scan}
use cse130_git.UserProgram.Push.Words.{
  at_space, word, later, arguments, strings, size, take-word, size-later, length-later-drop,
}

-- The sizes as the scan meets them, the last word's first.
abbrev pub offsets_of : List (List ℕ) → List ℕ
offsets_of [] = []
offsets_of (w ∷ ws) = offsets_of ws ++ (length w + 1) ∷ []

-- The stack with the words.
abbrev pub with_strings : ℕ → List (List ℕ) → Stack
with_strings base ws = record { esp = base - size ws; bytes = strings ws }

-- The variables when what is behind `k` is read.
abbrev pub scanned : ℕ → ℕ → List ℕ → Scan
scanned base k behind = record {
  stack = with_strings base (later behind);
  end_ind = k + length (word behind);
  prev_space = if at_space behind then 1 else 0;
  offsets = offsets_of (later behind);
}

pub length-offsets_of : (ws : List (List ℕ)) → length (offsets_of ws) ≡ length ws
length-offsets_of [] = refl
length-offsets_of (w ∷ ws) =
    omega (arith, length-offsets_of ws, length-append (offsets_of ws) ((length w + 1) ∷ []))

-- One string more.
push_string_lem :
    (cmdline w : List ℕ) (ws : List (List ℕ)) (base from n end prev : ℕ)
    → take n (drop from cmdline) ≡ w
    → length w ≡ n
    → length ws < 1000
    → size (w ∷ ws) ≤ base
    → base < 2 ^ 32
    → push_string cmdline from n (record {
      stack = with_strings base ws;
      end_ind = end;
      prev_space = prev;
      offsets = offsets_of ws;
    })
      ≡ some (record {
        stack = with_strings base (w ∷ ws);
        end_ind = end;
        prev_space = prev;
        offsets = offsets_of (w ∷ ws);
      })
unfolding push_string
push_string_lem cmdline w ws base from n end prev e l few fit low =
    let room : ltb (length (offsets_of ws)) 1000 ≡ true =
      ground (arith, few, length-offsets_of ws) in
    let len : length (w ++ 0 ∷ []) ≡ length w + 1 = length-append w (0 ∷ []) in
    let down : sub32 (base - size ws) (length w + 1) ≡ base - size (w ∷ ws) =
      sub32_lem (base - size ws) (length w + 1) (omega arith) (omega arith) ∙ omega arith in
    rw (push_string, e, room, sym l, len, down) refl

drop_step :
    (k : ℕ) (cs behind : List ℕ)
    → drop (suc k) cs ≡ behind
    → k < length cs
    → drop k cs ≡ char_at cs k ∷ behind
drop_step k [] behind e h = absurd (omega arith)
drop_step zero (c ∷ cs) behind e h = ap (◌∷◌ c) e
drop_step (suc k) (c ∷ cs) behind e h = drop_step k cs behind e (omega arith)

length-drop : (k : ℕ) (cs : List ℕ) → length (drop k cs) ≤ length cs
length-drop zero cs = omega arith
length-drop (suc k) [] = omega arith
length-drop (suc k) (c ∷ cs) = omega (arith, length-drop k cs)

sub_shift : (n m : ℕ) → suc n + m - suc n ≡ m
sub_shift n m = omega arith

-- The first word, which the loop leaves.
first_word :
    (base : ℕ) (cmdline : List ℕ) (prev : ℕ)
    → 0 < length cmdline
    → length cmdline + 1 ≤ base
    → length (later cmdline) < 1000
    → base < 2 ^ 32
    → push_string cmdline 0 (0 + length (word (drop 1 cmdline)) + 1) (record {
      stack = with_strings base (later (drop 1 cmdline));
      end_ind = 0 + length (word (drop 1 cmdline)) + 1;
      prev_space = prev;
      offsets = offsets_of (later (drop 1 cmdline));
    })
      ≡ some (record {
        stack = with_strings base (arguments cmdline);
        end_ind = 1 + length (word (drop 1 cmdline));
        prev_space = prev;
        offsets = offsets_of (arguments cmdline);
      })
first_word base [] prev h fit few low = absurd (omega arith)
first_word base (c ∷ cs) prev h fit few low =
    let len : 0 + length (word cs) + 1 ≡ suc (length (word cs)) = omega arith in
    let end : 1 + length (word cs) ≡ suc (length (word cs)) = omega arith in
    let few' : length (later cs) < 1000 = omega (arith, few, length-later-drop 1 (c ∷ cs)) in
    rw (len, end)
      (push_string_lem (c ∷ cs) (c ∷ word cs) (later cs) base 0 (suc (length (word cs)))
        (suc (length (word cs))) prev (ap (◌∷◌ c) (take-word cs)) refl few'
        (omega (arith, fit, size-later cs)) low)

add_zero : (n : ℕ) → n + 0 ≡ n
add_zero n = omega arith

add_shift : (n m : ℕ) → n + suc m ≡ suc n + m
add_shift n m = omega arith

module _ (cmdline : List ℕ) (base : ℕ) (low : base < 2 ^ 32) (fit : length cmdline + 1 ≤ base)
    (few : length (later cmdline) < 1000) where
  -- Behind any place there are no more words, and no more bytes, than in all.
  behind_fits :
      (k : ℕ) (behind : List ℕ)
      → drop k cmdline ≡ behind
      → length (later behind) < 1000 × size (word behind ∷ later behind) ≤ base
  behind_fits k behind e =
      let few' : length (later behind) ≤ length (later cmdline) =
        rw (e) at (length-later-drop k cmdline) in
      let short : length behind ≤ length cmdline = rw (e) at (length-drop k cmdline) in
      (omega (arith, few), omega (arith, fit, short, size-later behind))

  pub scan_lem :
      (k : ℕ) (behind : List ℕ)
      → drop (suc k) cmdline ≡ behind
      → k < length cmdline
      → scan cmdline k (scanned base k behind)
        ≡ some (record {
          stack = with_strings base (arguments cmdline);
          end_ind = 1 + length (word (drop 1 cmdline));
          prev_space = if at_space (drop 1 cmdline) then 1 else 0;
          offsets = offsets_of (arguments cmdline);
        })
  unfolding scan
  scan_lem zero behind e h =
      rw (sym e)
        (first_word base cmdline (if at_space (drop 1 cmdline) then 1 else 0) h fit few low)
  scan_lem (suc n) behind e h = elim (Bool-cases (char_at cmdline (suc n) == 32)) [
    | inl c ↦ elim (Bool-cases (at_space behind)) [
      | inl sp ↦
          rw (scan, c, sp)
            (rw (sp) (
              rw (c, sp, add_zero n) at
                (scan_lem n (char_at cmdline (suc n) ∷ behind)
                  (drop_step (suc n) cmdline behind e h) (omega arith))))
      | inr sp ↦
          rw (scan, c, sp)
            (rw
              (push_string_lem cmdline (word behind) (later behind) base (suc (suc n))
                (suc n + length (word behind) - suc n) (suc n + length (word behind))
                (if at_space behind then 1 else 0)
                (rw (e, sub_shift n (length (word behind))) (take-word behind)) (omega arith)
                (behind_fits (suc (suc n)) behind e).0 (behind_fits (suc (suc n)) behind e).1 low)
              (rw (c, sp, add_zero n) at
                (scan_lem n (char_at cmdline (suc n) ∷ behind)
                  (drop_step (suc n) cmdline behind e h) (omega arith))))
    ]
    | inr c ↦
        rw (scan, c)
          (rw (c, add_shift n (length (word behind))) at
            (scan_lem n (char_at cmdline (suc n) ∷ behind) (drop_step (suc n) cmdline behind e h)
              (omega arith)))
  ]

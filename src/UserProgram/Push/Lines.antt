-- ===== src/UserProgram/Push/Lines.antt =====
-- Command lines written from words, and what `push_command` makes of them.
use cse130_git.Prelude.{
  ℕ, zero, suc, ◌+◌, ◌-◌, ◌*◌, ◌%◌, ◌^◌, ◌≡◌, ◌≢◌, ◌≤◌, ◌<◌, some, List, [], ◌∷◌, ◌++◌, false, All,
  length, arith, refl, ap, ◌∙◌,
}
use cse130_git.UserProgram.Push.{push_command}
use cse130_git.UserProgram.Push.Words.{at_space, word, later, arguments}
use cse130_git.UserProgram.Push.Frame.{frame, push_command_lem}

-- A word behind the first one: how many spaces stand before it beyond the first, and its bytes, of which
-- there is one at least.
pub record Next : Type 0 where
  pub more : ℕ
  pub first : ℕ
  pub others : List ℕ

abbrev pub spaced : ℕ → List ℕ → List ℕ
spaced zero cs = 32 ∷ cs
spaced (suc k) cs = 32 ∷ spaced k cs

abbrev pub written : List Next → List ℕ
written [] = []
written (n ∷ ns) = spaced n.more (n.first ∷ n.others ++ written ns)

abbrev pub words_of : List Next → List (List ℕ)
words_of [] = []
words_of (n ∷ ns) = (n.first ∷ n.others) ∷ words_of ns

abbrev pub Plain : List ℕ → Type 0
Plain w = All (λ c. c ≢ 32) w

length-words_of : (ns : List Next) → length (words_of ns) ≡ length ns
length-words_of [] = refl
length-words_of (n ∷ ns) = ap suc (length-words_of ns)

word-spaced : (k : ℕ) (cs : List ℕ) → word (spaced k cs) ≡ []
word-spaced zero cs = refl
word-spaced (suc k) cs = refl

word-written : (ns : List Next) → word (written ns) ≡ []
word-written [] = refl
word-written (n ∷ ns) = word-spaced n.more (n.first ∷ n.others ++ written ns)

later-spaced :
    (k : ℕ) (cs : List ℕ) → at_space cs ≡ false → later (spaced k cs) ≡ word cs ∷ later cs
later-spaced zero cs h = rw (h) refl
later-spaced (suc zero) cs h = later-spaced zero cs h
later-spaced (suc (suc k)) cs h = later-spaced (suc k) cs h

word-append : (w cs : List ℕ) → Plain w → word cs ≡ [] → word (w ++ cs) ≡ w
word-append [] cs h e = e
word-append (c ∷ w) cs h e = ground (arith, h.0, word-append w cs h.1 e)

later-append : (w cs : List ℕ) → Plain w → later (w ++ cs) ≡ later cs
later-append [] cs h = refl
later-append (c ∷ w) cs h = ground (arith, h.0, later-append w cs h.1)

abbrev pub PlainAll : List Next → Type 0
PlainAll ns = All (λ n. Plain (n.first ∷ n.others)) ns

later-written : (ns : List Next) → PlainAll ns → later (written ns) ≡ words_of ns
later-written [] h = refl
later-written (n ∷ ns) h =
    let w = n.first ∷ n.others in
    let off : at_space (w ++ written ns) ≡ false = ground (arith, h.0.0) in
    later-spaced n.more (w ++ written ns) off
    ∙ rw
        (
          word-append w (written ns) h.0 (word-written ns),
          later-append w (written ns) h.0,
          later-written ns h.1,
        )
        refl

push_command_of :
    (page : ℕ → ℕ) (cmdline : List ℕ) (args : List (List ℕ)) (esp : ℕ)
    → ((a : ℕ) → page a ≡ 0)
    → 0 < length cmdline
    → arguments cmdline ≡ args
    → length args < 256
    → length cmdline + 4 * length args + 24 ≤ esp
    → esp < 2 ^ 32
    → push_command page cmdline esp ≡ some (frame (esp - esp % 4) args)
push_command_of page cmdline args esp z some_bytes e few room low =
    rw (e) at (push_command_lem page cmdline esp z some_bytes (rw (e) few) (rw (e) room) low)

-- A line that is written from fewer than 256 words without spaces, each behind one space or more but
-- for the first, comes back as the frame of these words, on a page of zeros with room for it.
pub push_command-written :
    (page : ℕ → ℕ) (c : ℕ) (w : List ℕ) (ns : List Next) (esp : ℕ)
    → ((a : ℕ) → page a ≡ 0)
    → Plain (c ∷ w)
    → PlainAll ns
    → 1 + length ns < 256
    → length (c ∷ w ++ written ns) + 4 * (1 + length ns) + 24 ≤ esp
    → esp < 2 ^ 32
    → push_command page (c ∷ w ++ written ns) esp
      ≡ some (frame (esp - esp % 4) ((c ∷ w) ∷ words_of ns))
push_command-written page c w ns esp z plain plains few room low =
    let same : arguments (c ∷ w ++ written ns) ≡ (c ∷ w) ∷ words_of ns =
      rw
        (
          word-append w (written ns) plain.1 (word-written ns),
          later-append w (written ns) plain.1,
          later-written ns plains,
        )
        refl in
    let count = length-words_of ns in
    push_command_of page (c ∷ w ++ written ns) ((c ∷ w) ∷ words_of ns) esp z (omega arith) same
      (omega (arith, few, count)) (omega (arith, room, count)) low

-- ===== src/Strings/Tokens.antt =====
-- Lab2/pintos/src/lib/string.c: strchr, the functions that look for the characters of a set, and strtok_r.
use cse130_git.Prelude.{ℕ, zero, suc, ◌+◌, Option, none, some, ◌==◌, if◌then◌else◌, update}
use cse130_git.Strings.{Memory}

-- The loop of `strchr`, with fuel.
abbrev pub find_from : ℕ → Memory → (string c : ℕ) → Option ℕ
find_from zero m string c = none
find_from (suc fuel) m string c =
    let rest = find_from fuel m (string + 1) c in
    if m string == c then some string else (if m string == 0 then some 0 else rest)

abbrev pub strchr : ℕ → Memory → (string c : ℕ) → Option ℕ
strchr fuel m string c = if string == 0 then none else find_from fuel m string c

-- The second fuel is that of `strchr`.
abbrev pub strcspn : (fuel within : ℕ) → Memory → (string stop : ℕ) → Option ℕ
strcspn zero within m string stop = none
strcspn (suc fuel) within m string stop =
    let rest = strcspn fuel within m (string + 1) stop in
    if m string == 0 then some 0 else elim (strchr within m stop (m string)) [
      | none ↦ none
      | some q ↦ if q == 0 then elim rest [ none ↦ none | some n ↦ some (suc n) ] else some 0
    ]

abbrev pub strspn : (fuel within : ℕ) → Memory → (string skip : ℕ) → Option ℕ
strspn zero within m string skip = none
strspn (suc fuel) within m string skip =
    let rest = strspn fuel within m (string + 1) skip in
    if m string == 0 then some 0 else elim (strchr within m skip (m string)) [
      | none ↦ none
      | some q ↦ if q == 0 then some 0 else elim rest [ none ↦ none | some n ↦ some (suc n) ]
    ]

abbrev pub strpbrk : (fuel within : ℕ) → Memory → (string stop : ℕ) → Option ℕ
strpbrk zero within m string stop = none
strpbrk (suc fuel) within m string stop =
    let rest = strpbrk fuel within m (string + 1) stop in
    if m string == 0 then some 0 else elim (strchr within m stop (m string)) [
      | none ↦ none
      | some q ↦ if q == 0 then rest else some string
    ]

-- Where the loop over the delimiters leaves `strtok_r`: at the final 0, or at the first character of a token.
pub data Skipped : Type 0 where
  ended found : ℕ → Skipped

abbrev pub skip_delimiters : (fuel within : ℕ) → Memory → (delimiters s : ℕ) → Option Skipped
skip_delimiters zero within m delimiters s = none
skip_delimiters (suc fuel) within m delimiters s =
    let rest = skip_delimiters fuel within m delimiters (s + 1) in
    elim (strchr within m delimiters (m s)) [
      | none ↦ none
      | some q ↦ if q == 0 then some (found s) else (if m s == 0 then some (ended s) else rest)
    ]

abbrev pub token_end : (fuel within : ℕ) → Memory → (delimiters s : ℕ) → Option ℕ
token_end zero within m delimiters s = none
token_end (suc fuel) within m delimiters s =
    let rest = token_end fuel within m delimiters (s + 1) in
    elim (strchr within m delimiters (m s)) [
      | none ↦ none
      | some q ↦ if q == 0 then rest else some s
    ]

-- The token, what `*save_ptr` becomes, and the memory.
abbrev pub cut : Memory → (token s : ℕ) → ℕ × ℕ × Memory
cut m token s = if m s == 0 then (token, s, m) else (token, s + 1, update m s 0)

-- From `s` on, which is not NULL.
abbrev pub next_token : ℕ → Memory → (s delimiters : ℕ) → Option (ℕ × ℕ × Memory)
next_token fuel m s delimiters = elim (skip_delimiters fuel fuel m delimiters s) [
  | none ↦ none
  | some k ↦ elim k [
    | ended e ↦ some (0, e, m)
    | found token ↦ elim (token_end fuel fuel m delimiters token) [
      | none ↦ none
      | some e ↦ some (cut m token e)
    ]
  ]
]

-- `saved` is `*save_ptr`.
abbrev pub strtok_r : ℕ → Memory → (s delimiters saved : ℕ) → Option (ℕ × ℕ × Memory)
strtok_r fuel m s delimiters saved =
    let start = if s == 0 then saved else s in
    if delimiters == 0
    then none
    else (if start == 0 then none else next_token fuel m start delimiters)

-- ===== src/Strings/Examples.antt =====
-- Blocks and strings in a memory of a few bytes, and runs of the functions.
use cse130_git.Prelude.{
  ℕ, ◌+◌, ◌≡◌, ◌<◌, ◌≤◌, ◌⊎◌, inl, some, List, [], ◌∷◌, if◌then◌else◌, ltb, take, update, arith,
  refl,
}
use cse130_git.Strings.{
  Memory, memmove, strlcpy, strlen, strnlen, memcmp, memchr, strcmp, strrchr, strstr, less,
}
use cse130_git.Strings.Tokens.{strchr, strcspn, strspn, strpbrk, strtok_r}
use cse130_git.Strings.Splitting.{strtok_r_lem}
use cse130_git.Strings.Blocks.{Copied, memmove_lem}
use cse130_git.Strings.Copies.{StringAt, strlcpy_lem}

-- A string of three bytes at 10.
abbrev letters : Memory
letters = update (update (update (λ _. 0) 10 7) 11 8) 12 9

abbrev word : List ℕ
word = 7 ∷ 8 ∷ 9 ∷ []

memmove_lem_example :
    (m' : Memory) × (memmove letters 11 10 3 ≡ some (if ltb 11 10 then 11 + 3 else 11, m')
      × Copied letters m' 11 10 3)
memmove_lem_example = memmove_lem letters 11 10 3 (omega arith) (omega arith)

strlcpy_lem_example :
    (m' : Memory) × (strlcpy 4 letters 4 10 3 ≡ some (3, m')
      × (StringAt m' 4 (take 2 word) × ((a : ℕ) → a < 4 ⊎ 4 + 3 ≤ a → m' a ≡ letters a)))
strlcpy_lem_example =
    strlcpy_lem 4 letters 4 10 3 word
      ((refl, omega arith), ((refl, omega arith), ((refl, omega arith), refl))) (omega arith)
      (omega arith) (omega arith) (omega arith) (inl (omega arith))

-- " ab c" at 30, and at 40 the set of the space.
abbrev line : Memory
line =
    update (update (update (update (update (update letters 30 32) 31 97) 32 98) 33 32) 34 99) 40 32

strtok_r_lem_example :
    (next : ℕ) × (m' : Memory) × (strtok_r 3 line 30 40 0 ≡ some (30 + 1, next, m')
      × (StringAt m' (30 + 1) (97 ∷ 98 ∷ []) × StringAt m' next (99 ∷ [])))
strtok_r_lem_example =
    strtok_r_lem 3 line 30 40 0 (32 ∷ []) (32 ∷ []) 97 (98 ∷ []) (32 ∷ 99 ∷ [])
      (
        (refl, omega arith),
        (
          (refl, omega arith),
          ((refl, omega arith), ((refl, omega arith), ((refl, omega arith), refl))),
        ),
      )
      ((refl, omega arith), refl) (omega arith) (omega arith) (refl, tt) (refl, (refl, tt)) refl
      (omega arith) (omega arith) (omega arith)

strnlen_test : strnlen letters 10 2 ≡ 2
strnlen_test = refl

memcmp_test : memcmp letters 10 11 3 ≡ some less
memcmp_test = refl

memchr_test : memchr letters 10 9 3 ≡ some 12
memchr_test = refl

strchr_test : strchr 4 letters 10 0 ≡ some 13
strchr_test = refl

strrchr_test : strrchr 6 line 30 32 ≡ some 33
strrchr_test = refl

strcspn_test : strcspn 6 2 line 31 40 ≡ some 2
strcspn_test = refl

strspn_test : strspn 6 2 line 30 40 ≡ some 1
strspn_test = refl

strpbrk_test : strpbrk 6 2 line 31 40 ≡ some 33
strpbrk_test = refl

strstr_test : strstr 6 line 30 34 ≡ some 34
strstr_test = refl

strlen_test : strlen 4 letters 10 ≡ some 3
strlen_test = refl

strcmp_test : strcmp 4 line 10 31 ≡ some less
strcmp_test = refl

-- ===== src/Strings.antt =====
-- Lab2/pintos/src/lib/string.c: copying and comparing blocks and strings in a memory of bytes. A pointer is
-- an address, 0 for NULL, and an `ASSERT` that fails is none.
mod Blocks
mod Copies
mod Tokens
mod Splitting
mod Order
mod Examples
use cse130_git.Prelude.{
  ℕ, zero, suc, ◌+◌, ◌-◌, ◌≡◌, Option, none, some, Bool, true, false, not, ◌&&◌, ◌||◌, ◌%◌, leb,
  ltb, ◌==◌, if◌then◌else◌, update,
}

abbrev pub Memory : Type 0
Memory = ℕ → ℕ

-- `dst != NULL || size == 0`, for both pointers.
abbrev pub checked : (dst src size : ℕ) → Bool
checked dst src size = (not (dst == 0) || size == 0) && (not (src == 0) || size == 0)

-- `*dst++ = *src++`, `size` times.
abbrev pub copy_up : Memory → (dst src size : ℕ) → Memory
copy_up m dst src zero = m
copy_up m dst src (suc n) = copy_up (update m dst (m src)) (dst + 1) (src + 1) n

-- `*--dst = *--src`, from behind both blocks.
abbrev pub copy_down : Memory → (dst src size : ℕ) → Memory
copy_down m dst src zero = m
copy_down m dst src (suc n) = copy_down (update m (dst + n) (m (src + n))) dst src n

-- The memory, and what is returned.
unfoldable pub memcpy : Memory → (dst src size : ℕ) → Option (ℕ × Memory)
memcpy m dst src size = if checked dst src size then some (dst, copy_up m dst src size) else none

-- It returns `dst` as its loop leaves it.
unfoldable pub memmove : Memory → (dst src size : ℕ) → Option (ℕ × Memory)
memmove m dst src size =
    if checked dst src size
    then (if ltb dst src
        then some (dst + size, copy_up m dst src size)
        else some (dst, copy_down m dst src size))
    else none

-- The outcome of a comparison: -1, 0 and +1.
pub data Sign : Type 0 where
  less equal greater : Sign

abbrev pub compare_blocks : Memory → (a b size : ℕ) → Sign
compare_blocks m a b zero = equal
compare_blocks m a b (suc n) =
    let rest = compare_blocks m (a + 1) (b + 1) n in
    if m a == m b then rest else (if ltb (m b) (m a) then greater else less)

abbrev pub memcmp : Memory → (a b size : ℕ) → Option Sign
memcmp m a b size = if checked a b size then some (compare_blocks m a b size) else none

-- The loop of `strlen`, with fuel.
abbrev pub length_from : ℕ → Memory → ℕ → Option ℕ
length_from zero m p = none
length_from (suc fuel) m p =
    let rest = length_from fuel m (p + 1) in
    if m p == 0 then some 0 else elim rest [ none ↦ none | some n ↦ some (suc n) ]

abbrev pub strlen : ℕ → Memory → ℕ → Option ℕ
strlen fuel m string = if string == 0 then none else length_from fuel m string

abbrev pub strnlen : Memory → (string maxlen : ℕ) → ℕ
strnlen m string zero = 0
strnlen m string (suc n) =
    let rest = strnlen m (string + 1) n in if m string == 0 then 0 else suc rest

abbrev pub shorter : ℕ → ℕ → ℕ
shorter a b = if ltb a b then a else b

-- `memcpy` and the final zero.
abbrev pub terminated : ℕ → Option (ℕ × Memory) → Option Memory
terminated at none = none
terminated at (some (d, m)) = some (update m at 0)

abbrev pub returning : ℕ → Option Memory → Option (ℕ × Memory)
returning n none = none
returning n (some m) = some (n, m)

unfoldable pub strlcpy : ℕ → Memory → (dst src size : ℕ) → Option (ℕ × Memory)
strlcpy fuel m dst src size = if dst == 0 then none else elim (strlen fuel m src) [
  | none ↦ none
  | some src_len ↦
      if size == 0
      then some (src_len, m)
      else (let dst_len = shorter src_len (size - 1) in
          returning src_len (terminated (dst + dst_len) (memcpy m dst src dst_len)))
]

unfoldable pub strlcat : ℕ → Memory → (dst src size : ℕ) → Option (ℕ × Memory)
strlcat fuel m dst src size = elim (strlen fuel m src) [
  | none ↦ none
  | some src_len ↦ elim (strlen fuel m dst) [
    | none ↦ none
    | some dst_len ↦
        if ltb dst_len size
        then (let copy_cnt = shorter src_len (size - dst_len - 1) in
            returning (src_len + dst_len)
              (terminated (dst + dst_len + copy_cnt) (memcpy m (dst + dst_len) src copy_cnt)))
        else some (src_len + dst_len, m)
  ]
]

abbrev pub copy_value : Memory → (dst value size : ℕ) → Memory
copy_value m dst value zero = m
copy_value m dst value (suc n) = copy_value (update m dst value) (dst + 1) value n

-- `value` is stored as a byte.
abbrev pub memset : Memory → (dst value size : ℕ) → Option (ℕ × Memory)
memset m dst value size =
    if not (dst == 0) || size == 0 then some (dst, copy_value m dst (value % 256) size) else none

abbrev pub find_in : Memory → (block ch size : ℕ) → ℕ
find_in m block ch zero = 0
find_in m block ch (suc n) =
    let rest = find_in m (block + 1) ch n in if m block == ch then block else rest

-- The address, or 0.
abbrev pub memchr : Memory → (block ch size : ℕ) → Option ℕ
memchr m block ch size =
    if not (block == 0) || size == 0 then some (find_in m block (ch % 256) size) else none

abbrev pub compare_from : ℕ → Memory → (a b : ℕ) → Option Sign
compare_from zero m a b = none
compare_from (suc fuel) m a b =
    let rest = compare_from fuel m (a + 1) (b + 1) in
    if not (m a == 0) && m a == m b
    then rest
    else some (if ltb (m a) (m b) then less else (if ltb (m b) (m a) then greater else equal))

abbrev pub strcmp : ℕ → Memory → (a b : ℕ) → Option Sign
strcmp fuel m a b = if a == 0 || b == 0 then none else compare_from fuel m a b

-- The last place of a byte, with the one found so far.
abbrev pub find_last : ℕ → Memory → (string c p : ℕ) → Option ℕ
find_last zero m string c p = none
find_last (suc fuel) m string c p =
    let rest = find_last fuel m (string + 1) c (if m string == c then string else p) in
    if m string == 0 then some p else rest

abbrev pub strrchr : ℕ → Memory → (string c : ℕ) → Option ℕ
strrchr fuel m string c = find_last fuel m string c 0

-- The loop of `strstr`, with how often it still runs.
abbrev pub search_from : Memory → (haystack needle needle_len times : ℕ) → Option ℕ
search_from m haystack needle needle_len zero = some 0
search_from m haystack needle needle_len (suc n) =
    let rest = search_from m (haystack + 1) needle needle_len n in
    elim (memcmp m haystack needle needle_len) [
      | none ↦ none
      | some sign ↦ elim sign [ less ↦ rest | equal ↦ some haystack | greater ↦ rest ]
    ]

abbrev pub strstr : ℕ → Memory → (haystack needle : ℕ) → Option ℕ
strstr fuel m haystack needle = elim (strlen fuel m haystack) [
  | none ↦ none
  | some haystack_len ↦ elim (strlen fuel m needle) [
    | none ↦ none
    | some needle_len ↦
        if leb needle_len haystack_len
        then search_from m haystack needle needle_len (haystack_len - needle_len + 1)
        else some 0
  ]
]

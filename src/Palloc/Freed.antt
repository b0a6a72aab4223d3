-- ===== src/Palloc/Freed.antt =====
-- Pages that palloc.c takes back.
use mathlib.Core.Bool.{true≢false}
use mathlib.Core.Option.{some-injective, some-ne-none}
use cse130_git.Prelude.{
  ℕ, ◌+◌, ◌-◌, ◌*◌, ◌/◌, ◌%◌, ◌^◌, ◌≡◌, ◌≤◌, ◌<◌, inl, inr, Option, none, some, Bool, Bool-cases,
  true, false, ◌==◌, if◌then◌else◌, arith, refl, ap, sym, ◌∙◌,
}
use cse130_git.Bitmap.Ops.{Bitmap, bitmap_all}
use cse130_git.Bitmap.Values.{value_at}
use cse130_git.Bitmap.Ranges.{within, Filled, AllAre, bitmap_contains_lem, bitmap_set_multiple_lem}
use cse130_git.Palloc.{
  Pool, Flags, Machine, pgsize, pool_of, set_map, memset, palloc_get_multiple, page_from_pool,
  free_in, palloc_free_multiple,
}
use cse130_git.Palloc.Pages.{IsPool, IsMachine, cleared, palloc_get_multiple_lem}

-- The pools as they are but for the memory: the same bits are set.
abbrev pub SamePages : Machine → Machine → Type 0
SamePages m m' =
    (user : Bool)
    → let map = (pool_of user m).used_map in
      let map' = (pool_of user m').used_map in
      map'.bit_cnt ≡ map.bit_cnt × ((j : ℕ) → value_at map' j ≡ value_at map j)

-- A group of used bits is taken back.
all_used :
    (map : Bitmap) (idx cnt : ℕ)
    → idx + cnt ≤ map.bit_cnt
    → map.bit_cnt < 2 ^ 32
    → AllAre map idx cnt true
    → bitmap_all map idx cnt ≡ some true
all_used map idx cnt fits low used = elim (bitmap_contains_lem map idx cnt false fits low) [
  | inl (e, (j, (l, (r, f)))) ↦ absurd (true≢false (sym (used j l r) ∙ f))
  | inr (e, f) ↦ rw (bitmap_all, e) refl
]

-- What filling and emptying a group of free bits leaves.
refilled :
    (a b c : Bitmap) (idx cnt : ℕ)
    → AllAre a idx cnt false
    → Filled a b idx cnt true
    → Filled b c idx cnt false
    → c.bit_cnt ≡ a.bit_cnt × ((j : ℕ) → value_at c j ≡ value_at a j)
refilled a b c idx cnt free (n, f) (n', f') = (
  n' ∙ n,
  λ j. elim (Bool-cases (within idx cnt j)) [
    | inl w ↦ f' j ∙ rw (w) (sym (free j (ground (arith, w)) (ground (arith, w))))
    | inr w ↦ f' j ∙ rw (w) (f j ∙ rw (w) refl)
  ],
)

free_in_lem :
    (user : Bool) (m : Machine) (idx cnt : ℕ)
    → IsPool (pool_of user m)
    → idx + cnt ≤ (pool_of user m).used_map.bit_cnt
    → AllAre (pool_of user m).used_map idx cnt true
    → (map' : Bitmap) × (free_in user ((pool_of user m).base + 4096 * idx) cnt m
          ≡ some (
              set_map user map' (record m {
                memory = memset m.memory ((pool_of user m).base + 4096 * idx) 204 (4096 * cnt);
              }))
        × Filled (pool_of user m).used_map map' idx cnt false)
free_in_lem user m idx cnt h fits used =
    let pool = pool_of user m in
    let low : pool.used_map.bit_cnt < 2 ^ 32 = omega (arith, h.1.1) in
    let number : (pool.base + 4096 * idx) / 4096 - pool.base / 4096 ≡ idx = omega (arith, h.1.0) in
    let (map', (e, filled)) = bitmap_set_multiple_lem pool.used_map idx cnt false fits low in
    rw (free_in, number, all_used pool.used_map idx cnt fits low used)
      (rw (number) (rw (e) (map', (refl, filled))))

same_pages :
    (user : Bool) (m : Machine) (map : Bitmap) (mem : ℕ → ℕ)
    → map.bit_cnt ≡ (pool_of user m).used_map.bit_cnt
      × ((j : ℕ) → value_at map j ≡ value_at (pool_of user m).used_map j)
    → SamePages m (record (set_map user map m) { memory = mem })
same_pages true m map mem e true = e
same_pages true m map mem e false = (refl, λ j. refl)
same_pages false m map mem e true = (refl, λ j. refl)
same_pages false m map mem e false = e

from_own :
    (p : Pool) (idx : ℕ)
    → p.base % 4096 ≡ 0
    → idx < p.used_map.bit_cnt
    → page_from_pool p (p.base + 4096 * idx) ≡ true
from_own p idx four l =
    let n : (p.base + 4096 * idx) / 4096 ≡ p.base / 4096 + idx = omega (arith, four) in
    rw (n) (ground (arith, l))

from_other :
    (p : Pool) (page : ℕ)
    → p.base + 4096 * p.used_map.bit_cnt ≤ page
    → page_from_pool p page ≡ false
from_other p page h =
    let n : p.base / 4096 + p.used_map.bit_cnt ≤ page / 4096 = omega (arith, h) in ground (arith, n)

-- The group is used once it is filled.
now_used : (a b : Bitmap) (idx cnt : ℕ) → Filled a b idx cnt true → AllAre b idx cnt true
now_used a b idx cnt (n, f) j l r =
    let w : within idx cnt j ≡ true = ground (arith, l, r) in f j ∙ rw (w) refl

freed :
    (user : Bool) (m : Machine) (map : Bitmap) (idx cnt : ℕ) (mem : ℕ → ℕ)
    → IsMachine m
    → 0 < cnt
    → idx + cnt ≤ (pool_of user m).used_map.bit_cnt
    → AllAre (pool_of user m).used_map idx cnt false
    → Filled (pool_of user m).used_map map idx cnt true
    → (m2 : Machine) × (palloc_free_multiple
            ((pool_of user m).base + 4096 * idx)
            cnt
            (record (set_map user map m) { memory = mem })
          ≡ some m2
        × SamePages m m2)
unfolding palloc_free_multiple
freed false m map idx cnt mem h some_pages fits free filled =
    let m1 : Machine = record (set_map false map m) { memory = mem } in
    let p = m.kernel_pool in
    let at = p.base + 4096 * idx in
    let n : map.bit_cnt ≡ p.used_map.bit_cnt = filled.0 in
    let whole : at % 4096 == 0 ≡ true = ground (arith, h.0.1.0) in
    let real : at == 0 ≡ false = ground (arith, h.0.0) in
    let some' : cnt == 0 ≡ false = ground (arith, some_pages) in
    let own = from_own m1.kernel_pool idx h.0.1.0 (omega (arith, fits, some_pages, n)) in
    let valid : IsPool m1.kernel_pool = (h.0.0, (h.0.1.0, omega (arith, h.0.1.1, n))) in
    let (map', (e, emptied)) =
      free_in_lem false m1 idx cnt valid (omega (arith, fits, n))
        (now_used p.used_map map idx cnt filled) in
    rw (palloc_free_multiple, whole)
      (rw (real, some')
        (rw (own) (
          rw (e) (
            set_map false map' (record m1 { memory = memset mem at 204 (4096 * cnt) }),
            (
              refl,
              same_pages false m map' (memset mem at 204 (4096 * cnt))
                  (refilled p.used_map map map' idx cnt free filled emptied),
            ),
          ))))
freed true m map idx cnt mem h some_pages fits free filled =
    let m1 : Machine = record (set_map true map m) { memory = mem } in
    let p = m.user_pool in
    let at = p.base + 4096 * idx in
    let n : map.bit_cnt ≡ p.used_map.bit_cnt = filled.0 in
    let whole : at % 4096 == 0 ≡ true = ground (arith, h.1.0.1.0) in
    let real : at == 0 ≡ false = ground (arith, h.1.0.0) in
    let some' : cnt == 0 ≡ false = ground (arith, some_pages) in
    let other = from_other m.kernel_pool at (omega (arith, h.1.1)) in
    let own = from_own m1.user_pool idx h.1.0.1.0 (omega (arith, fits, some_pages, n)) in
    let valid : IsPool m1.user_pool = (h.1.0.0, (h.1.0.1.0, omega (arith, h.1.0.1.1, n))) in
    let (map', (e, emptied)) =
      free_in_lem true m1 idx cnt valid (omega (arith, fits, n))
        (now_used p.used_map map idx cnt filled) in
    rw (palloc_free_multiple, whole)
      (rw (real, some')
        (rw (other) (
          rw (own) (
            rw (e) (
              set_map true map' (record m1 { memory = memset mem at 204 (4096 * cnt) }),
              (
                refl,
                same_pages true m map' (memset mem at 204 (4096 * cnt))
                    (refilled p.used_map map map' idx cnt free filled emptied),
              ),
            )))))

as_cleared :
    (flags : Flags) (cnt pages : ℕ) (map : Bitmap) (m : Machine)
    → let m1 = set_map flags.pal_user map m in
      (mem : ℕ → ℕ) × cleared flags cnt pages m1 ≡ record m1 { memory = mem }
as_cleared flags cnt pages map m = elim (Bool-cases flags.pal_zero) [
  | inl z ↦ rw (z) (memset (set_map flags.pal_user map m).memory pages 0 (pgsize * cnt), refl)
  | inr z ↦ rw (z) ((set_map flags.pal_user map m).memory, refl)
]

null :
    (c : Bool) (pages : ℕ) (m1 m : Machine)
    → ◌≡◌ {A = Option (ℕ × Machine)} (some (pages, m1)) (if c then none else some (0, m))
    → pages ≡ 0
null true pages m1 m e = absurd (some-ne-none (pages, m1) e)
null false pages m1 m e = ap (λ x. x.0) (some-injective (pages, m1) (0, m) e)

-- A group of pages that was handed out and is given back is free again: `palloc_free_multiple` does not
-- panic, and in both pools the same bits are set as before.
pub palloc_free-get :
    (flags : Flags) (cnt : ℕ) (m m1 : Machine) (pages : ℕ)
    → IsMachine m
    → 0 < cnt
    → palloc_get_multiple flags cnt m ≡ some (pages, m1)
    → 0 < pages
    → (m2 : Machine) × (palloc_free_multiple pages cnt m1 ≡ some m2 × SamePages m m2)
palloc_free-get flags cnt m m1 pages h some_pages e real =
    elim (palloc_get_multiple_lem flags cnt m h some_pages) [
      | inl (idx, (map, (f, ((fits, first), filled)))) ↦
          let same : some (pages, m1)
              ≡ some (
                (pool_of flags.pal_user m).base + 4096 * idx,
                cleared flags cnt ((pool_of flags.pal_user m).base + 4096 * idx)
                    (set_map flags.pal_user map m),
              ) =
            sym e ∙ f in
          let parts = some-injective _ _ same in
          let (mem, c) =
            as_cleared flags cnt ((pool_of flags.pal_user m).base + 4096 * idx) map m in
          rw (ap (λ x. x.0) parts, ap (λ x. x.1) parts, c)
            (freed flags.pal_user m map idx cnt mem h some_pages fits first.1.0 filled)
      | inr (f, none_free) ↦
          absurd (omega (arith, real, null flags.pal_assert pages m1 m (sym e ∙ f)))
    ]

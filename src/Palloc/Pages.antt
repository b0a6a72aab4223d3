-- ===== src/Palloc/Pages.antt =====
-- Pages that palloc.c hands out.
use cse130_git.Prelude.{
  ℕ, ◌+◌, ◌*◌, ◌%◌, ◌^◌, ◌≡◌, ◌≤◌, ◌<◌, ◌⊎◌, inl, inr, none, some, Bool, true, false, ◌==◌,
  if◌then◌else◌, arith, refl,
}
use cse130_git.Bitmap.Ops.{Bitmap, bitmap_error}
use cse130_git.Bitmap.Ranges.{Filled, AllAre}
use cse130_git.Bitmap.Scans.{IsFirst, bitmap_scan_and_flip_lem}
use cse130_git.Palloc.{
  Pool, Flags, Machine, pgsize, pool_of, set_map, memset, address, handed_out, palloc_get_multiple,
}

-- A pool of whole pages, not at address 0, that ends below 2 ^ 32.
abbrev pub IsPool : Pool → Type 0
IsPool p = 0 < p.base × (p.base % 4096 ≡ 0 × p.base + 4096 * p.used_map.bit_cnt < 2 ^ 32)

-- Both pools, the user's behind the kernel's.
abbrev pub IsMachine : Machine → Type 0
IsMachine m =
    IsPool m.kernel_pool
    × (IsPool m.user_pool
        × m.kernel_pool.base + 4096 * m.kernel_pool.used_map.bit_cnt ≤ m.user_pool.base)

IsMachine-pool_of : (user : Bool) (m : Machine) → IsMachine m → IsPool (pool_of user m)
IsMachine-pool_of true m h = h.1.0
IsMachine-pool_of false m h = h.0

set_map-same : (user : Bool) (m : Machine) → set_map user (pool_of user m).used_map m ≡ m
set_map-same true m = refl
set_map-same false m = refl

-- The memory behind `palloc_get_multiple`.
abbrev pub cleared : Flags → (page_cnt pages : ℕ) → Machine → Machine
cleared flags page_cnt pages m =
    if flags.pal_zero then record m { memory = memset m.memory pages 0 (pgsize * page_cnt) } else m

address_lem :
    (p : Pool) (idx : ℕ) → IsPool p → idx < p.used_map.bit_cnt → address p idx ≡ p.base + 4096 * idx
address_lem p idx h l =
    let other : idx == bitmap_error ≡ false = ground (arith, h.1.1, l) in
    rw (other) (omega (arith, h.1.1, l))

-- For a number of pages that is not 0, `palloc_get_multiple` either takes the first group of so many free
-- pages of the pool, marks exactly these as used, clears them if it is to, and returns their address, or
-- there is no such group, and it returns NULL, or panics if it is to.
pub palloc_get_multiple_lem :
    (flags : Flags) (cnt : ℕ) (m : Machine)
    → IsMachine m
    → 0 < cnt
    → let pool = pool_of flags.pal_user m in
      ((idx : ℕ) × ((map : Bitmap) × (palloc_get_multiple flags cnt m
              ≡ some (
                pool.base + 4096 * idx,
                cleared flags cnt (pool.base + 4096 * idx) (set_map flags.pal_user map m),
              )
            × ((idx + cnt ≤ pool.used_map.bit_cnt × IsFirst pool.used_map 0 cnt false idx)
                × Filled pool.used_map map idx cnt true))))
      ⊎ (palloc_get_multiple flags cnt m ≡ (if flags.pal_assert then none else some (0, m))
          × ((k : ℕ) → k + cnt ≤ pool.used_map.bit_cnt → ¬ AllAre pool.used_map k cnt false))
unfolding palloc_get_multiple
palloc_get_multiple_lem flags cnt m h some_pages =
    let pool = pool_of flags.pal_user m in
    let v = IsMachine-pool_of flags.pal_user m h in
    let some_pages' : cnt == 0 ≡ false = ground (arith, some_pages) in
    elim (bitmap_scan_and_flip_lem pool.used_map 0 cnt false (omega arith) (omega (arith, v.1.1))) [
      | inl (idx, (map, (e, ((fits, first), filled)))) ↦
          let at : address pool idx ≡ pool.base + 4096 * idx =
            address_lem pool idx v (omega (arith, fits, some_pages)) in
          let real : pool.base + 4096 * idx == 0 ≡ false = ground (arith, v.0) in
          rw (palloc_get_multiple, some_pages', e)
            (inl (idx, (map, (rw (at) (rw (handed_out, real) refl), ((fits, first), filled)))))
      | inr (e, f) ↦
          rw (palloc_get_multiple, some_pages', e)
            (rw (set_map-same flags.pal_user m) (inr (refl, λ k l. f k (omega arith) l)))
    ]

-- ===== src/Palloc/Init.antt =====
-- The two pools as `palloc_init` makes them.
use cse130_git.Prelude.{
  ℕ, ◌+◌, ◌-◌, ◌*◌, ◌/◌, ◌%◌, ◌^◌, ◌≡◌, ◌≤◌, ◌<◌, some, false, ltb, if◌then◌else◌, arith, refl,
}
use cse130_git.Bitmap.Ops.{bitmap_buf_size}
use cse130_git.Bitmap.Values.{value_at}
use cse130_git.Bitmap.Ranges.{bitmap_create_in_buf_lem}
use cse130_git.Palloc.{Pool, Machine, pgsize, ptov, init_pool, palloc_init}
use cse130_git.Palloc.Pages.{IsPool, IsMachine}

-- All pages are free.
abbrev pub Unused : Pool → Type 0
Unused p = (j : ℕ) → j < p.used_map.bit_cnt → value_at p.used_map j ≡ false

init_pool_lem :
    (raw : ℕ → ℕ) (base cnt : ℕ)
    → 0 < base
    → base % 4096 ≡ 0
    → 0 < cnt
    → base + 4096 * cnt < 2 ^ 32
    → (p : Pool) × (init_pool raw base cnt ≡ some p
        × (IsPool p
            × (base ≤ p.base
                × (p.base + 4096 * p.used_map.bit_cnt ≡ base + 4096 * cnt × Unused p))))
unfolding init_pool
init_pool_lem raw base cnt real four some_pages low =
    let bm = (bitmap_buf_size cnt + pgsize - 1) / pgsize in
    let fits : bm ≤ cnt = omega (arith, some_pages, low) in
    let fits' : ltb cnt bm ≡ false = ground (arith, fits) in
    let small : cnt - bm < 2 ^ 32 = omega (arith, low) in
    let room : bitmap_buf_size (cnt - bm) ≤ bm * pgsize = omega (arith, low) in
    let (map, (e, (n, free))) = bitmap_create_in_buf_lem raw (cnt - bm) (bm * pgsize) small room in
    rw (init_pool, fits', e)
      (
        record { used_map = map; base = base + bm * pgsize },
        (
          refl,
          (
            (omega (arith, real), (omega (arith, four), omega (arith, n, low, fits))),
            (omega arith, (omega (arith, n, fits), λ j l. free j (omega (arith, n, l)))),
          ),
        ),
      )

-- With more than 257 pages of memory, and fewer than 2 ^ 18, of which the user may have one at least,
-- `palloc_init` does not panic, and makes two pools of whole pages that do not overlap, all of them free.
pub palloc_init-IsMachine :
    (pages : ℕ) (raw raw' memory : ℕ → ℕ) (user_page_limit : ℕ)
    → 257 < pages
    → pages < 2 ^ 18
    → 0 < user_page_limit
    → (m : Machine) × (palloc_init pages raw raw' memory user_page_limit ≡ some m
        × (IsMachine m × (Unused m.kernel_pool × Unused m.user_pool)))
unfolding palloc_init
palloc_init-IsMachine pages raw raw' memory limit many few l =
    let free_start = ptov (1024 * 1024) in
    let free_pages = (ptov (pages * pgsize) - free_start) / pgsize in
    let half = free_pages / 2 in
    let user = if ltb limit half then limit else half in
    let user_some : 0 < user = ground (arith, l, many) in
    let user_low : user ≤ half = ground arith in
    let total : free_pages ≡ pages - 256 = omega (arith, many) in
    let kernel = free_pages - user in
    let (k, (e, (v, (at, (end, free))))) =
      init_pool_lem raw free_start kernel (omega arith) (omega arith)
        (omega (arith, user_low, total, many)) (omega (arith, total, few)) in
    let (u, (e', (v', (at', (end', free'))))) =
      init_pool_lem raw' (free_start + kernel * pgsize) user (omega arith) (omega arith) user_some
        (omega (arith, total, few, user_low)) in
    rw (palloc_init, e)
      (rw (e') (
        record { kernel_pool = k; user_pool = u; memory = memory },
        (refl, ((v, (v', omega (arith, end, at'))), (free, free'))),
      ))

-- ===== src/Palloc.antt =====
-- Lab2/pintos/src/threads/palloc.c: pages from two pools, over the bitmaps. The lock of a pool is taken
-- to be free; a pointer is its address, 0 for NULL, and none a panic.
mod Pages
mod Freed
mod Init
mod Examples
use cse130_git.Prelude.{
  ℕ, ◌+◌, ◌-◌, ◌*◌, ◌/◌, ◌%◌, ◌^◌, ◌≡◌, Option, none, some, Bool, true, false, ◌&&◌, ◌||◌, ltb, leb,
  ◌==◌, if◌then◌else◌,
}
use cse130_git.Bitmap.Ops.{
  Bitmap, bitmap_error, bitmap_size, bitmap_buf_size, bitmap_create_in_buf, bitmap_scan_and_flip,
  bitmap_all, bitmap_set_multiple,
}

abbrev pub pgsize : ℕ
pgsize = 4096

pub record Pool : Type 0 where
  pub used_map : Bitmap
  pub base : ℕ

-- `enum palloc_flags`, a boolean for each bit.
pub record Flags : Type 0 where
  pub pal_assert : Bool
  pub pal_zero : Bool
  pub pal_user : Bool

pub record Machine : Type 0 where
  pub kernel_pool : Pool
  pub user_pool : Pool
  pub memory : ℕ → ℕ

abbrev pub pool_of : Bool → Machine → Pool
pool_of true m = m.user_pool
pool_of false m = m.kernel_pool

abbrev pub set_map : Bool → Bitmap → Machine → Machine
set_map true map m = record m { user_pool = record m.user_pool { used_map = map } }
set_map false map m = record m { kernel_pool = record m.kernel_pool { used_map = map } }

abbrev pub memset : (ℕ → ℕ) → (at value n : ℕ) → ℕ → ℕ
memset memory at value n a = if leb at a && ltb a (at + n) then value else memory a

-- The address of a group of pages, or NULL.
abbrev pub address : Pool → ℕ → ℕ
address pool page_idx =
    if page_idx == bitmap_error then 0 else (pool.base + pgsize * page_idx) % 2 ^ 32

-- What is left to do with the pages.
abbrev pub handed_out : Flags → (page_cnt pages : ℕ) → Machine → Option (ℕ × Machine)
handed_out flags page_cnt pages m =
    if pages == 0
    then (if flags.pal_assert then none else some (pages, m))
    else some (
      pages,
      if flags.pal_zero
          then record m { memory = memset m.memory pages 0 (pgsize * page_cnt) }
          else m,
    )

unfoldable pub palloc_get_multiple : Flags → (page_cnt : ℕ) → Machine → Option (ℕ × Machine)
palloc_get_multiple flags page_cnt m =
    let pool = pool_of flags.pal_user m in
    if page_cnt == 0
    then some (0, m)
    else elim (bitmap_scan_and_flip pool.used_map 0 page_cnt false) [
      | none ↦ none
      | some (page_idx, map) ↦
          handed_out flags page_cnt (address pool page_idx) (set_map flags.pal_user map m)
    ]

abbrev pub palloc_get_page : Flags → Machine → Option (ℕ × Machine)
palloc_get_page flags m = palloc_get_multiple flags 1 m

abbrev pub page_from_pool : Pool → ℕ → Bool
page_from_pool pool page =
    let page_no = page / pgsize in
    let start_page = pool.base / pgsize in
    leb start_page page_no && ltb page_no (start_page + bitmap_size pool.used_map)

-- The pages filled with 0xcc, and free again.
abbrev pub free_in : (user : Bool) → (pages page_cnt : ℕ) → Machine → Option Machine
free_in user pages page_cnt m =
    let pool = pool_of user m in
    let page_idx = pages / pgsize - pool.base / pgsize in
    let m' = record m { memory = memset m.memory pages 204 (pgsize * page_cnt) } in
    elim (bitmap_all pool.used_map page_idx page_cnt) [
      | some true ↦ elim (bitmap_set_multiple pool.used_map page_idx page_cnt false) [
        | none ↦ none
        | some map ↦ some (set_map user map m')
      ]
      | _ ↦ none
    ]

unfoldable pub palloc_free_multiple : (pages page_cnt : ℕ) → Machine → Option Machine
palloc_free_multiple pages page_cnt m =
    if pages % pgsize == 0
    then (if pages == 0 || page_cnt == 0
        then some m
        else (if page_from_pool m.kernel_pool pages
            then free_in false pages page_cnt m
            else (if page_from_pool m.user_pool pages
                then free_in true pages page_cnt m
                else none)))
    else none

abbrev pub palloc_free_page : ℕ → Machine → Option Machine
palloc_free_page page m = palloc_free_multiple page 1 m

-- The bitmap stands at the start of the pool and takes its first pages.
unfoldable pub init_pool : (ℕ → ℕ) → (base page_cnt : ℕ) → Option Pool
init_pool raw base page_cnt =
    let bm_pages = (bitmap_buf_size page_cnt + pgsize - 1) / pgsize in
    if ltb page_cnt bm_pages
    then none
    else elim (bitmap_create_in_buf raw (page_cnt - bm_pages) (bm_pages * pgsize)) [
      | none ↦ none
      | some map ↦ some (record { used_map = map; base = base + bm_pages * pgsize })
    ]

-- `ptov`, for an address below PHYS_BASE, as it asserts.
abbrev pub ptov : ℕ → ℕ
ptov paddr = paddr + 3221225472

unfoldable pub palloc_init :
    (init_ram_pages : ℕ) → (raw raw' memory : ℕ → ℕ) → (user_page_limit : ℕ) → Option Machine
palloc_init init_ram_pages raw raw' memory user_page_limit =
    let free_start = ptov (1024 * 1024) in
    let free_end = ptov (init_ram_pages * pgsize) in
    let free_pages = (free_end - free_start) / pgsize in
    let half = free_pages / 2 in
    let user_pages = if ltb user_page_limit half then user_page_limit else half in
    let kernel_pages = free_pages - user_pages in
    elim (init_pool raw free_start kernel_pages) [
      | none ↦ none
      | some kernel ↦ elim (init_pool raw' (free_start + kernel_pages * pgsize) user_pages) [
        | none ↦ none
        | some user ↦ some (record { kernel_pool = kernel; user_pool = user; memory = memory })
      ]
    ]

-- ===== src/Pmm.antt =====
-- The physical memory manager, kernel/mm/pmm.c: a bitmap with one bit for each block of 4096
-- bytes, set when the block is taken, and a count of the blocks taken.
pub mod Bitmap
pub mod Bits
pub mod Scan
pub mod Count
pub mod Alloc
pub mod Runs
pub mod Regions
pub mod Valid
pub mod Boot
pub mod Contiguous
mod Tests
use mex_os.Base.{
  ℕ, zero, suc, ◌+◌, ◌-◌, ◌*◌, ◌/◌, ◌%◌, ◌^◌, none, some, if◌then◌else◌, ◌==◌, ltb, add32, sub32,
  mul32, int_div, is_negative,
}
use Bitmap.{Words, bitmap_set, bitmap_unset, bitmap_first_free, bitmap_first_free_s, fill_ones}

pub record Pmm : Type 0 where
  pub bitmap_addr : ℕ
  pub bitmap : Words
  pub bitmap_size : ℕ
  pub memory_size : ℕ
  pub used_blocks : ℕ
  pub max_blocks : ℕ

abbrev pub block_size : ℕ
block_size = 4096

-- `m` is what lies in memory from `bitmap_addr` on.
unfoldable pub init : ℕ → ℕ → Words → Pmm
init mem_size bitmap_addr m =
    let max_blocks = mem_size / block_size in
    let bitmap_size = max_blocks / 8 in
    record {
      bitmap_addr = bitmap_addr;
      bitmap = fill_ones m bitmap_size;
      bitmap_size = bitmap_size;
      memory_size = mem_size;
      used_blocks = max_blocks;
      max_blocks = max_blocks;
    }

-- `for (; blocks > 0; blocks--)`: an `int` loop, which a negative count does not enter.
abbrev pub rounds : ℕ → ℕ
rounds size = if is_negative size then 0 else size / block_size

unfoldable pub init_region_loop : ℕ → ℕ → Pmm → Pmm
init_region_loop zero align p = p
init_region_loop (suc blocks) align p =
    init_region_loop blocks (add32 align 1)
      (record p { bitmap = bitmap_unset p.bitmap align; used_blocks = sub32 p.used_blocks 1 })

unfoldable pub init_region : Pmm → ℕ → ℕ → Pmm
init_region p base size =
    let q = init_region_loop (rounds size) (int_div base block_size) p in
    record q { bitmap = bitmap_set q.bitmap 0 }

unfoldable pub deinit_region_loop : ℕ → ℕ → Pmm → Pmm
deinit_region_loop zero align p = p
deinit_region_loop (suc blocks) align p =
    deinit_region_loop blocks (add32 align 1)
      (record p { bitmap = bitmap_set p.bitmap align; used_blocks = add32 p.used_blocks 1 })

unfoldable pub deinit_region : Pmm → ℕ → ℕ → Pmm
deinit_region p base size = deinit_region_loop (rounds size) (int_div base block_size) p

unfoldable pub get_free_block_count : Pmm → ℕ
get_free_block_count p = sub32 p.max_blocks p.used_blocks

-- The address is 0 for a null pointer.
unfoldable pub alloc_block : Pmm → ℕ × Pmm
alloc_block p =
    if get_free_block_count p == 0 then (0, p) else elim (bitmap_first_free p.bitmap p.max_blocks) [
      | none ↦ (0, p)
      | some frame ↦ (
        mul32 frame block_size,
        record p { bitmap = bitmap_set p.bitmap frame; used_blocks = add32 p.used_blocks 1 },
      )
    ]

unfoldable pub free_block : Pmm → ℕ → Pmm
free_block p addr = record p {
  bitmap = bitmap_unset p.bitmap (addr / block_size);
  used_blocks = sub32 p.used_blocks 1;
}

-- `for (uint32_t i = 0; i < count; i++) bitmap_set(frame + i);` from `b` on, `n` rounds left.
unfoldable pub set_run : ℕ → ℕ → Words → Words
set_run zero b m = m
set_run (suc n) b m = set_run n (add32 b 1) (bitmap_set m b)

unfoldable pub unset_run : ℕ → ℕ → Words → Words
unset_run zero b m = m
unset_run (suc n) b m = unset_run n (add32 b 1) (bitmap_unset m b)

unfoldable pub alloc_blocks : Pmm → ℕ → ℕ × Pmm
alloc_blocks p count =
    if ltb (get_free_block_count p) count
    then (0, p)
    else elim (bitmap_first_free_s p.bitmap p.max_blocks count) [
      | none ↦ (0, p)
      | some frame ↦ (
        mul32 frame block_size,
        record p { bitmap = set_run count frame p.bitmap; used_blocks = add32 p.used_blocks count },
      )
    ]

unfoldable pub free_blocks : Pmm → ℕ → ℕ → Pmm
free_blocks p addr count = record p {
  bitmap = unset_run count (addr / block_size) p.bitmap;
  used_blocks = sub32 p.used_blocks count;
}

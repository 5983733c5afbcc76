-- ===== src/Pmm/Tests.antt =====
-- The memory manager on concrete inputs: 32 blocks of memory, of which 4 to 19 are freed.
use mex_os.Base.{ℕ, ◌<◌, ◌≤◌, ◌+◌, ◌*◌, ◌≡◌, refl, true, arith, ltb}
use mex_os.Pmm.{
  Pmm, init, init_region, init_region_loop, deinit_region, alloc_block, free_block, alloc_blocks,
  get_free_block_count,
}
use mex_os.Pmm.Bitmap.{
  Words, bitmap_set, bitmap_unset, is_set, bitmap_test, first_clear, first_free_from,
  bitmap_first_free, run_from, first_run, first_free_s_from, bitmap_first_free_s, fill_ones,
}
use mex_os.Pmm.Bits.{is_used}
use mex_os.Pmm.Scan.{FirstClear, bitmap_first_free-FirstClear}
use mex_os.Pmm.Runs.{FirstRun, bitmap_first_free_s-FirstRun}
use mex_os.Pmm.Alloc.{IsValid, AllocCase, alloc_block-cases, free_block-alloc_block}
use mex_os.Pmm.Contiguous.{RunCase, alloc_blocks-cases}
use mex_os.Pmm.Regions.{is_used-deinit_region, init-all_taken}
use mex_os.Pmm.Valid.{init-IsValid, init_region-IsValid}
use mex_os.Pmm.Boot.{boot, boot-IsValid, boot-alloc_block}

abbrev zeros : Words
zeros i = 0

abbrev fresh : Pmm
fresh = init 131072 0 zeros

abbrev small : Pmm
small = init_region fresh 16384 65536

-- Block 4 is handed out first, and a run of 16 starts there too.
small_allocs :
    ((alloc_block small).0 ≡ 16384)
    × ((alloc_blocks small 16).0 ≡ 16384)
    × ((alloc_blocks small 17).0 ≡ 0)
    × (get_free_block_count small ≡ 16)
unfolding init init_region init_region_loop alloc_block alloc_blocks get_free_block_count bitmap_set
    bitmap_unset is_set bitmap_test first_clear first_free_from bitmap_first_free run_from first_run
    first_free_s_from bitmap_first_free_s fill_ones
small_allocs = (refl, refl, refl, refl)

fresh-IsValid : IsValid fresh
fresh-IsValid =
    init-IsValid 131072 0 zeros (λ i. omega arith) (omega arith) (omega arith) (omega arith)

fresh_taken : (f : ℕ) → f < 32 → is_used fresh.bitmap f ≡ true
unfolding init
fresh_taken f l = (init-all_taken 131072 0 zeros (omega arith)).0 f (omega arith)

small-IsValid : IsValid small
unfolding init
small-IsValid =
    init_region-IsValid fresh 16384 65536 fresh-IsValid (omega arith) (omega arith) (omega arith)
      (omega arith) (λ f a b. fresh_taken f (omega arith))

init-IsValid_example : IsValid fresh
init-IsValid_example =
    init-IsValid 131072 0 zeros (λ i. omega arith) (omega arith) (omega arith) (omega arith)

is_used-deinit_region_example : is_used (deinit_region small 16384 8192).bitmap 5 ≡ true
is_used-deinit_region_example = is_used-deinit_region small 16384 8192 5 (omega arith) (omega arith)

alloc_block-cases_example : AllocCase small (alloc_block small)
alloc_block-cases_example = alloc_block-cases small small-IsValid

free_block-alloc_block_example : free_block (alloc_block small).1 (alloc_block small).0 ≡ small
free_block-alloc_block_example =
    free_block-alloc_block small small-IsValid (omega (arith, small_allocs.0))

bitmap_first_free-FirstClear_example :
    FirstClear (is_used small.bitmap) 0 32 (bitmap_first_free small.bitmap 32)
bitmap_first_free-FirstClear_example = bitmap_first_free-FirstClear small.bitmap 32

bitmap_first_free_s-FirstRun_example :
    FirstRun small.bitmap 3 32 (bitmap_first_free_s small.bitmap 32 3)
bitmap_first_free_s-FirstRun_example =
    bitmap_first_free_s-FirstRun small.bitmap 32 3 (omega arith) (omega arith)

alloc_blocks-cases_example : RunCase small 16 (alloc_blocks small 16)
alloc_blocks-cases_example = alloc_blocks-cases small 16 small-IsValid (omega arith)

boot-IsValid_example :
    IsValid (boot 0x234567 zeros)
    × ((f : ℕ) → f < 32768 → is_used (boot 0x234567 zeros).bitmap f ≡ ltb f 0x235)
boot-IsValid_example = boot-IsValid zeros (λ i. omega arith) 0x234567 (omega arith) (omega arith)

boot-alloc_block_example :
    let p = boot 0x234567 zeros in
    let addr = (alloc_block p).0 in
    (addr ≡ 0x235 * 4096) × (p.bitmap_addr ≤ addr) × (addr < p.bitmap_addr + p.bitmap_size)
boot-alloc_block_example =
    boot-alloc_block zeros (λ i. omega arith) 0x234567 (omega arith) (omega arith)

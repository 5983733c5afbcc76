-- ===== src/Vmm/Tests.antt =====
-- Paging of kernel/mm/vmm.c on a small memory.
use mex_os.Base.{◌+◌, ◌*◌, ◌≡◌, refl, true, false, if◌then◌else◌, ◌==◌, arith}
use mex_os.Pmm.Bitmap.{bitmap_set, bitmap_first_free, first_free_from, first_clear, is_set}
use mex_os.Pmm.{Pmm, alloc_block, get_free_block_count}
use mex_os.Vmm.Table.{
  Vmm, phys_to_virt, find_table, make_table, entry_at, directory_index, table_index, page_of,
  vmm_map_page,
}
use mex_os.Vmm.Space.{init_tables, vmm_init, page_passes, pages_pass, vmm_check_user_ptr}
use mex_os.Vmm.Check.{HasUserEntry, vmm_check_user_ptr-HasUserEntry, vmm_check_user_ptr-wraps}
use mex_os.Vmm.Translate.{AreFlags, Translates, vmm_get_physical_address-vmm_map_page}

-- 64 blocks, the first of them taken.
abbrev pmm : Pmm
pmm = record {
  bitmap_addr = 0;
  bitmap = λ i. if i == 0 then 1 else 0;
  bitmap_size = 8;
  memory_size = 262144;
  used_blocks = 1;
  max_blocks = 64;
}

abbrev before : Vmm
before = record {
  pmm = pmm;
  memory = λ a. 0;
  kernel_directory = 0;
  kernel_directory_phys = 0;
  current_directory = 0;
  cr3 = 0;
  paging = false;
}

abbrev booted : Vmm
booted = vmm_init before

booted_cr3 : booted.cr3 ≡ 4096
unfolding vmm_init init_tables phys_to_virt alloc_block get_free_block_count bitmap_first_free
    first_free_from first_clear is_set bitmap_set make_table find_table vmm_map_page page_passes
    pages_pass vmm_check_user_ptr
booted_cr3 = refl

-- Block 9 at address 0, for the user.
abbrev with_page : Vmm
with_page = (vmm_map_page 4096 0 36864 7 booted).1

page_mapped : vmm_map_page 4096 0 36864 7 booted ≡ (true, with_page)
unfolding vmm_init init_tables phys_to_virt alloc_block get_free_block_count bitmap_first_free
    first_free_from first_clear is_set bitmap_set make_table find_table vmm_map_page page_passes
    pages_pass vmm_check_user_ptr
page_mapped = refl

table_place : (make_table booted 4096 (page_of 0)).0 + 4 * table_index 0 ≡ 8192
unfolding vmm_init init_tables phys_to_virt alloc_block get_free_block_count bitmap_first_free
    first_free_from first_clear is_set bitmap_set make_table find_table vmm_map_page page_passes
    pages_pass vmm_check_user_ptr
table_place = refl

entry_place : entry_at booted 4096 (directory_index 0) ≡ 4096
unfolding vmm_init init_tables phys_to_virt alloc_block get_free_block_count bitmap_first_free
    first_free_from first_clear is_set bitmap_set make_table find_table vmm_map_page page_passes
    pages_pass vmm_check_user_ptr
entry_place = refl

seven-AreFlags : AreFlags 7
seven-AreFlags = record { small = omega arith; present = refl }

vmm_get_physical_address-vmm_map_page_example : Translates with_page 4096 0 36864
vmm_get_physical_address-vmm_map_page_example =
    vmm_get_physical_address-vmm_map_page booted with_page 4096 0 36864 7 seven-AreFlags
      (λ e. omega (arith, e, table_place, entry_place)) page_mapped

passes : vmm_check_user_ptr with_page 16 100 true ≡ true
unfolding vmm_init init_tables phys_to_virt alloc_block get_free_block_count bitmap_first_free
    first_free_from first_clear is_set bitmap_set make_table find_table vmm_map_page page_passes
    pages_pass vmm_check_user_ptr
passes = refl

vmm_check_user_ptr-HasUserEntry_example : HasUserEntry with_page true 20
vmm_check_user_ptr-HasUserEntry_example =
    vmm_check_user_ptr-HasUserEntry with_page 16 100 true 20
      (record { start_word = omega arith; len_word = omega arith; some_bytes = omega arith })
      (omega arith) passes (omega arith) (omega arith)

has_directory : with_page.current_directory ≡ 4096
unfolding vmm_init init_tables phys_to_virt alloc_block get_free_block_count bitmap_first_free
    first_free_from first_clear is_set bitmap_set make_table find_table vmm_map_page page_passes
    pages_pass vmm_check_user_ptr
has_directory = refl

vmm_check_user_ptr-wraps_example : vmm_check_user_ptr with_page 0x3000 0xFFFFF000 true ≡ true
vmm_check_user_ptr-wraps_example =
    vmm_check_user_ptr-wraps with_page 0x3000 0xFFFFF000 true
      (record { start_word = omega arith; len_word = omega arith; some_bytes = omega arith })
      (omega arith) (omega arith) (omega arith) (λ e. omega (arith, e, has_directory))

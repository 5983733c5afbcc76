-- ===== src/Vmm/Table.antt =====
-- One page directory and its tables, kernel/mm/vmm.c, over the physical memory manager. The memory
-- holds the word at each address that the kernel uses; a table is 1024 words.
use mex_os.Base.{
  ℕ, ◌+◌, ◌-◌, ◌*◌, ◌/◌, ◌%◌, ◌^◌, bit_or, Bool, true, false, ◌&&◌, if◌then◌else◌, ltb, leb, ◌==◌,
  add32, sub32,
}
use mex_os.Pmm.{Pmm, alloc_block, free_block}

abbrev pub Memory : Type 0
Memory = ℕ → ℕ

-- `cr3` is the register as last written, `paging` bit 31 of CR0.
pub record Vmm : Type 0 where
  pub pmm : Pmm
  pub memory : Memory
  pub kernel_directory : ℕ
  pub kernel_directory_phys : ℕ
  pub current_directory : ℕ
  pub cr3 : ℕ
  pub paging : Bool

abbrev pub page_size : ℕ
page_size = 4096

abbrev pub kernel_virtual_base : ℕ
kernel_virtual_base = 0xC0000000

abbrev pub user_space_end : ℕ
user_space_end = 0xBFFFFFFF

abbrev pub page_present : ℕ
page_present = 1

abbrev pub page_write : ℕ
page_write = 2

abbrev pub page_user : ℕ
page_user = 4

-- `entry & PAGE_PRESENT`, `& PAGE_WRITE`, `& PAGE_USER`
abbrev pub is_present : ℕ → Bool
is_present entry = entry % 2 == 1

abbrev pub is_writable : ℕ → Bool
is_writable entry = entry / 2 % 2 == 1

abbrev pub is_user : ℕ → Bool
is_user entry = entry / 4 % 2 == 1

-- `x & ~0xFFF` and `x & 0xFFF`
abbrev pub page_of : ℕ → ℕ
page_of x = x - x % page_size

abbrev pub low_bits : ℕ → ℕ
low_bits x = x % page_size

-- `PAGE_DIRECTORY_INDEX` and `PAGE_TABLE_INDEX`
abbrev pub directory_index : ℕ → ℕ
directory_index x = x / 2 ^ 22 % 1024

abbrev pub table_index : ℕ → ℕ
table_index x = x / 2 ^ 12 % 1024

abbrev pub write_word : Memory → ℕ → ℕ → Memory
write_word m a v k = if k == a then v else m k

-- `n` words from `a` on are 0.
abbrev pub clear_words : Memory → ℕ → ℕ → Memory
clear_words m a n k = if leb a k && ltb k (a + 4 * n) then 0 else m k

unfoldable pub phys_to_virt : Vmm → ℕ → ℕ
phys_to_virt s phys =
    if s.kernel_directory_phys == 0
    then phys
    else if ltb s.kernel_directory kernel_virtual_base
    then phys
    else add32 phys (sub32 s.kernel_directory s.kernel_directory_phys)

-- `&dir[index]` and `&table[index]`
abbrev pub entry_at : Vmm → ℕ → ℕ → ℕ
entry_at s page index = phys_to_virt s page + 4 * index

abbrev pub directory_entry : Vmm → ℕ → ℕ → ℕ
directory_entry s page_dir virt = s.memory (entry_at s page_dir (directory_index virt))

-- The address of the table of an address, 0 for a null pointer.
unfoldable pub find_table : Vmm → ℕ → ℕ → ℕ
find_table s page_dir virt =
    if is_present (directory_entry s page_dir virt)
    then phys_to_virt s (page_of (directory_entry s page_dir virt))
    else 0

abbrev pub table_flags : ℕ → ℕ
table_flags virt =
    if ltb virt kernel_virtual_base
    then bit_or (bit_or page_present page_write) page_user
    else bit_or page_present page_write

-- `get_page_table` with `create`: a table that is missing is allocated.
unfoldable pub make_table : Vmm → ℕ → ℕ → ℕ × Vmm
make_table s page_dir virt =
    let (table_phys, p) = alloc_block s.pmm in
    let table = phys_to_virt s table_phys in
    let cleared = clear_words s.memory table 1024 in
    let linked =
      write_word cleared (entry_at s page_dir (directory_index virt))
        (bit_or table_phys (table_flags virt)) in
    if is_present (directory_entry s page_dir virt)
    then (find_table s page_dir virt, s)
    else if table_phys == 0
    then (0, record s { pmm = p })
    else (table, record s { pmm = p; memory = linked })

-- Whether it returned 0. `invlpg` drops what the processor remembers of the page.
unfoldable pub vmm_map_page : ℕ → ℕ → ℕ → ℕ → Vmm → Bool × Vmm
vmm_map_page page_dir virt phys flags s =
    let (table, t) = make_table s page_dir (page_of virt) in
    if table == 0 then (false, t) else (
      true,
      record t {
        memory =
            write_word t.memory (table + 4 * table_index (page_of virt))
              (bit_or (page_of phys) flags);
      },
    )

unfoldable pub vmm_unmap_page : ℕ → ℕ → Vmm → Vmm
vmm_unmap_page page_dir virt s =
    let table = find_table s page_dir (page_of virt) in
    if table == 0
    then s
    else record s { memory = write_word s.memory (table + 4 * table_index (page_of virt)) 0 }

-- The entry of an address in its table, 0 if there is no table.
unfoldable pub table_entry : Vmm → ℕ → ℕ → ℕ
table_entry s page_dir virt =
    let table = find_table s page_dir virt in
    if table == 0 then 0 else s.memory (table + 4 * table_index virt)

unfoldable pub vmm_get_physical_address : Vmm → ℕ → ℕ → ℕ
vmm_get_physical_address s page_dir virt =
    let entry = table_entry s page_dir virt in
    if is_present entry then bit_or (page_of entry) (low_bits virt) else 0

unfoldable pub vmm_is_mapped : Vmm → ℕ → ℕ → Bool
vmm_is_mapped s page_dir virt = is_present (table_entry s page_dir virt)

unfoldable pub vmm_alloc_page : ℕ → ℕ → ℕ → Vmm → Bool × Vmm
vmm_alloc_page page_dir virt flags s =
    let (phys, p) = alloc_block s.pmm in
    let (mapped, t) =
      vmm_map_page page_dir virt phys (bit_or flags page_present) (record s { pmm = p }) in
    if phys == 0
    then (false, record s { pmm = p })
    else if mapped
    then (true, t)
    else (false, record t { pmm = free_block t.pmm phys })

unfoldable pub vmm_free_page : ℕ → ℕ → Vmm → Vmm
vmm_free_page page_dir virt s =
    let phys = vmm_get_physical_address s page_dir virt in
    vmm_unmap_page page_dir virt
      (if phys == 0 then s else record s { pmm = free_block s.pmm (page_of phys) })

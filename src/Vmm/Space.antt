-- ===== src/Vmm/Space.antt =====
-- Address spaces of kernel/mm/vmm.c: making, freeing, copying and switching, the check of user
-- pointers and `vmm_init`.
use mex_os.Base.{
  ℕ, zero, suc, ◌+◌, ◌-◌, ◌*◌, ◌/◌, bit_or, Bool, true, false, not, ◌&&◌, ◌||◌, if◌then◌else◌, ltb,
  leb, ◌==◌, add32, sub32,
}
use mex_os.Pmm.{Pmm, alloc_block, free_block}
use mex_os.Vmm.Table.{
  Memory, Vmm, page_size, user_space_end, page_present, page_write, is_present, is_writable,
  is_user, page_of, low_bits, table_index, write_word, clear_words, phys_to_virt, entry_at,
  directory_entry,
}

-- `memcpy` of `n` words.
abbrev pub copy_words : Memory → ℕ → ℕ → ℕ → Memory
copy_words m target source n k =
    if leb target k && ltb k (target + 4 * n) then m (source + (k - target)) else m k

-- The new directory, 0 for a null pointer. It shares the kernel's last 256 entries.
unfoldable pub vmm_create_address_space : Vmm → ℕ × Vmm
vmm_create_address_space s =
    let (page_dir, p) = alloc_block s.pmm in
    let t : Vmm = record s { pmm = p } in
    let cleared = clear_words s.memory (phys_to_virt s page_dir) 1024 in
    let shared =
      copy_words cleared (entry_at s page_dir 768) (entry_at s s.kernel_directory 768) 256 in
    if page_dir == 0
    then (0, t)
    else (page_dir, record t { memory = if s.kernel_directory == 0 then cleared else shared })

-- The loop over the entries of a table, `n` of them from the one at `a` on: present pages are freed.
unfoldable pub free_pages : Memory → ℕ → ℕ → Pmm → Pmm
free_pages m a zero p = p
free_pages m a (suc n) p =
    free_pages m (a + 4) n (if is_present (m a) then free_block p (page_of (m a)) else p)

-- The loop over the entries of a directory.
unfoldable pub free_tables : Vmm → ℕ → ℕ → Pmm → Pmm
free_tables s a zero p = p
free_tables s a (suc n) p =
    let table_phys = page_of (s.memory a) in
    let freed = free_block (free_pages s.memory (phys_to_virt s table_phys) 1024 p) table_phys in
    free_tables s (a + 4) n (if is_present (s.memory a) then freed else p)

unfoldable pub vmm_destroy_address_space : ℕ → Vmm → Vmm
vmm_destroy_address_space page_dir s =
    if (page_dir == 0) || (page_dir == s.kernel_directory)
    then s
    else record s { pmm = free_block (free_tables s (phys_to_virt s page_dir) 768 s.pmm) page_dir }

unfoldable pub vmm_switch_address_space : ℕ → Vmm → Vmm
vmm_switch_address_space page_dir s =
    if page_dir == 0 then s else record s { current_directory = page_dir; cr3 = page_dir }

-- The loop over the entries of one table in `vmm_clone_address_space`; whether it had the memory.
unfoldable pub clone_pages : ℕ → ℕ → ℕ → Vmm → Bool × Vmm
clone_pages target source zero s = (true, s)
clone_pages target source (suc n) s =
    let entry = s.memory source in
    let (new_phys, p) = alloc_block s.pmm in
    let copied =
      copy_words s.memory (phys_to_virt s new_phys) (phys_to_virt s (page_of entry)) 1024 in
    elim (is_present entry) [
      | false ↦
          clone_pages (target + 4) (source + 4) n
            (record s { memory = write_word s.memory target 0 })
      | true ↦ elim (new_phys == 0) [
        | true ↦ (false, record s { pmm = p })
        | false ↦ clone_pages (target + 4) (source + 4) n (record s {
          pmm = p;
          memory = write_word copied target (bit_or new_phys (low_bits (copied source)));
        })
      ]
    ]

-- The loop over the entries of the directory. On failure the new directory is destroyed.
unfoldable pub clone_tables : ℕ → ℕ → ℕ → ℕ → Vmm → Bool × Vmm
clone_tables dst target source zero s = (true, s)
clone_tables dst target source (suc n) s =
    let entry = s.memory source in
    let (table_phys, p) = alloc_block s.pmm in
    let (copied, t) =
      clone_pages (phys_to_virt s table_phys) (phys_to_virt s (page_of entry)) 1024
        (record s { pmm = p }) in
    elim (is_present entry) [
      | false ↦ clone_tables dst (target + 4) (source + 4) n s
      | true ↦ elim (table_phys == 0) [
        | true ↦ (false, vmm_destroy_address_space dst (record s { pmm = p }))
        | false ↦ elim copied [
          | false ↦ (
            false,
            vmm_destroy_address_space dst (record t { pmm = free_block t.pmm table_phys }),
          )
          | true ↦ clone_tables dst (target + 4) (source + 4) n (record t {
            memory = write_word t.memory target (bit_or table_phys (low_bits (t.memory source)));
          })
        ]
      ]
    ]

unfoldable pub vmm_clone_address_space : ℕ → Vmm → ℕ × Vmm
vmm_clone_address_space src s =
    let (dst, t) = vmm_create_address_space s in
    let (whole, u) = clone_tables dst (phys_to_virt t dst) (phys_to_virt t src) 768 t in
    if dst == 0 then (0, t) else ((if whole then dst else 0), u)

-- Whether a page of user space passes the tests of `vmm_check_user_ptr`.
unfoldable pub page_passes : Vmm → Bool → ℕ → Bool
page_passes s write page =
    let dir = directory_entry s s.current_directory page in
    let entry = s.memory (entry_at s (page_of dir) (table_index page)) in
    is_present dir && is_present entry && is_user entry && (not write || is_writable entry)

-- The loop `while (page <= end)`, with the rounds that are left.
unfoldable pub pages_pass : Vmm → Bool → ℕ → ℕ → ℕ → Bool
pages_pass s write end_at zero page = true
pages_pass s write end_at (suc rounds) page =
    if leb page end_at
    then page_passes s write page && pages_pass s write end_at rounds (add32 page page_size)
    else true

-- The end is at most 0xBFFFFFFF, so 2 ^ 20 rounds are more than enough.
unfoldable pub vmm_check_user_ptr : Vmm → ℕ → ℕ → Bool → Bool
vmm_check_user_ptr s start len write =
    let end_at = sub32 (add32 start len) 1 in
    if start == 0
    then false
    else if len == 0
    then true
    else if ltb user_space_end start || ltb user_space_end end_at
    then false
    else if s.current_directory == 0
    then false
    else pages_pass s write end_at (end_at / page_size + 1) (page_of start)

-- The table `table_idx` of `vmm_init`: its 1024 entries map the memory to itself.
abbrev identity_table : Memory → ℕ → ℕ → Memory
identity_table m table table_idx k =
    if leb table k && ltb k (table + 4096)
    then bit_or (bit_or (table_idx * 0x400000 + (k - table) / 4 * page_size) page_present)
        page_write
    else m k

-- The loop over the tables; whether it had the memory.
unfoldable pub init_tables : ℕ → ℕ → ℕ → Vmm → Bool × Vmm
init_tables dir table_idx zero s = (true, s)
init_tables dir table_idx (suc n) s =
    let (table_phys, p) = alloc_block s.pmm in
    let filled = identity_table s.memory (phys_to_virt s table_phys) table_idx in
    let linked =
      write_word filled (dir + 4 * table_idx)
        (bit_or (bit_or table_phys page_present) page_write) in
    elim (table_phys == 0) [
      | true ↦ (false, record s { pmm = p })
      | false ↦ init_tables dir (table_idx + 1) n (record s { pmm = p; memory = linked })
    ]

unfoldable pub vmm_init : Vmm → Vmm
vmm_init s =
    let (dir, p) = alloc_block s.pmm in
    let t : Vmm = record s {
      pmm = p;
      kernel_directory = dir;
      kernel_directory_phys = dir;
      current_directory = dir;
    } in
    let base = phys_to_virt t dir in
    let (whole, u) = init_tables base 0 2 (record t { memory = clear_words t.memory base 1024 }) in
    if dir == 0
    then record s { pmm = p; kernel_directory = 0 }
    else if whole
    then record u { cr3 = dir; paging = true }
    else u

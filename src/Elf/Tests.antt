-- ===== src/Elf/Tests.antt =====
-- A small program for kernel/core/elf.c.
use mex_os.Base.{
  ℕ, ◌+◌, ◌*◌, ◌≡◌, ◌≢◌, ◌≤◌, ◌<◌, ◌^◌, ◌++◌, refl, true, false, List, [], ◌∷◌, if◌then◌else◌,
  replicate, get_or, ◌==◌, add32, arith,
}
use mex_os.Pmm.Bitmap.{bitmap_set, bitmap_first_free, first_free_from, first_clear, is_set}
use mex_os.Pmm.{alloc_block, get_free_block_count}
use mex_os.Diskfs.Layout.{Bytes, word32}
use mex_os.Vmm.Table.{
  Vmm, phys_to_virt, find_table, make_table, vmm_map_page, vmm_alloc_page, vmm_is_mapped,
  table_entry,
}
use mex_os.Vmm.Space.{init_tables, vmm_init}
use mex_os.Elf.Load.{
  Phdr, phdr_at, phdr_size, e_phoff, e_phnum, header_size, LoadResult, Loader, elf_validate,
  elf_load, load_segments, load_segment, map_pages, fill_segment, is_loaded, store, can_store,
  loaded, refused, faulted,
}
use mex_os.Elf.Inside.{IsInside, elf_load-IsInside}
use mex_os.Elf.Stores.{load_segment_wraps}

-- 64 blocks, the first of them taken, after `vmm_init`.
abbrev booted : Vmm
booted = vmm_init (record {
  pmm = record {
    bitmap_addr = 0;
    bitmap = λ i. if i == 0 then 1 else 0;
    bitmap_size = 8;
    memory_size = 262144;
    used_blocks = 1;
    max_blocks = 64;
  };
  memory = λ a. 0;
  kernel_directory = 0;
  kernel_directory_phys = 0;
  current_directory = 0;
  cr3 = 0;
  paging = false;
})

abbrev zeros : ℕ → List ℕ
zeros n = replicate n 0

-- A header, one program header and 4 bytes for address 0x40000000.
abbrev program : List ℕ
program =
    0x7F ∷ b'E' ∷ b'L' ∷ b'F' ∷ 1 ∷ 1 ∷ zeros 10
    ++ (2 ∷ 0 ∷ 3 ∷ 0 ∷ zeros 4
        ++ (0 ∷ 0 ∷ 0 ∷ 64 ∷ 52 ∷ 0 ∷ 0 ∷ 0 ∷ zeros 12
            ++ (1 ∷ 0 ∷ zeros 6
                ++ (1 ∷ 0 ∷ 0 ∷ 0 ∷ 84 ∷ 0 ∷ 0 ∷ 0 ∷ 0 ∷ 0 ∷ 0 ∷ 64 ∷ zeros 4
                    ++ (4 ∷ 0 ∷ 0 ∷ 0 ∷ 8 ∷ 0 ∷ 0 ∷ 0 ∷ 6 ∷ 0 ∷ 0 ∷ 0 ∷ zeros 4
                        ++ (11 ∷ 12 ∷ 13 ∷ 14 ∷ []))))))

abbrev contents : Bytes
contents i = get_or program i 0

abbrev loader : Loader
loader = record { vmm = booted; user = λ a. 99 }

abbrev with_program : Loader
with_program = (elf_load contents 88 4096 loader).1

abbrev result : LoadResult
result = record { entry_point = 0x40000000; brk = 0x40001000 }

loads : elf_load contents 88 4096 loader ≡ (loaded result, with_program)
unfolding word32 elf_validate elf_load load_segments load_segment map_pages store fill_segment
    vmm_alloc_page vmm_is_mapped table_entry vmm_init init_tables phys_to_virt alloc_block
    get_free_block_count bitmap_first_free first_free_from first_clear is_set bitmap_set make_table
    find_table vmm_map_page
loads = refl

last_byte : with_program.user 0x40000003 ≡ 14
unfolding word32 elf_validate elf_load load_segments load_segment map_pages store fill_segment
    vmm_alloc_page vmm_is_mapped table_entry vmm_init init_tables phys_to_virt alloc_block
    get_free_block_count bitmap_first_free first_free_from first_clear is_set bitmap_set make_table
    find_table vmm_map_page
last_byte = refl

zero_byte : with_program.user 0x40000004 ≡ 0
unfolding word32 elf_validate elf_load load_segments load_segment map_pages store fill_segment
    vmm_alloc_page vmm_is_mapped table_entry vmm_init init_tables phys_to_virt alloc_block
    get_free_block_count bitmap_first_free first_free_from first_clear is_set bitmap_set make_table
    find_table vmm_map_page
zero_byte = refl

one_header : 0 < e_phnum contents
one_header = omega arith

is_load : is_loaded (phdr_at contents (e_phoff contents + 32 * 0)) ≡ true
unfolding word32
is_load = refl

elf_load-IsInside_example :
    (elf_validate contents ≡ true)
    × (header_size ≤ 88)
    × (add32 (e_phoff contents) (e_phnum contents * phdr_size) ≤ 88)
    × ((k : ℕ)
        → k < e_phnum contents
        → is_loaded (phdr_at contents (e_phoff contents + 32 * k)) ≡ true
        → IsInside 88 (phdr_at contents (e_phoff contents + 32 * k)))
elf_load-IsInside_example = elf_load-IsInside contents 88 4096 loader with_program result loads

-- A segment from the last page of user space to the end of the address space.
abbrev wide : Phdr
wide = record {
  p_type = 1;
  p_offset = 84;
  p_vaddr = 0xBFFFF000;
  p_filesz = 4;
  p_memsz = 0x40001000;
  p_flags = 6;
}

wide-IsInside : IsInside 88 wide
wide-IsInside = record { below_kernel = omega arith; in_file = refl }

-- Its first page is not mapped, so loading it faults.
not_mapped : can_store booted 0xBFFFF000 ≡ false
unfolding vmm_is_mapped table_entry vmm_init init_tables phys_to_virt alloc_block
    get_free_block_count bitmap_first_free first_free_from first_clear is_set bitmap_set make_table
    find_table vmm_map_page
not_mapped = refl

wide_faults : (load_segment contents 88 4096 wide loader).0 ≡ faulted
wide_faults =
    (load_segment_wraps contents 88 4096 wide loader wide-IsInside (omega arith) (omega arith)).2
      (omega arith) not_mapped

load_segment_wraps_example :
    let (outcome, t) = load_segment contents 88 4096 wide loader in
    (outcome ≢ refused)
    × (t.vmm ≡ booted)
    × (0 < 4 → can_store booted 0xBFFFF000 ≡ false → outcome ≡ faulted)
    × (outcome ≡ loaded tt
        → (a : ℕ) → 0xBFFFF000 + 4 ≤ a
        → a < 0xBFFFF000 + 0x40001000
        → a < 2 ^ 32
        → t.user a ≡ 0)
load_segment_wraps_example =
    load_segment_wraps contents 88 4096 wide loader wide-IsInside (omega arith) (omega arith)

-- ===== src/Elf/Load.antt =====
-- Loading a program, kernel/core/elf.c. The file is an array of bytes with its size: `contents i` is
-- the byte at the address `data + i`, modulo 2 ^ 32.
use mex_os.Base.{
  ℕ, zero, suc, ◌+◌, ◌-◌, ◌*◌, ◌/◌, ◌%◌, bit_or, Bool, true, false, not, ◌&&◌, ◌||◌, Option, none,
  some, if◌then◌else◌, ltb, leb, ◌==◌, get_or, length, add32,
}
use mex_os.Text.{Text}
use mex_os.Fs.Node.{ok, err, DiskFs, Fs, max_file_size}
use mex_os.Fs.Ops.{copy_at}
use mex_os.Fs.Disk.{fs_read}
use mex_os.Diskfs.Layout.{Bytes, word32}
use mex_os.Vmm.Table.{
  Vmm, page_size, page_present, page_write, page_user, kernel_virtual_base, page_of, vmm_is_mapped,
  vmm_alloc_page,
}

abbrev pub header_size : ℕ
header_size = 52

-- `sizeof(struct elf32_phdr)`
abbrev pub phdr_size : ℕ
phdr_size = 32

abbrev pub word16 : Bytes → ℕ → ℕ
word16 b i = b i + 256 * b (i + 1)

-- The fields of `struct elf32_phdr` that are read.
pub record Phdr : Type 0 where
  pub p_type : ℕ
  pub p_offset : ℕ
  pub p_vaddr : ℕ
  pub p_filesz : ℕ
  pub p_memsz : ℕ
  pub p_flags : ℕ

abbrev pub phdr_at : Bytes → ℕ → Phdr
phdr_at b i = record {
  p_type = word32 b i;
  p_offset = word32 b (i + 4);
  p_vaddr = word32 b (i + 8);
  p_filesz = word32 b (i + 16);
  p_memsz = word32 b (i + 20);
  p_flags = word32 b (i + 24);
}

abbrev pub e_entry : Bytes → ℕ
e_entry b = word32 b 24

abbrev pub e_phoff : Bytes → ℕ
e_phoff b = word32 b 28

abbrev pub e_phnum : Bytes → ℕ
e_phnum b = word16 b 44

pub record LoadResult : Type 0 where
  pub entry_point : ℕ
  pub brk : ℕ

-- `user` is the bytes at the addresses that the processor sees, in the address space that is current.
pub record Loader : Type 0 where
  pub vmm : Vmm
  pub user : Bytes

-- How loading ends: with 0 and a result, with -1, or in a page fault.
pub data LoadOutcome (A : Type 0) : Type 0 where
  loaded : A → LoadOutcome A
  refused faulted : LoadOutcome A

-- Whether it returned 0.
unfoldable pub elf_validate : Bytes → Bool
elf_validate b =
    (b 0 == 0x7F)
    && (b 1 == b'E')
    && (b 2 == b'L')
    && (b 3 == b'F')
    && (b 4 == 1)
    && (b 5 == 1)
    && (word16 b 16 == 2)
    && (word16 b 18 == 3)

abbrev pub segment_flags : Phdr → ℕ
segment_flags p =
    if p.p_flags / 2 % 2 == 1
    then bit_or (bit_or page_present page_user) page_write
    else bit_or page_present page_user

abbrev pub segment_start : Phdr → ℕ
segment_start p = page_of p.p_vaddr

abbrev pub segment_end : Phdr → ℕ
segment_end p = page_of (add32 (add32 p.p_vaddr p.p_memsz) 0xFFF)

-- The loop over the pages of a segment, `n` of them from `page` on.
unfoldable pub map_pages : ℕ → ℕ → ℕ → ℕ → Vmm → Bool × Vmm
map_pages page_dir flags page zero s = (true, s)
map_pages page_dir flags page (suc n) s =
    let (given, t) = vmm_alloc_page page_dir page flags s in
    elim (vmm_is_mapped s page_dir page) [
      | true ↦ map_pages page_dir flags (page + page_size) n s
      | false ↦ elim given [
        | false ↦ (false, t)
        | true ↦ map_pages page_dir flags (page + page_size) n t
      ]
    ]

-- Whether a store of the kernel at an address does not fault. CR0.WP is not set, so a present page
-- will do.
abbrev pub can_store : Vmm → ℕ → Bool
can_store v a = not v.paging || vmm_is_mapped v v.cr3 a

abbrev pub write_byte : Bytes → ℕ → ℕ → Bytes
write_byte user a b k = if k == a then b else user k

-- `*dst++ = …` for `n` bytes, up to the first store that faults: the pointer wraps around at the end
-- of the address space.
unfoldable pub store : Vmm → ℕ → ℕ → Bytes → Bytes → Bool × Bytes
store v zero a source user = (true, user)
store v (suc n) a source user =
    let rest = store v n (add32 a 1) (λ k. source (suc k)) (write_byte user a (source 0)) in
    if can_store v a then rest else (false, user)

-- The bytes of the file at the segment's address, and zeros behind them.
unfoldable pub fill_segment : Bytes → Phdr → Vmm → Bytes → Bool × Bytes
fill_segment contents p v user =
    let (copied, u) = store v p.p_filesz p.p_vaddr (λ k. contents (p.p_offset + k)) user in
    let bss = store v (p.p_memsz - p.p_filesz) (add32 p.p_vaddr p.p_filesz) (λ k. 0) u in
    if copied then bss else (false, u)

abbrev pub is_loaded : Phdr → Bool
is_loaded p = (p.p_type == 1) && not (p.p_memsz == 0)

-- One round of the loop of `elf_load`, for a segment that is loaded.
unfoldable pub load_segment : Bytes → ℕ → ℕ → Phdr → Loader → LoadOutcome Unit × Loader
load_segment contents size page_dir p s =
    let pages = (segment_end p - segment_start p) / page_size in
    let (mapped, v) = map_pages page_dir (segment_flags p) (segment_start p) pages s.vmm in
    if leb kernel_virtual_base p.p_vaddr
    then (refused, s)
    else if not mapped || (ltb 0 p.p_filesz && ltb size (add32 p.p_offset p.p_filesz))
    then (refused, record s { vmm = v })
    else (let (stored, user) = fill_segment contents p v s.user in
        (if stored then loaded tt else faulted, record { vmm = v; user = user }))

-- The end of the last segment so far.
abbrev pub next_brk : ℕ → Phdr → ℕ
next_brk brk p = let end_at = add32 p.p_vaddr p.p_memsz in if ltb brk end_at then end_at else brk

-- The loop over the program headers, `n` of them from the one at `i` on.
unfoldable pub load_segments : Bytes → ℕ → ℕ → ℕ → ℕ → ℕ → Loader → LoadOutcome ℕ × Loader
load_segments contents size page_dir i zero brk s = (loaded brk, s)
load_segments contents size page_dir i (suc n) brk s =
    let p = phdr_at contents i in
    elim (is_loaded p) [
      | false ↦ load_segments contents size page_dir (i + phdr_size) n brk s
      | true ↦
          let (outcome, t) = load_segment contents size page_dir p s in
          elim outcome [
            | refused ↦ (refused, t)
            | faulted ↦ (faulted, t)
            | loaded _ ↦ load_segments contents size page_dir (i + phdr_size) n (next_brk brk p) t
          ]
    ]

-- `contents` is not null, nor is `result`.
unfoldable pub elf_load : Bytes → ℕ → ℕ → Loader → LoadOutcome LoadResult × Loader
elf_load contents size page_dir s =
    let headers = add32 (e_phoff contents) (e_phnum contents * phdr_size) in
    if (page_dir == 0)
      || ltb size header_size
      || not (elf_validate contents)
      || (e_phoff contents == 0)
      || (e_phnum contents == 0)
      || ltb size headers
    then (refused, s)
    else (let (brk, t) =
          load_segments contents size page_dir (e_phoff contents) (e_phnum contents) 0 s in
        elim brk [
          | refused ↦ (refused, t)
          | faulted ↦ (faulted, t)
          | loaded b ↦
              (loaded (record { entry_point = e_entry contents; brk = page_of (add32 b 0xFFF) }), t)
        ])

-- `buffer` is the static array, which keeps what an earlier file left behind the new one.
unfoldable pub elf_load_file :
    {D : Type 0} ⦃disk : DiskFs D⦄
    → Option Text
    → ℕ
    → Bytes
    → Fs D
    → Loader
    → LoadOutcome LoadResult × Bytes × Fs D × Loader
elf_load_file none page_dir buffer f s = (refused, buffer, f, s)
elf_load_file (some path) page_dir buffer f s =
    if page_dir == 0
    then (refused, buffer, f, s)
    else (let (read, f') = fs_read (some path) max_file_size f in
        elim read [
          | err e ↦ (refused, buffer, f', s)
          | ok bytes ↦
              let contents = copy_at buffer 0 (λ k. get_or bytes k 0) (length bytes) in
              let (result, t) = elf_load contents (length bytes) page_dir s in
              (result, contents, f', t)
        ])

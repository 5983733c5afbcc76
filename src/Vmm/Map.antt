-- ===== src/Vmm/Map.antt =====
-- Mapping, unmapping and translation in kernel/mm/vmm.c agree.
use mex_os.Base.{
  ℕ, ◌+◌, ◌*◌, ◌/◌, ◌%◌, ◌^◌, ◌<◌, ◌≡◌, ◌≢◌, inl, inr, refl, ap, ◌∙◌, subst, bit_or, true, false,
  if◌then◌else◌, ◌==◌, mul32, arith, Bool-cases, Option-cases, ℕ_discrete,
}
use mex_os.Base.Bits.{bit_or-aligned}
use mex_os.Pmm.Bitmap.{bitmap_first_free}
use mex_os.Pmm.{Pmm, alloc_block, get_free_block_count}
use mex_os.Vmm.Table.{
  Vmm, page_of, is_present, directory_index, table_index, write_word, phys_to_virt, entry_at,
  find_table, vmm_unmap_page, table_entry, vmm_is_mapped,
}

-- An entry: the address of a page and flags below 4096.
pub entry_lem :
    (a f : ℕ)
    → f < 4096
    → (bit_or (a * 4096) f ≡ a * 4096 + f)
      × (page_of (bit_or (a * 4096) f) ≡ a * 4096)
      × (is_present (bit_or (a * 4096) f) ≡ is_present f)
entry_lem a f below =
    let e : bit_or (a * 4096) f ≡ a * 4096 + f = bit_or-aligned 12 a f below in
    (e, omega (arith, e, below), ground (arith, e))

-- A page's addresses have its indices.
pub index_lem :
    (x : ℕ)
    → (directory_index (page_of x) ≡ directory_index x) × (table_index (page_of x) ≡ table_index x)
index_lem x =
    let whole : page_of x ≡ 4096 * (x / 4096) = omega arith in
    let d : page_of x / 2 ^ 22 ≡ x / 2 ^ 22 = omega (arith, whole) in
    let t : page_of x / 2 ^ 12 ≡ x / 2 ^ 12 = omega (arith, whole) in
    (ap (λ y. y % 1024) d, ap (λ y. y % 1024) t)

-- The physical memory manager gives out whole pages.
pub alloc_block-aligned : (p : Pmm) → (a : ℕ) × ((alloc_block p).0 ≡ a * 4096)
unfolding alloc_block
alloc_block-aligned p = elim (Bool-cases (get_free_block_count p == 0)) [
  | inl e ↦ (0, rw (e, alloc_block) refl)
  | inr e ↦ elim (Option-cases (bitmap_first_free p.bitmap p.max_blocks)) [
    | inl f ↦ (0, rw (e, f, alloc_block) refl)
    | inr (frame, f) ↦ (mul32 frame 4096 / 4096, rw (e, f, alloc_block) (omega arith))
  ]
]

module _ (s : Vmm) (page_dir virt : ℕ) where
  -- The state with another word at `a`.
  abbrev pub written : ℕ → ℕ → Vmm
  written a v = record s { memory = write_word s.memory a v }

  abbrev pub dir_place : ℕ
  dir_place = entry_at s page_dir (directory_index virt)

  abbrev pub table_from : ℕ → ℕ
  table_from entry = if is_present entry then phys_to_virt s (page_of entry) else 0

  write_self : (a v : ℕ) → write_word s.memory a v a ≡ v
  write_self a v = let self : (a == a) ≡ true = ground arith in rw self refl

  find_written :
      (a v : ℕ)
      → a ≢ dir_place
      → find_table (written a v) page_dir virt ≡ find_table s page_dir virt
  unfolding find_table phys_to_virt
  find_written a v apart =
      let other : (dir_place == a) ≡ false = ground (arith, apart) in
      let same : write_word s.memory a v dir_place ≡ s.memory dir_place = rw other refl in
      ap table_from same

  find_self : (a v : ℕ) → a ≡ dir_place → find_table (written a v) page_dir virt ≡ table_from v
  unfolding find_table phys_to_virt
  find_self a v same =
      let e : write_word s.memory a v dir_place ≡ v =
        subst (λ k. write_word s.memory a v k ≡ v) same (write_self a v) in
      ap table_from e

  -- A table's entry, read after it is written.
  pub entry_written :
      (table v : ℕ)
      → table ≢ 0
      → find_table s page_dir virt ≡ table
      → table + 4 * table_index virt ≢ dir_place
      → table_entry (written (table + 4 * table_index virt) v) page_dir virt ≡ v
  unfolding table_entry
  entry_written table v there found apart =
      let a = table + 4 * table_index virt in
      let t = find_written a v apart ∙ found in
      let some_table : (table == 0) ≡ false = ground (arith, there) in
      rw (t, some_table, table_entry) (write_self a v)

  entry_cleared :
      (table : ℕ)
      → table ≢ 0
      → find_table s page_dir virt ≡ table
      → table_entry (written (table + 4 * table_index virt) 0) page_dir virt ≡ 0
  unfolding table_entry
  entry_cleared table there found = elim (ℕ_discrete (table + 4 * table_index virt) dir_place) [
    | no apart ↦ entry_written table 0 there found apart
    | yes same ↦
        let none_there : find_table (written (table + 4 * table_index virt) 0) page_dir virt ≡ 0 =
          find_self (table + 4 * table_index virt) 0 same in
        rw (none_there, table_entry) refl
  ]

  -- The indices of the page.
  pub find_page : find_table s page_dir (page_of virt) ≡ find_table s page_dir virt
  unfolding find_table
  find_page = ap (λ i. table_from (s.memory (entry_at s page_dir i))) (index_lem virt).0

  -- After `vmm_unmap_page` the address is not mapped.
  pub vmm_is_mapped-vmm_unmap_page :
      vmm_is_mapped (vmm_unmap_page page_dir virt s) page_dir virt ≡ false
  unfolding vmm_is_mapped vmm_unmap_page table_entry
  vmm_is_mapped-vmm_unmap_page =
      let index = (index_lem virt).1 in
      elim (Bool-cases (find_table s page_dir virt == 0)) [
        | inl missing ↦
            let same : find_table s page_dir virt ≡ 0 = ground (arith, missing) in
            rw (find_page, missing, vmm_unmap_page) (rw (missing, vmm_is_mapped, table_entry) refl)
        | inr there ↦
            let cleared =
              entry_cleared (find_table s page_dir virt)
                (λ e. (let f : true ≡ false = ground (arith, there, e) in cc)) refl in
            rw (find_page, there, index, vmm_unmap_page) (ap is_present cleared)
      ]

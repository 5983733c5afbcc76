-- ===== src/Vmm/Translate.antt =====
-- What `vmm_map_page` of kernel/mm/vmm.c maps is what the translation finds.
use mex_os.Base.{
  ℕ, ◌+◌, ◌*◌, ◌/◌, ◌<◌, ◌≡◌, ◌≢◌, inl, inr, refl, sym, ap, ◌∙◌, subst, bit_or, Bool, true, false,
  ltb, ◌==◌, arith, Bool-cases,
}
use mex_os.Pmm.{alloc_block}
use mex_os.Vmm.Table.{
  Vmm, page_of, low_bits, is_present, directory_index, table_index, write_word, clear_words,
  phys_to_virt, entry_at, directory_entry, find_table, table_flags, make_table, vmm_map_page,
  table_entry, vmm_get_physical_address, vmm_is_mapped,
}
use mex_os.Vmm.Map.{
  entry_lem, index_lem, alloc_block-aligned, written, entry_written, find_page, table_from,
  dir_place,
}

-- Flags of a mapped page.
pub record AreFlags (flags : ℕ) : Type 0 where
  pub small : flags < 4096
  pub present : is_present flags ≡ true

abbrev pub entry_for : ℕ → ℕ → ℕ
entry_for phys flags = bit_or (page_of phys) flags

-- How an address translates.
pub record Translates (s : Vmm) (page_dir virt phys : ℕ) : Type 0 where
  pub physical : vmm_get_physical_address s page_dir virt ≡ page_of phys + low_bits virt
  pub mapped : vmm_is_mapped s page_dir virt ≡ true

translates_lem :
    (s : Vmm) (page_dir virt phys flags : ℕ)
    → AreFlags flags
    → table_entry s page_dir virt ≡ entry_for phys flags
    → Translates s page_dir virt phys
unfolding vmm_get_physical_address vmm_is_mapped
translates_lem s page_dir virt phys flags f e =
    let whole : page_of phys ≡ phys / 4096 * 4096 = omega arith in
    let (value, page, present) = entry_lem (phys / 4096) flags f.small in
    let shown : entry_for phys flags ≡ bit_or (phys / 4096 * 4096) flags =
      ap (λ x. bit_or x flags) whole in
    let is_there : is_present (table_entry s page_dir virt) ≡ true =
      ap is_present (e ∙ shown) ∙ present ∙ f.present in
    let page_is : page_of (table_entry s page_dir virt) ≡ phys / 4096 * 4096 =
      ap page_of (e ∙ shown) ∙ page in
    let (sum, _, _) = entry_lem (phys / 4096) (low_bits virt) (omega arith) in
    record {
      physical =
          rw (is_there, page_is, vmm_get_physical_address)
            (sum ∙ ap (λ x. x + low_bits virt) (sym whole));
      mapped = is_there;
    }

-- The last step of `vmm_map_page`, in a state where the table is found.
mapped_lem :
    (t : Vmm) (page_dir virt phys flags table : ℕ)
    → AreFlags flags
    → table ≢ 0
    → find_table t page_dir virt ≡ table
    → table + 4 * table_index virt ≢ dir_place t page_dir virt
    → Translates
        (written t page_dir virt (table + 4 * table_index virt) (entry_for phys flags))
        page_dir
        virt
        phys
mapped_lem t page_dir virt phys flags table f there found apart =
    translates_lem _ page_dir virt phys flags f
      (entry_written t page_dir virt table (entry_for phys flags) there found apart)

flags_lem : (virt : ℕ) → AreFlags (table_flags virt)
flags_lem virt = elim (Bool-cases (ltb virt 0xC0000000)) [
  | inl user ↦ rw (user, table_flags) (record { small = omega arith; present = refl })
  | inr kernel ↦ rw (kernel, table_flags) (record { small = omega arith; present = refl })
]

-- The table that `get_page_table` returns is the one that the directory then leads to.
record IsMade (s : Vmm) (page_dir virt table : ℕ) (t : Vmm) : Type 0 where
  found : find_table t page_dir virt ≡ table
  place : dir_place t page_dir virt ≡ dir_place s page_dir virt

made_lem :
    (s : Vmm) (page_dir virt table : ℕ) (t : Vmm)
    → table ≢ 0
    → make_table s page_dir virt ≡ (table, t)
    → IsMade s page_dir virt table t
unfolding make_table find_table phys_to_virt
made_lem s page_dir virt table t there e =
    elim (Bool-cases (is_present (directory_entry s page_dir virt))) [
      | inl present ↦
          let there_already = phys_to_virt s (page_of (directory_entry s page_dir virt)) in
          let same : find_table s page_dir virt ≡ there_already = rw (present, find_table) refl in
          let x : ℕ × Vmm = (there_already, s) in
          let f : x ≡ (table, t) = rw (present, make_table) at e in
          subst (IsMade s page_dir virt table) (ap (λ p. p.1) f)
            (record { found = same ∙ ap (λ p. p.0) f; place = refl })
      | inr missing ↦
          let (table_phys, p) = alloc_block s.pmm in
          elim (Bool-cases (table_phys == 0)) [
            | inl none_free ↦
                let x : ℕ × Vmm = (0, record s { pmm = p }) in
                let f : x ≡ (table, t) = rw (missing, none_free, make_table) at e in
                elim (there (sym (ap (λ p. p.0) f))) [ ]
            | inr given ↦
                let cleared = clear_words s.memory (phys_to_virt s table_phys) 1024 in
                let v = bit_or table_phys (table_flags virt) in
                let linked : Vmm = record s {
                  pmm = p;
                  memory = write_word cleared (dir_place s page_dir virt) v;
                } in
                let x : ℕ × Vmm = (phys_to_virt s table_phys, linked) in
                let f : x ≡ (table, t) = rw (missing, given, make_table) at e in
                let (a, aligned) = alloc_block-aligned s.pmm in
                let (_, page, present) = entry_lem a (table_flags virt) (flags_lem virt).small in
                let shown : v ≡ bit_or (a * 4096) (table_flags virt) =
                  ap (λ x. bit_or x (table_flags virt)) aligned in
                let self : (dir_place s page_dir virt == dir_place s page_dir virt) ≡ true =
                  ground arith in
                let stored : linked.memory (dir_place s page_dir virt) ≡ v = rw self refl in
                let is_there : is_present v ≡ true =
                  ap is_present shown ∙ present ∙ (flags_lem virt).present in
                let page_is : page_of v ≡ table_phys = ap page_of shown ∙ page ∙ sym aligned in
                let leads : find_table linked page_dir virt ≡ phys_to_virt s table_phys =
                  ap (table_from s page_dir virt) stored ∙ rw (is_there, page_is) refl in
                subst (IsMade s page_dir virt table) (ap (λ p. p.1) f)
                  (record { found = leads ∙ ap (λ p. p.0) f; place = refl })
          ]
    ]

-- A page that is mapped with the present flag translates to the physical page and the offset in it.
-- The entry must not be the directory's own entry for the address.
pub vmm_get_physical_address-vmm_map_page :
    (s s' : Vmm) (page_dir virt phys flags : ℕ)
    → AreFlags flags
    → (make_table s page_dir (page_of virt)).0 + 4 * table_index virt
      ≢ entry_at s page_dir (directory_index virt)
    → vmm_map_page page_dir virt phys flags s ≡ (true, s')
    → Translates s' page_dir virt phys
unfolding vmm_map_page
vmm_get_physical_address-vmm_map_page s s' page_dir virt phys flags f apart e =
    let (table, t) = make_table s page_dir (page_of virt) in
    let (same_dir, same_index) = index_lem virt in
    elim (Bool-cases (table == 0)) [
      | inl missing ↦
          let x : Bool × Vmm = (false, t) in
          let g : x ≡ (true, s') = rw (missing, vmm_map_page) at e in
          let h : false ≡ true = ap (λ p. p.0) g in cc h
      | inr given ↦
          let there : table ≢ 0 = λ z. (let h : true ≡ false = ground (arith, given, z) in cc) in
          let made = made_lem s page_dir (page_of virt) table t there refl in
          let found : find_table t page_dir virt ≡ table =
            sym (find_page t page_dir virt) ∙ made.found in
          let place : dir_place t page_dir virt ≡ entry_at s page_dir (directory_index virt) =
            ap (entry_at t page_dir) (sym same_dir)
            ∙ made.place
            ∙ ap (entry_at s page_dir) same_dir in
          let m =
            mapped_lem t page_dir virt phys flags table f there found (λ z. apart (z ∙ place)) in
          let x : Bool × Vmm =
            (true, written t page_dir virt (table + 4 * table_index virt) (entry_for phys flags)) in
          let g : x ≡ (true, s') = rw (given, same_index, vmm_map_page) at e in
          subst (λ z. Translates z page_dir virt phys) (ap (λ p. p.1) g) m
    ]

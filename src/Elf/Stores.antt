-- ===== src/Elf/Stores.antt =====
-- What the stores of `elf_load` of kernel/core/elf.c write, and a segment whose end wraps around.
use mex_os.Base.{
  ℕ, zero, suc, ◌+◌, ◌-◌, ◌/◌, ◌^◌, ◌≤◌, ◌<◌, ◌≡◌, ◌≢◌, inl, inr, refl, sym, ap, ◌∙◌, subst, true,
  false, leb, ◌==◌, if◌then◌else◌, add32, arith, Bool-cases,
}
use mex_os.Diskfs.Layout.{Bytes}
use mex_os.Vmm.Table.{Vmm, kernel_virtual_base, page_size, page_of}
use mex_os.Elf.Load.{
  Phdr, Loader, LoadOutcome, loaded, refused, faulted, segment_start, segment_end, map_pages,
  load_segment, can_store, store, fill_segment, write_byte,
}
use mex_os.Elf.Inside.{IsInside}

-- A byte that no store goes to is as it was.
store-kept :
    (v : Vmm) (n a b : ℕ) (source user : Bytes)
    → a < 2 ^ 32
    → ((k : ℕ) → k < n → add32 a k ≢ b)
    → (store v n a source user).1 b ≡ user b
unfolding store
store-kept v zero a b source user word apart = refl
store-kept v (suc n) a b source user word apart = elim (Bool-cases (can_store v a)) [
  | inr faults ↦ rw (faults, store) refl
  | inl there ↦
      let first : add32 a 0 ≡ a = omega (arith, word) in
      let other : (b == a) ≡ false =
        ground (arith, λ (e : b ≡ a). apart 0 (omega arith) (first ∙ sym e)) in
      rw (there, store)
        (store-kept v n (add32 a 1) b (λ k. source (suc k)) (write_byte user a (source 0))
            (omega arith)
            (λ k below e.
              (let next : add32 (add32 a 1) k ≡ add32 a (suc k) = omega arith in
                apart (suc k) (omega (arith, below)) (sym next ∙ e)))
          ∙ rw other refl)
]

-- Where all stores succeed, byte `k` is at `a + k`, modulo 2 ^ 32.
store-byte :
    (v : Vmm) (n a k : ℕ) (source user : Bytes)
    → a < 2 ^ 32
    → n ≤ 2 ^ 32
    → k < n
    → (store v n a source user).0 ≡ true
    → (store v n a source user).1 (add32 a k) ≡ source k
unfolding store
store-byte v zero a k source user word size below e = absurd (omega arith)
store-byte v (suc n) a zero source user word size below e = elim (Bool-cases (can_store v a)) [
  | inr faults ↦ let f : false ≡ true = rw (faults, store) at e in cc
  | inl there ↦
      let first : add32 a 0 ≡ a = omega (arith, word) in
      let self : (a == a) ≡ true = ground arith in
      let kept : (store v n (add32 a 1) (λ k. source (suc k)) (write_byte user a (source 0))).1 a
          ≡ write_byte user a (source 0) a =
        store-kept v n (add32 a 1) a (λ k. source (suc k)) (write_byte user a (source 0))
          (omega arith) (λ k lt same. omega (arith, lt, size, word, same)) in
      ap (store v (suc n) a source user).1 first ∙ rw (there, store) (kept ∙ rw self refl)
]
store-byte v (suc n) a (suc k) source user word size below e = elim (Bool-cases (can_store v a)) [
  | inr faults ↦ let f : false ≡ true = rw (faults, store) at e in cc
  | inl there ↦
      let next : add32 a (suc k) ≡ add32 (add32 a 1) k = omega arith in
      ap (store v (suc n) a source user).1 next
      ∙ rw (there, store)
          (store-byte v n (add32 a 1) k (λ k. source (suc k)) (write_byte user a (source 0))
            (omega arith) (omega (arith, size)) (omega (arith, below)) (rw (there, store) at e))
]

-- The first store of a segment with bytes in the file is to its start.
first_faults :
    (contents : Bytes) (p : Phdr) (v : Vmm) (user : Bytes)
    → 0 < p.p_filesz
    → can_store v p.p_vaddr ≡ false
    → fill_segment contents p v user ≡ (false, user)
unfolding fill_segment store
first_faults contents p v user some_bytes faults =
    let n : p.p_filesz ≡ suc (p.p_filesz - 1) = omega (arith, some_bytes) in
    let copies : store v p.p_filesz p.p_vaddr (λ k. contents (p.p_offset + k)) user
        ≡ (false, user) =
      ap (λ m. store v m p.p_vaddr (λ k. contents (p.p_offset + k)) user) n
      ∙ rw (faults, store) refl in
    rw (copies, fill_segment) refl

-- Where all stores of a segment succeed, what lies behind its bytes in the file is 0.
zeros_behind :
    (contents : Bytes) (p : Phdr) (v : Vmm) (user : Bytes) (a : ℕ)
    → p.p_memsz ≤ 2 ^ 32
    → (fill_segment contents p v user).0 ≡ true
    → p.p_vaddr + p.p_filesz ≤ a
    → a < p.p_vaddr + p.p_memsz
    → a < 2 ^ 32
    → (fill_segment contents p v user).1 a ≡ 0
unfolding fill_segment
zeros_behind contents p v user a size e from before word =
    let source : Bytes = λ k. contents (p.p_offset + k) in
    let u : Bytes = (store v p.p_filesz p.p_vaddr source user).1 in
    elim (Bool-cases (store v p.p_filesz p.p_vaddr source user).0) [
      | inr faults ↦ let f : false ≡ true = rw (faults, fill_segment) at e in cc
      | inl copied ↦
          let start : ℕ = add32 p.p_vaddr p.p_filesz in
          let k : ℕ = a - (p.p_vaddr + p.p_filesz) in
          let at : a ≡ add32 start k = omega (arith, from, word) in
          let done : (store v (p.p_memsz - p.p_filesz) start (λ k. 0) u).0 ≡ true =
            rw (copied, fill_segment) at e in
          rw (copied, fill_segment)
            (ap (store v (p.p_memsz - p.p_filesz) start (λ k. 0) u).1 at
              ∙ store-byte v (p.p_memsz - p.p_filesz) start k (λ k. 0) u (omega arith)
                  (omega (arith, size)) (omega (arith, from, before)) done)
    ]

-- A segment that starts below the kernel, whose bytes in the file end inside it and whose size can be
-- rounded up to a page in 32 bits, but whose end, rounded up to a page, is past the end of the
-- address space, is not refused, and no page is mapped for it. If its first byte in the file has no
-- page in the current tables, loading it faults in the kernel. If it is loaded, every address from
-- behind its bytes in the file to its end, the kernel's own included, has become 0.
pub load_segment_wraps :
    (contents : Bytes) (size page_dir : ℕ) (p : Phdr) (s : Loader)
    → IsInside size p
    → p.p_memsz + 0xFFF ≤ 2 ^ 32
    → 2 ^ 32 ≤ p.p_vaddr + p.p_memsz + 0xFFF
    → let (outcome, t) = load_segment contents size page_dir p s in
      (outcome ≢ refused)
      × (t.vmm ≡ s.vmm)
      × (0 < p.p_filesz → can_store s.vmm p.p_vaddr ≡ false → outcome ≡ faulted)
      × (outcome ≡ loaded tt
          → (a : ℕ) → p.p_vaddr + p.p_filesz ≤ a
          → a < p.p_vaddr + p.p_memsz
          → a < 2 ^ 32
          → t.user a ≡ 0)
unfolding load_segment map_pages
load_segment_wraps contents size page_dir p s v word wraps =
    let low : leb kernel_virtual_base p.p_vaddr ≡ false = ground (arith, v.below_kernel) in
    let bound : p.p_vaddr < 0xC0000000 = v.below_kernel in
    let end_at : ℕ = add32 (add32 p.p_vaddr p.p_memsz) 0xFFF in
    let before : end_at ≤ p.p_vaddr = omega (arith, bound, word, wraps) in
    let page : page_of end_at ≤ page_of p.p_vaddr = omega (arith, before) in
    let none_mapped : (segment_end p - segment_start p) / page_size ≡ 0 = omega (arith, page) in
    let filled = fill_segment contents p s.vmm s.user in
    let ends : LoadOutcome Unit = if filled.0 then loaded tt else faulted in
    let after : Loader = record { vmm = s.vmm; user = filled.1 } in
    let e : load_segment contents size page_dir p s ≡ (ends, after) =
      rw (low, none_mapped, v.in_file, load_segment, map_pages) refl in
    subst
      (λ z.
        (z.0 ≢ refused)
        × (z.1.vmm ≡ s.vmm)
        × (0 < p.p_filesz → can_store s.vmm p.p_vaddr ≡ false → z.0 ≡ faulted)
        × (z.0 ≡ loaded tt
            → (a : ℕ) → p.p_vaddr + p.p_filesz ≤ a
            → a < p.p_vaddr + p.p_memsz
            → a < 2 ^ 32
            → z.1.user a ≡ 0))
      (sym e)
      (elim (Bool-cases filled.0) [
        | inl stored ↦ (
          λ f. (let g : loaded tt ≡ refused = rw stored at f in cc),
          refl,
          λ some_bytes faults.
              (let g : true ≡ false =
                  sym stored
                  ∙ ap (λ z. z.0) (first_faults contents p s.vmm s.user some_bytes faults) in
                absurd (cc g)),
          λ _ a from to in_word.
              zeros_behind contents p s.vmm s.user a (omega (arith, word)) stored from to in_word,
        )
        | inr fails ↦ (
          λ f. (let g : faulted ≡ refused = rw fails at f in cc),
          refl,
          λ _ _. rw fails refl,
          λ f. (let g : faulted ≡ loaded tt = rw fails at f in absurd (cc g)),
        )
      ])

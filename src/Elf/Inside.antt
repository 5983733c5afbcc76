-- ===== src/Elf/Inside.antt =====
-- What a program that kernel/core/elf.c has loaded looks like.
use mex_os.Base.{
  ℕ, zero, suc, ◌+◌, ◌-◌, ◌*◌, ◌/◌, ◌≤◌, ◌<◌, ◌≡◌, inl, inr, refl, sym, ap, subst, true, false, ◌∙◌,
  ◌⊎◌, ◌≢◌, ℕ_discrete, not, ◌&&◌, ◌||◌, ltb, leb, ◌==◌, add32, arith, Bool-cases,
}
use mex_os.Diskfs.Layout.{Bytes}
use mex_os.Vmm.Table.{kernel_virtual_base, page_size}
use mex_os.Elf.Load.{
  Phdr, phdr_at, phdr_size, e_phoff, e_phnum, header_size, LoadResult, Loader, segment_start,
  segment_end, segment_flags, is_loaded, map_pages, load_segment, load_segments, elf_validate,
  elf_load, next_brk, LoadOutcome, loaded, refused, faulted,
}

-- A segment starts below the kernel, and its bytes in the file end inside it, with the sum in 32 bits.
pub record IsInside (size : ℕ) (p : Phdr) : Type 0 where
  pub below_kernel : p.p_vaddr < kernel_virtual_base
  pub in_file : (ltb 0 p.p_filesz && ltb size (add32 p.p_offset p.p_filesz)) ≡ false

LoadOutcome-cases :
    {A : Type 0} (o : LoadOutcome A) → ((a : A) × (o ≡ loaded a)) ⊎ ((o ≡ refused) ⊎ (o ≡ faulted))
LoadOutcome-cases (loaded a) = inl (a, refl)
LoadOutcome-cases refused = inr (inl refl)
LoadOutcome-cases faulted = inr (inr refl)

load_segment-IsInside :
    (contents : Bytes) (size page_dir : ℕ) (p : Phdr) (s : Loader)
    → (load_segment contents size page_dir p s).0 ≡ loaded tt
    → IsInside size p
unfolding load_segment
load_segment-IsInside contents size page_dir p s e =
    elim (Bool-cases (leb kernel_virtual_base p.p_vaddr)) [
      | inl high ↦ let f : refused ≡ loaded tt = rw (high, load_segment) at e in cc
      | inr low ↦
          let pages = (segment_end p - segment_start p) / page_size in
          let mapped = (map_pages page_dir (segment_flags p) (segment_start p) pages s.vmm).0 in
          let past = ltb 0 p.p_filesz && ltb size (add32 p.p_offset p.p_filesz) in
          elim (Bool-cases (not mapped || past)) [
            | inl fails ↦ let f : refused ≡ loaded tt = rw (low, fails, load_segment) at e in cc
            | inr passes ↦ record {
              below_kernel = ground (arith, low);
              in_file = ground (arith, passes);
            }
          ]
    ]

load_segments-IsInside :
    (contents : Bytes) (size page_dir i n brk : ℕ) (s t : Loader) (last k : ℕ)
    → load_segments contents size page_dir i n brk s ≡ (loaded last, t)
    → k < n
    → is_loaded (phdr_at contents (i + 32 * k)) ≡ true
    → IsInside size (phdr_at contents (i + 32 * k))
unfolding load_segments
load_segments-IsInside contents size page_dir i zero brk s t last k e below is_load =
    absurd (omega arith)
load_segments-IsInside contents size page_dir i (suc n) brk s t last k e below is_load =
    let p : Phdr = phdr_at contents i in
    let u : Loader = (load_segment contents size page_dir p s).1 in
    let later : 0 ≢ k
        → (brk' : ℕ) (s' : Loader)
        → load_segments contents size page_dir (i + 32) n brk' s' ≡ (loaded last, t)
        → IsInside size (phdr_at contents (i + 32 * k)) =
      λ more brk' s' e'.
        (let same : i + 32 + 32 * (k - 1) ≡ i + 32 * k = omega (arith, more) in
          subst (λ j. IsInside size (phdr_at contents j)) same
            (load_segments-IsInside contents size page_dir (i + 32) n brk' s' t last (k - 1) e'
              (omega (arith, more, below))
              (subst (λ j. is_loaded (phdr_at contents j) ≡ true) (sym same) is_load))) in
    elim (Bool-cases (is_loaded p)) [
      | inr skipped ↦ elim (ℕ_discrete 0 k) [
        | yes first ↦
            let same : i + 32 * k ≡ i = omega (arith, first) in
            let f : true ≡ false =
              sym is_load ∙ ap (λ j. is_loaded (phdr_at contents j)) same ∙ skipped in
            absurd (cc f)
        | no more ↦ later more brk s (rw (skipped, load_segments) at e)
      ]
      | inl here ↦ elim (LoadOutcome-cases (load_segment contents size page_dir p s).0) [
        | inr (inl fails) ↦
            let x : LoadOutcome ℕ × Loader = (refused, u) in
            let f : x ≡ (loaded last, t) = rw (here, fails, load_segments) at e in
            let g : refused ≡ loaded last = ap (λ z. z.0) f in absurd (cc g)
        | inr (inr fails) ↦
            let x : LoadOutcome ℕ × Loader = (faulted, u) in
            let f : x ≡ (loaded last, t) = rw (here, fails, load_segments) at e in
            let g : faulted ≡ loaded last = ap (λ z. z.0) f in absurd (cc g)
        | inl (_, passes) ↦ elim (ℕ_discrete 0 k) [
          | yes first ↦
              let same : i ≡ i + 32 * k = omega (arith, first) in
              subst (λ j. IsInside size (phdr_at contents j)) same
                (load_segment-IsInside contents size page_dir p s passes)
          | no more ↦ later more (next_brk brk p) u (rw (here, passes, load_segments) at e)
        ]
      ]
    ]

-- What `elf_load` has looked at when it succeeds: the header is valid and in the file, the program
-- headers end inside the file, and each segment that is loaded starts below the kernel and ends
-- inside the file. Both ends are sums in 32 bits, which may have wrapped around.
pub elf_load-IsInside :
    (contents : Bytes) (size page_dir : ℕ) (s t : Loader) (r : LoadResult)
    → elf_load contents size page_dir s ≡ (loaded r, t)
    → (elf_validate contents ≡ true)
      × (header_size ≤ size)
      × (add32 (e_phoff contents) (e_phnum contents * phdr_size) ≤ size)
      × ((k : ℕ)
          → k < e_phnum contents
          → is_loaded (phdr_at contents (e_phoff contents + 32 * k)) ≡ true
          → IsInside size (phdr_at contents (e_phoff contents + 32 * k)))
unfolding elf_load
elf_load-IsInside contents size page_dir s t r e =
    let headers = add32 (e_phoff contents) (e_phnum contents * phdr_size) in
    let rejects =
      (page_dir == 0)
      || ltb size header_size
      || not (elf_validate contents)
      || (e_phoff contents == 0)
      || (e_phnum contents == 0)
      || ltb size headers in
    elim (Bool-cases rejects) [
      | inl refuses ↦
          let x : LoadOutcome LoadResult × Loader = (refused, s) in
          let f : x ≡ (loaded r, t) = rw (refuses, elf_load) at e in
          let g : refused ≡ loaded r = ap (λ p. p.0) f in absurd (cc g)
      | inr fine ↦
          let (brk, u) =
            load_segments contents size page_dir (e_phoff contents) (e_phnum contents) 0 s in
          elim (LoadOutcome-cases brk) [
            | inr (inr fails) ↦
                let x : LoadOutcome LoadResult × Loader = (faulted, u) in
                let f : x ≡ (loaded r, t) = rw (fine, fails, elf_load) at e in
                let g : faulted ≡ loaded r = ap (λ p. p.0) f in absurd (cc g)
            | inr (inl fails) ↦
                let x : LoadOutcome LoadResult × Loader = (refused, u) in
                let f : x ≡ (loaded r, t) = rw (fine, fails, elf_load) at e in
                let g : refused ≡ loaded r = ap (λ p. p.0) f in absurd (cc g)
            | inl (last, ends) ↦
                let all : load_segments contents size page_dir (e_phoff contents) (e_phnum contents)
                      0 s
                    ≡ (loaded last, u) =
                  ap (λ b. (b, u)) ends in
                (
                  ground (arith, fine),
                  ground (arith, fine),
                  ground (arith, fine),
                  λ k below is_load.
                      load_segments-IsInside contents size page_dir (e_phoff contents)
                        (e_phnum contents) 0 s u last k all below is_load,
                )
          ]
    ]

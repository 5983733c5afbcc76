-- ===== src/Pmm/Boot.antt =====
-- The calls that kernel/kernel.c makes at boot: what the memory manager hands out first.
use mex_os.Base.{
  ℕ, ◌+◌, ◌-◌, ◌*◌, ◌/◌, ◌^◌, ◌≤◌, ◌<◌, ◌≡◌, ap, sym, subst, ◌∙◌, inl, inr, true, false,
  if◌then◌else◌, arith, ltb, dec_lt, add32, sub32,
}
use mex_os.Pmm.{Pmm, init, init_region, deinit_region, alloc_block}
use mex_os.Pmm.Bitmap.{Words}
use mex_os.Pmm.Bits.{is_used, AreWords}
use mex_os.Pmm.Alloc.{IsValid, Took, alloc_block-cases}
use mex_os.Pmm.Regions.{
  within, init-all_taken, is_used-init_region, is_used-deinit_region, max-init_region,
  max-deinit_region, max-init, place, place-init_region, place-deinit_region,
}
use mex_os.Pmm.Valid.{init-IsValid, init_region-IsValid, deinit_region-IsValid}

abbrev pub mem_end : ℕ
mem_end = 128 * 1024 * 1024

abbrev pub kernel_base : ℕ
kernel_base = 0x100000

-- `(kernel_end - 0x100000 + 0xFFF) & ~0xFFF`
unfoldable pub kernel_size : ℕ → ℕ
kernel_size kernel_end = add32 (sub32 kernel_end kernel_base) 0xFFF / 4096 * 4096

unfoldable pub boot_regions : ℕ → Words → Pmm
boot_regions kernel_end m =
    init_region (init mem_end kernel_end m) kernel_base (mem_end - kernel_base)

-- All memory from 1 MiB on is freed, and the kernel's image there is taken out again. `m` is the
-- memory from `_kernel_end` on, where the bitmap lies.
unfoldable pub boot : ℕ → Words → Pmm
boot kernel_end m = deinit_region (boot_regions kernel_end m) kernel_base (kernel_size kernel_end)

-- The first block past the kernel's image.
abbrev pub image_end : ℕ → ℕ
image_end kernel_end = (kernel_end + 0xFFF) / 4096

module _ (m : Words) (words : AreWords m) where
  boot_regions-bits :
      (kernel_end f : ℕ)
      → f < 32768
      → is_used (boot_regions kernel_end m).bitmap f ≡ (if within 256 32512 f then false else true)
  unfolding boot_regions
  boot_regions-bits kernel_end f l =
      is_used-init_region (init mem_end kernel_end m) kernel_base (mem_end - kernel_base) f
        (omega arith) (omega arith)
      ∙ ground (
        arith,
        (init-all_taken mem_end kernel_end m (omega arith)).0 f (rw max-init (omega arith)),
      )

  boot_regions-IsValid : (kernel_end : ℕ) → IsValid (boot_regions kernel_end m)
  unfolding boot_regions
  boot_regions-IsValid kernel_end =
      init_region-IsValid (init mem_end kernel_end m) kernel_base (mem_end - kernel_base)
        (init-IsValid mem_end kernel_end m words (omega arith) (omega arith) (omega arith))
        (omega arith) (omega arith) (omega arith) (rw max-init (omega arith))
        (λ f a b.
          (init-all_taken mem_end kernel_end m (omega arith)).0 f (rw max-init (omega arith)))

  boot_regions-max : (kernel_end : ℕ) → (boot_regions kernel_end m).max_blocks ≡ 32768
  unfolding boot_regions
  boot_regions-max kernel_end =
      max-init_region (init mem_end kernel_end m) kernel_base (mem_end - kernel_base)
      ∙ max-init mem_end kernel_end m

  module _ (kernel_end : ℕ) (above : kernel_base ≤ kernel_end)
      (below : kernel_end < mem_end - 4096) where
    size_lem : kernel_size kernel_end / 4096 + 256 ≡ image_end kernel_end
    unfolding kernel_size
    size_lem = omega arith

    -- After boot the manager is valid, and exactly the blocks from the end of the kernel's image to
    -- the end of memory are free.
    pub boot-IsValid :
        IsValid (boot kernel_end m)
        × ((f : ℕ)
            → f < 32768
            → is_used (boot kernel_end m).bitmap f ≡ ltb f (image_end kernel_end))
    unfolding boot
    boot-IsValid =
        let in_size : kernel_size kernel_end < 2 ^ 31 = omega (arith, size_lem) in
        (
          deinit_region-IsValid (boot_regions kernel_end m) kernel_base (kernel_size kernel_end)
              (boot_regions-IsValid kernel_end) (omega arith) in_size
              (rw (boot_regions-max kernel_end) (omega (arith, size_lem)))
              (λ f a b.
                boot_regions-bits kernel_end f (omega (arith, size_lem))
                ∙ ground (arith, size_lem)),
          λ f l.
              is_used-deinit_region (boot_regions kernel_end m) kernel_base (kernel_size kernel_end)
                f (omega arith) (omega arith)
              ∙ ground (arith, size_lem, boot_regions-bits kernel_end f l),
        )

    boot-max : (boot kernel_end m).max_blocks ≡ 32768
    unfolding boot
    boot-max =
        max-deinit_region (boot_regions kernel_end m) kernel_base (kernel_size kernel_end)
        ∙ boot_regions-max kernel_end

    first_block :
        (q : Pmm) (frame : ℕ) → Took (boot kernel_end m) q frame → frame ≡ image_end kernel_end
    first_block q frame t =
        let end = image_end kernel_end in
        let inside : frame < 32768 = subst (λ k. frame < k) boot-max t.in_memory in
        let at_frame : ltb frame end ≡ false = sym (boot-IsValid.1 frame inside) ∙ t.was_free in
        let at_end : is_used (boot kernel_end m).bitmap end ≡ false =
          boot-IsValid.1 end (omega arith) ∙ ground arith in
        elim (dec_lt end frame) [ yes lt ↦ cc (t.lowest end lt) | no ge ↦ ground arith ]

    boot-place : place (boot kernel_end m) ≡ (kernel_end, 4096)
    unfolding boot boot_regions init
    boot-place =
        place-deinit_region (boot_regions kernel_end m) kernel_base (kernel_size kernel_end)
        ∙ place-init_region (init mem_end kernel_end m) kernel_base (mem_end - kernel_base)

    -- For a kernel whose image ends past 1 MiB and more than a page before the end of memory, the
    -- first block that `pmm_alloc_block` hands out after boot is the one that follows the image, and
    -- its first byte is a byte of the manager's own bitmap.
    pub boot-alloc_block :
        let p = boot kernel_end m in
        let addr = (alloc_block p).0 in
        (addr ≡ image_end kernel_end * 4096)
        × (p.bitmap_addr ≤ addr)
        × (addr < p.bitmap_addr + p.bitmap_size)
    boot-alloc_block = elim (alloc_block-cases (boot kernel_end m) boot-IsValid.0) [
      | inl h ↦
          let end = image_end kernel_end in
          let at_end : is_used (boot kernel_end m).bitmap end ≡ false =
            boot-IsValid.1 end (omega arith) ∙ ground arith in
          cc (h.2 end (rw boot-max (omega arith)))
      | inr (frame, addr, t) ↦
          let e : (alloc_block (boot kernel_end m)).0 ≡ image_end kernel_end * 4096 =
            addr ∙ ap (λ k. k * 4096) (first_block _ frame t) in
          let starts : (boot kernel_end m).bitmap_addr ≡ kernel_end = ap (λ z. z.0) boot-place in
          let size : (boot kernel_end m).bitmap_size ≡ 4096 = ap (λ z. z.1) boot-place in
          (e, omega (arith, e, starts), omega (arith, e, starts, size))
    ]

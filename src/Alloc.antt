-- ===== src/Alloc.antt =====
-- What the other components use of kernel/mm/heap.c: `kmalloc` and `kfree` over some heap state.
-- A null pointer is 0.
use mex_os.Base.{ℕ}

pub record Allocator (H : Type 0) : Type 0 where
  pub kmalloc : H → ℕ → ℕ × H
  pub kfree : H → ℕ → H

-- ===== src/Ipc/Memory.antt =====
-- Ports over the heap of kernel/mm/heap.c.
use mex_os.Base.{
  ℕ, ◌*◌, ◌≡◌, inl, inr, sym, ap, ◌∙◌, subst, List, false, none, some, arith, ◌==◌, leb, Bool-cases,
  Option-cases, get_or-set_self, length, get_or, set,
}
use mex_os.Heap.{Heap, kmalloc, heap_allocator}
use mex_os.Heap.Tiles.{IsValid}
use mex_os.Heap.Calls.{IsAllocated, kmalloc-cases}
use mex_os.Ipc.Port.{
  Port, Ipc, port_at, port_create, find_owner, max_ports, message_size, msg_queue_size, blank_port,
}
use mex_os.Ipc.Table.{find_owner-first, fresh_port}

-- The queue of a new port is a block of the heap that no one else uses, with room for 16 messages.
pub port_create-IsAllocated :
    (owner : ℕ) (s : Ipc Heap) (i : ℕ)
    → length s.ports ≡ max_ports
    → IsValid s.sched.heap
    → (port_create owner s).0 ≡ some i
    → let s' = (port_create owner s).1 in
      IsAllocated s.sched.heap (message_size * msg_queue_size) (port_at s' i).queue s'.sched.heap
unfolding port_create
port_create-IsAllocated owner s i table v e =
    let bytes = message_size * msg_queue_size in
    let q = (kmalloc s.sched.heap bytes).0 in
    elim (Bool-cases (leb max_ports s.port_count)) [
      | inl full ↦ let n : none ≡ some i = rw (full, port_create) at e in cc
      | inr room ↦ elim (Option-cases (find_owner 0 0 s.ports)) [
        | inl taken ↦ let n : none ≡ some i = rw (room, taken, port_create) at e in cc
        | inr (j, f) ↦ elim (Bool-cases (q == 0)) [
          | inl failed ↦ let n : none ≡ some i = rw (room, f, failed, port_create) at e in cc
          | inr got ↦ elim (kmalloc-cases s.sched.heap bytes v (omega arith) (omega arith)) [
            | inr refused ↦ let z : q ≡ 0 = refused.null in elim (no_zero got z) [ ]
            | inl a ↦
                let same : some j ≡ some i = rw (room, f, got, port_create) at e in
                let at_i : j ≡ i = ground arith in
                let (_, inside, _) = find_owner-first 0 0 s.ports f in
                let h' : Heap = (kmalloc s.sched.heap bytes).1 in
                let put : List Port = set s.ports j (fresh_port (port_at s j) owner j q) in
                let got_q : (get_or put i blank_port).queue ≡ q =
                  ap (λ k. (get_or put k blank_port).queue) (sym at_i)
                  ∙ ap (λ p. p.queue)
                      (get_or-set_self s.ports j (fresh_port (port_at s j) owner j q) blank_port
                        (omega arith)) in
                let moved : IsAllocated s.sched.heap bytes (get_or put i blank_port).queue h' =
                  subst (λ x. IsAllocated s.sched.heap bytes x h') (sym got_q) a in
                rw (room, f, got, port_create) moved
          ]
        ]
      ]
    ]
  where
    no_zero : {k : ℕ} → (k == 0) ≡ false → k ≡ 0 → ⊥
    no_zero n z = ground (arith, n, z)

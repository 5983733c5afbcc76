-- ===== src/Ipc/Table.antt =====
-- Creating and destroying ports.
use mex_os.Base.{
  ℕ, suc, ◌+◌, ◌-◌, ◌<◌, ◌≤◌, ◌≡◌, ◌≢◌, inl, inr, refl, sym, ap, ◌∙◌, List, [], ◌∷◌, get_or, set,
  length, length-set, ◌*◌, replicate, get_or-set_self, get_or-set_ne, arith, subst, none, some,
  ◌==◌, ==_iff, Bool-cases, Option-cases, leb, add32,
}
use mex_os.Alloc.{Allocator}
use mex_os.Ipc.Port.{
  Port, Ipc, blank_message, blank_port, port_at, put_port, with_heap, max_ports, msg_queue_size,
  message_size, find_owner, port_create,
}
use mex_os.Ipc.Ring.{IsRing, contents}
use mex_os.Ipc.Run.{IsOpen}

-- What `find_owner` finds is the first port with that owner.
pub find_owner-first :
    (pid i : ℕ) (ps : List Port) {j : ℕ}
    → find_owner pid i ps ≡ some j
    → (i ≤ j) × (j < i + length ps) × ((get_or ps (j - i) blank_port).owner ≡ pid)
unfolding find_owner
find_owner-first pid i [] e = cc
find_owner-first pid i (p ∷ ps) {j} e = elim (Bool-cases (p.owner == pid)) [
  | inl here ↦
      let same : some i ≡ some j = rw here at e in
      let found : i ≡ j = ground arith in
      let first : j - i ≡ 0 = omega arith in
      (omega arith, omega arith, rw first ((==_iff p.owner pid).0 here))
  | inr other ↦
      let (lo, hi, owner) = find_owner-first pid (i + 1) ps (rw (other, find_owner) at e) in
      let later : j - i ≡ suc (j - (i + 1)) = omega arith in
      (omega arith, omega arith, rw later owner)
]

-- A port just created at index `i`.
abbrev pub fresh_port : Port → ℕ → ℕ → ℕ → Port
fresh_port p owner i q = record p {
  owner = owner;
  id = i;
  flags = 0;
  queue = q;
  slots = replicate msg_queue_size blank_message;
  queue_head = 0;
  queue_tail = 0;
  queue_size = msg_queue_size;
  waiting_sender = 0;
  waiting_receiver = 0;
}

module _ {H : Type 0} where
  -- What a created port at `i` looks like from outside.
  pub record Opened (s : Ipc H) (owner i : ℕ) (s' : Ipc H) : Type 0 where
    pub opened : IsOpen i s'
    pub empty : contents (port_at s' i) ≡ []
    pub owner_is : (port_at s' i).owner ≡ owner
    pub was_free : (port_at s i).owner ≡ 0
    pub others : (j : ℕ) → i ≢ j → port_at s' j ≡ port_at s j
    pub counted : s'.port_count ≡ add32 s.port_count 1

  Opened-put_port :
      (s : Ipc H) (owner i q : ℕ) (s' : Ipc H)
      → length s.ports ≡ max_ports
      → owner ≢ 0
      → i < max_ports
      → (port_at s i).owner ≡ 0
      → s'.ports ≡ set s.ports i (fresh_port (port_at s i) owner i q)
      → s'.port_count ≡ add32 s.port_count 1
      → Opened s owner i s'
  Opened-put_port s owner i q s' table some_owner inside free e count =
      let p = fresh_port (port_at s i) owner i q in
      let here : port_at s' i ≡ p =
        ap (λ l. get_or l i blank_port) e
        ∙ get_or-set_self s.ports i p blank_port (omega (arith, table)) in
      record {
        opened = record {
          table = ap length e ∙ length-set s.ports i p ∙ table;
          inside = inside;
          owned = λ z. some_owner (sym (ap (λ r. r.owner) here) ∙ z);
          ring = subst IsRing (sym here) (record {
            sized = refl;
            has_slots = refl;
            head_in = omega arith;
            tail_in = omega arith;
          });
        };
        empty = ap contents here;
        owner_is = ap (λ r. r.owner) here;
        was_free = free;
        others =
            λ j ne. ap (λ l. get_or l j blank_port) e ∙ get_or-set_ne s.ports i j p blank_port ne;
        counted = count;
      }

module _ {H : Type 0} ⦃a : Allocator H⦄ where
  -- A created port was free; it is now open, empty and owned, the other ports are as they were, and
  -- it is counted.
  pub port_create-Opened :
      (owner : ℕ) (s : Ipc H) (i : ℕ)
      → length s.ports ≡ max_ports
      → owner ≢ 0
      → (port_create owner s).0 ≡ some i
      → Opened s owner i (port_create owner s).1
  unfolding port_create
  port_create-Opened owner s i table some_owner e =
      let q = (a.kmalloc s.sched.heap (message_size * msg_queue_size)).0 in
      elim (Bool-cases (leb max_ports s.port_count)) [
        | inl full ↦ let n : none ≡ some i = rw (full, port_create) at e in cc
        | inr room ↦ elim (Option-cases (find_owner 0 0 s.ports)) [
          | inl taken ↦ let n : none ≡ some i = rw (room, taken, port_create) at e in cc
          | inr (j, f) ↦ elim (Bool-cases (q == 0)) [
            | inl failed ↦ let n : none ≡ some i = rw (room, f, failed, port_create) at e in cc
            | inr got ↦
                let same : some j ≡ some i = rw (room, f, got, port_create) at e in
                let at_i : j ≡ i = ground arith in
                let (lo, hi, free) = find_owner-first 0 0 s.ports f in
                let h : H = (a.kmalloc s.sched.heap (message_size * msg_queue_size)).1 in
                let put : Ipc H = put_port (with_heap s h) j (fresh_port (port_at s j) owner j q) in
                let s' : Ipc H = record put { port_count = add32 s.port_count 1 } in
                let free_j : (port_at s j).owner ≡ 0 =
                  sym (ap (λ k. (port_at s k).owner) (omega arith)) ∙ free in
                let o : Opened s owner j s' =
                  Opened-put_port s owner j q s' table some_owner (omega (arith, table)) free_j refl
                    refl in
                rw (room, f, got, port_create) (subst (λ k. Opened s owner k s') at_i o)
          ]
        ]
      ]

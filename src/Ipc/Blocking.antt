-- ===== src/Ipc/Blocking.antt =====
-- Calls of kernel/ipc/ipc.c that block, and what closes a port under them.
use mex_os.Base.{
  ℕ, ◌<◌, ◌≡◌, ◌≢◌, refl, sym, ap, ◌∙◌, List, [], ◌∷◌, get_or, set, length, length-set,
  get_or-set_self, get_or-set_ne, arith, subst, true, false, none, some, ◌==◌, ==_iff, leb, sub32,
  ◌*◌,
}
use mex_os.Alloc.{Allocator}
use mex_os.Sched.Task.{Task, current_task, sched_block}
use mex_os.Ipc.Port.{
  Message, Port, Ipc, blank_port, port_at, put_port, unblock_waiting, free_queue, with_heap,
  bad_port, max_ports, find_owner, port_create, port_destroy, msg_queue_size, message_size,
}
use mex_os.Ipc.Send.{
  asleep, fault, invalid, msg_send, msg_receive, send_loop, send_round, sleep_on_port, wait_to_send,
  next_tail,
}
use mex_os.Ipc.Ring.{IsRing, queued}
use mex_os.Ipc.Refine.{capacity, next_tail-mod}
use mex_os.Ipc.Table.{find_owner-first}
use mex_os.Ipc.Run.{IsOpen, open_port}

module _ {H : Type 0} where
  -- The state after the sender `t` has gone to sleep on port `i`.
  abbrev pub slept : ℕ → Task → Ipc H → Ipc H
  slept i t s =
      let s' = put_port s i (wait_to_send t.id (port_at s i)) in
      record s' { sched = sched_block s'.sched }

  port_at-slept :
      (i : ℕ) (t : Task) (s : Ipc H)
      → IsOpen i s
      → port_at (slept i t s) i ≡ wait_to_send t.id (port_at s i)
  port_at-slept i t s v =
      get_or-set_self s.ports i (wait_to_send t.id (port_at s i)) blank_port
        (omega (arith, v.table, v.inside))

  slept-IsOpen : (i : ℕ) (t : Task) (s : Ipc H) → IsOpen i s → IsOpen i (slept i t s)
  slept-IsOpen i t s v =
      let e = port_at-slept i t s v in
      let r = v.ring in
      record {
        table = length-set s.ports i (wait_to_send t.id (port_at s i)) ∙ v.table;
        inside = v.inside;
        owned = λ z. v.owned (sym (ap (λ q. q.owner) e) ∙ z);
        ring = subst IsRing (sym e) (record {
          sized = r.sized;
          has_slots = r.has_slots;
          head_in = r.head_in;
          tail_in = r.tail_in;
        });
      }

  send_sleeps :
      (i : ℕ) (msg : Message) (t : Task) (s : Ipc H)
      → IsOpen i s
      → queued (port_at s i) ≡ capacity
      → current_task s.sched ≡ some t
      → send_round i msg 0 s ≡ (asleep, slept i t s)
  unfolding send_round sleep_on_port
  send_sleeps i msg t s v full caller =
      let p = port_at s i in
      let sized : (p.queue_size == 0) ≡ false = ground (arith, v.ring.sized) in
      let meets : (next_tail p == p.queue_head) ≡ true =
        (==_iff _ _).1 (omega (arith, next_tail-mod p v.ring, v.ring.head_in, v.ring.tail_in)) in
      rw (sized, meets, sleep_on_port, caller, sleep_on_port) refl

  send_loop-asleep :
      (i : ℕ) (msg : Message) (flags : ℕ) (r : Ipc H → Ipc H) (rs : List (Ipc H → Ipc H))
      (s s' : Ipc H)
      → send_round i msg flags s ≡ (asleep, s')
      → send_loop i msg flags (r ∷ rs) s ≡ send_loop i msg flags rs (r s')
  unfolding send_loop
  send_loop-asleep i msg flags r rs s s' e =
      rw (ap (λ x. x.0) e, send_loop) (ap (λ x. send_loop i msg flags rs (r x.1)) e)

  -- What a receiver does to port `i` while the sender sleeps.
  abbrev pub received : ℕ → Ipc H → Ipc H
  received i s = (msg_receive i true 0 [] s).2

  -- Destroying an open port frees it for `port_create` and closes it to messages, and touches no
  -- other port.
  pub record IsClosed (i : ℕ) (s s' : Ipc H) : Type 0 where
    pub freed : port_at s' i ≡ blank_port
    pub no_send :
        (msg : Message) (flags : ℕ) (rs : List (Ipc H → Ipc H))
        → msg_send i (some msg) flags rs s' ≡ (invalid, s')
    pub no_receive :
        (flags : ℕ) (rs : List (Ipc H → Ipc H))
        → msg_receive i true flags rs s' ≡ (invalid, none, s')
    pub others : (j : ℕ) → i ≢ j → port_at s' j ≡ port_at s j
    pub counted : s'.port_count ≡ sub32 s.port_count 1

module _ {H : Type 0} ⦃a : Allocator H⦄ where
  abbrev closed_heap : ℕ → Ipc H → Ipc H
  closed_heap i s =
      let p = port_at s i in
      free_queue p.queue (unblock_waiting p.waiting_receiver (unblock_waiting p.waiting_sender s))

  ports-closed_heap : (i : ℕ) (s : Ipc H) → (closed_heap i s).ports ≡ s.ports
  ports-closed_heap i s = ground arith

  pub port_destroy-IsClosed :
      (i : ℕ) (s : Ipc H)
      → IsOpen i s
      → ((port_destroy i s).0 ≡ true) × IsClosed i s (port_destroy i s).1
  unfolding port_destroy msg_send msg_receive
  port_destroy-IsClosed i s v =
      let e = ports-closed_heap i s in
      let put : Ipc H = put_port (closed_heap i s) i blank_port in
      let s' : Ipc H = record put { port_count = sub32 s.port_count 1 } in
      let destroyed : port_destroy i s ≡ (true, s') = rw (open_port i s v, port_destroy) refl in
      let gone : s'.ports ≡ set s.ports i blank_port = ap (λ l. set l i blank_port) e in
      let free : port_at s' i ≡ blank_port =
        ap (λ l. get_or l i blank_port) gone
        ∙ get_or-set_self s.ports i blank_port blank_port (omega (arith, v.table, v.inside)) in
      let bad : bad_port i s' ≡ true = ground (arith, free) in
      rw destroyed (
        refl,
        record {
          freed = free;
          no_send = λ msg flags rs. rw (bad, msg_send) refl;
          no_receive = λ flags rs. rw (bad, msg_receive) refl;
          others = λ j ne.
              ap (λ l. get_or l j blank_port) gone
              ∙ get_or-set_ne s.ports i j blank_port blank_port ne;
          counted = refl;
        },
      )

  -- When the port that a sender sleeps on is destroyed, the sender, which holds a pointer to the
  -- port, divides by the queue size 0 as soon as it runs again.
  pub msg_send-port_destroy :
      (i : ℕ) (msg : Message) (t : Task) (s : Ipc H)
      → IsOpen i s
      → queued (port_at s i) ≡ capacity
      → current_task s.sched ≡ some t
      → (msg_send i (some msg) 0 ((λ x. (port_destroy i x).1) ∷ []) s).0 ≡ fault
  unfolding msg_send send_loop send_round
  msg_send-port_destroy i msg t s v full caller =
      let s1 : Ipc H = slept i t s in
      let (_, closed) = port_destroy-IsClosed i s1 (slept-IsOpen i t s v) in
      let s2 : Ipc H = (port_destroy i s1).1 in
      let no_slots : (port_at s2 i).queue_size ≡ 0 = ap (λ q. q.queue_size) closed.freed in
      let stuck : (send_loop i msg 0 [] s2).0 ≡ fault = ground (arith, no_slots) in
      rw
        (
          open_port i s v,
          msg_send,
          send_loop-asleep i msg 0 (λ x. (port_destroy i x).1) [] s s1
              (send_sleeps i msg t s v full caller),
        )
        stuck

  -- When the heap has no room for the queue of a new port, `port_create` reports -1 but leaves the
  -- port owned and uncounted, with a queue of size 0: sending to it divides by 0.
  pub port_create-fault :
      (owner : ℕ) (s : Ipc H) (i : ℕ) (msg : Message) (flags : ℕ)
      → length s.ports ≡ max_ports
      → owner ≢ 0
      → s.port_count < max_ports
      → find_owner 0 0 s.ports ≡ some i
      → port_at s i ≡ blank_port
      → (a.kmalloc s.sched.heap (message_size * msg_queue_size)).0 ≡ 0
      → let (r, s') = port_create owner s in
        (r ≡ none)
        × ((port_at s' i).owner ≡ owner)
        × (s'.port_count ≡ s.port_count)
        × ((msg_send i (some msg) flags [] s').0 ≡ fault)
  unfolding port_create msg_send send_loop send_round
  port_create-fault owner s i msg flags table some_owner few first blank none_left =
      let h : H = (a.kmalloc s.sched.heap (message_size * msg_queue_size)).1 in
      let p : Port = record (port_at s i) {
        owner = owner;
        id = i;
        flags = 0;
        queue = (a.kmalloc s.sched.heap (message_size * msg_queue_size)).0;
      } in
      let s' : Ipc H = put_port (with_heap s h) i p in
      let room : leb max_ports s.port_count ≡ false = ground (arith, few) in
      let failed : ((a.kmalloc s.sched.heap (message_size * msg_queue_size)).0 == 0) ≡ true =
        (==_iff _ _).1 none_left in
      let created : port_create owner s ≡ (none, s') = rw (room, first, failed, port_create) refl in
      let (_, inside, _) = find_owner-first 0 0 s.ports first in
      let e : port_at s' i ≡ p = get_or-set_self s.ports i p blank_port (omega arith) in
      let bad : bad_port i s' ≡ false = ground (arith, e, some_owner, table, inside) in
      let no_slots : (port_at s' i).queue_size ≡ 0 =
        ap (λ q. q.queue_size) e ∙ ap (λ q. q.queue_size) blank in
      let no_size : ((port_at s' i).queue_size == 0) ≡ true = (==_iff _ _).1 no_slots in
      let stuck : (msg_send i (some msg) flags [] s').0 ≡ fault =
        rw (bad, no_size, msg_send, send_round) refl in
      rw created (refl, ap (λ q. q.owner) e, refl, stuck)

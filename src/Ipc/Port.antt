-- ===== src/Ipc/Port.antt =====
-- `struct message`, `struct port` and the port table of kernel/ipc/ipc.c.
use mex_os.Base.{
  ℕ, ◌+◌, ◌*◌, Bool, true, false, Option, none, some, List, [], ◌∷◌, if◌then◌else◌, leb, ◌==◌,
  replicate, get_or, set, add32, sub32,
}
use mex_os.Alloc.{Allocator}
use mex_os.Sched.Task.{Sched, sched_unblock}

-- `payload` is the array `data`. Messages are copied whole and never looked into.
pub record Message : Type 0 where
  pub sender : ℕ
  pub receiver : ℕ
  pub type : ℕ
  pub len : ℕ
  pub payload : List ℕ

-- `queue` is the address of the slots, `slots` what is in them.
pub record Port : Type 0 where
  pub owner : ℕ
  pub id : ℕ
  pub flags : ℕ
  pub queue : ℕ
  pub slots : List Message
  pub queue_head : ℕ
  pub queue_tail : ℕ
  pub queue_size : ℕ
  pub waiting_sender : ℕ
  pub waiting_receiver : ℕ

pub record Ipc (H : Type 0) : Type 0 where
  pub sched : Sched H
  pub ports : List Port
  pub port_count : ℕ

abbrev pub max_ports : ℕ
max_ports = 256

abbrev pub msg_queue_size : ℕ
msg_queue_size = 16

-- `sizeof(struct message)`: four words and 256 bytes.
abbrev pub message_size : ℕ
message_size = 272

abbrev pub blank_message : Message
blank_message = record { sender = 0; receiver = 0; type = 0; len = 0; payload = replicate 256 0 }

-- A port after `memset`.
abbrev pub blank_port : Port
blank_port = record {
  owner = 0;
  id = 0;
  flags = 0;
  queue = 0;
  slots = [];
  queue_head = 0;
  queue_tail = 0;
  queue_size = 0;
  waiting_sender = 0;
  waiting_receiver = 0;
}

abbrev pub port_at : {H : Type 0} → Ipc H → ℕ → Port
port_at s i = get_or s.ports i blank_port

abbrev pub put_port : {H : Type 0} → Ipc H → ℕ → Port → Ipc H
put_port s i p = record s { ports = set s.ports i p }

-- The loop `for (uint32_t i = 0; i < MAX_PORTS; i++)`: the first port, from index `i` on, with the
-- given owner.
unfoldable pub find_owner : ℕ → ℕ → List Port → Option ℕ
find_owner pid i [] = none
find_owner pid i (p ∷ ps) = if p.owner == pid then some i else find_owner pid (i + 1) ps

unfoldable pub ipc_init : {H : Type 0} → Ipc H → Ipc H
ipc_init s = record s { ports = replicate max_ports blank_port; port_count = 0 }

-- `port_id < 0 || port_id >= MAX_PORTS`, of the bit pattern, or a port nobody owns.
abbrev pub bad_port : {H : Type 0} → ℕ → Ipc H → Bool
bad_port port_id s = if leb max_ports port_id then true else (port_at s port_id).owner == 0

abbrev pub unblock_waiting : {H : Type 0} → ℕ → Ipc H → Ipc H
unblock_waiting tid s = if tid == 0 then s else record s { sched = sched_unblock tid s.sched }

module _ {H : Type 0} ⦃a : Allocator H⦄ where
  abbrev pub with_heap : Ipc H → H → Ipc H
  with_heap s h = record s { sched = record s.sched { heap = h } }

  -- The port's id, `none` for -1. A failed allocation leaves the port owned, with a null queue, and
  -- the fields below `queue` as they were.
  unfoldable pub port_create : ℕ → Ipc H → Option ℕ × Ipc H
  port_create owner s =
      if leb max_ports s.port_count then (none, s) else elim (find_owner 0 0 s.ports) [
        | none ↦ (none, s)
        | some i ↦
            let (q, h) = a.kmalloc s.sched.heap (message_size * msg_queue_size) in
            let p = record (port_at s i) { owner = owner; id = i; flags = 0; queue = q } in
            if q == 0 then (none, put_port (with_heap s h) i p) else (
              some i,
              record (put_port (with_heap s h) i (record p {
                slots = replicate msg_queue_size blank_message;
                queue_head = 0;
                queue_tail = 0;
                queue_size = msg_queue_size;
                waiting_sender = 0;
                waiting_receiver = 0;
              })) { port_count = add32 s.port_count 1 },
            )
      ]

  abbrev pub free_queue : ℕ → Ipc H → Ipc H
  free_queue q s = if q == 0 then s else with_heap s (a.kfree s.sched.heap q)

  -- Whether the port was destroyed: 0 and -1 in the source.
  unfoldable pub port_destroy : ℕ → Ipc H → Bool × Ipc H
  port_destroy port_id s =
      let p = port_at s port_id in
      if bad_port port_id s
      then (false, s)
      else let s' =
          free_queue p.queue
            (unblock_waiting p.waiting_receiver (unblock_waiting p.waiting_sender s)) in
        (true, record (put_port s' port_id blank_port) { port_count = sub32 s.port_count 1 })

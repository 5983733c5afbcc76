-- ===== src/Ipc/Tests.antt =====
-- Ports and messages on a concrete port.
use mex_os.Base.{ℕ, if◌then◌else◌, ◌==◌, ◌+◌, ◌≡◌, refl, true, none, some, [], ◌∷◌, arith}
use mex_os.Alloc.{Allocator}
use mex_os.Sched.Task.{Task, running, current_task, find_task}
use mex_os.Ipc.Port.{
  Message, Ipc, ipc_init, port_create, port_destroy, find_owner, port_at, put_port,
}
use mex_os.Ipc.Send.{
  done, would_block, fault, msg_send, msg_receive, receive_loop, receive_round, send_loop,
  send_round, put_message,
}
use mex_os.Ipc.Ring.{contents}
use mex_os.Ipc.Refine.{put, get, fifo_run}
use mex_os.Ipc.Run.{IsOpen, run, run-fifo}
use mex_os.Ipc.Table.{port_create-Opened}
use mex_os.Heap.{Heap, heap_init, heap_allocator}
use mex_os.Heap.Tiles.{Tiles, IsValid}
use mex_os.Ipc.Blocking.{msg_send-port_destroy, port_create-fault}

-- An allocator that hands out one address after another; at address 0 it has no room.
instance abbrev bump : Allocator ℕ
bump = record { kmalloc = λ h n. (h, if h == 0 then 0 else h + n); kfree = λ h p. h }

abbrev message : ℕ → Message
message n = record { sender = 1; receiver = 2; type = n; len = 0; payload = [] }

abbrev caller : Task
caller = record {
  ptr = 0x1000;
  id = 1;
  pid = 1;
  parent_pid = 0;
  state = running;
  priority = 5;
  time_slice = 10;
  kernel_mode = true;
  kernel_stack = 0x2000;
  kernel_stack_top = 0x6000;
  user_stack = 0;
  user_stack_top = 0;
  cpu_ticks = 0;
  exit_code = 0;
  waiting_for = 0;
  context = record { esp = 0x5000; eax = 0; eip = 0; eflags = 0x202 };
}

abbrev no_ports : ℕ → Ipc ℕ
no_ports h = record {
  sched = record {
    heap = h;
    mem = λ b. 0;
    tasks = caller ∷ [];
    current = 0x1000;
    next_tid = 2;
    tick_count = 0;
    tss = 0;
    switches = [];
  };
  ports = [];
  port_count = 0;
}

abbrev fresh : ℕ → Ipc ℕ
fresh h = ipc_init (no_ports h)

abbrev one : Ipc ℕ
one = (port_create 7 (fresh 0x8000)).1

one-IsOpen : IsOpen 0 one
unfolding ipc_init port_create find_owner
one-IsOpen = (port_create-Opened 7 (fresh 0x8000) 0 refl (omega arith) refl).opened

run-fifo_example :
    run 0 one (get ∷ put (message 3) ∷ put (message 4) ∷ get ∷ [])
    ≡ fifo_run (contents (port_at one 0)) (get ∷ put (message 3) ∷ put (message 4) ∷ get ∷ [])
run-fifo_example = run-fifo 0 (get ∷ put (message 3) ∷ put (message 4) ∷ get ∷ []) one one-IsOpen

run_values :
    run 0 one (get ∷ put (message 3) ∷ put (message 4) ∷ get ∷ [])
    ≡ (would_block, none) ∷ (done, none) ∷ (done, none) ∷ (done, some (message 3)) ∷ []
unfolding run msg_send msg_receive ipc_init port_create find_owner receive_loop receive_round
    send_loop send_round put_message
run_values = refl

-- The port with fifteen messages in it.
abbrev full : Ipc ℕ
full = put_port one 0 (record (port_at one 0) { queue_tail = 15 })

full-IsOpen : IsOpen 0 full
unfolding ipc_init port_create find_owner
full-IsOpen = record {
  table = refl;
  inside = omega arith;
  owned = omega arith;
  ring = record { sized = refl; has_slots = refl; head_in = omega arith; tail_in = omega arith };
}

msg_send-port_destroy_example :
    (msg_send 0 (some (message 9)) 0 ((λ x. (port_destroy 0 x).1) ∷ []) full).0 ≡ fault
unfolding ipc_init port_create find_owner current_task find_task
msg_send-port_destroy_example =
    msg_send-port_destroy 0 (message 9) caller full full-IsOpen refl refl

-- A heap whose next address is the null pointer has no room.
port_create-fault_example :
    let (r, s') = port_create 7 (fresh 0) in
    (r ≡ none)
    × ((port_at s' 0).owner ≡ 7)
    × (s'.port_count ≡ 0)
    × ((msg_send 0 (some (message 9)) 2 [] s').0 ≡ fault)
unfolding ipc_init find_owner
port_create-fault_example =
    port_create-fault 7 (fresh 0) 0 (message 9) 2 refl (omega arith) (omega arith) refl refl refl

-- The ports over the kernel's heap, one megabyte of it.
abbrev heap_ports : Ipc Heap
heap_ports = ipc_init record {
  sched = record {
    heap =
        (heap_init 0x200000 0x100000
          record { start = 0; size = 0; used = 0; blocks = []; mem = λ a. 0 }).1;
    mem = λ b. 0;
    tasks = [];
    current = 0;
    next_tid = 1;
    tick_count = 0;
    tss = 0;
    switches = [];
  };
  ports = [];
  port_count = 0;
}

heap-IsValid : IsValid heap_ports.sched.heap
unfolding ipc_init heap_init Tiles
heap-IsValid = record { tiles = (refl, refl); fits = omega arith }

-- The port with the task noted as waiting for a message.
abbrev awaited : Ipc ℕ
awaited = put_port one 0 (record (port_at one 0) { waiting_receiver = 1 })

awaited-IsOpen : IsOpen 0 awaited
unfolding ipc_init port_create find_owner
awaited-IsOpen = record {
  table = refl;
  inside = omega arith;
  owned = omega arith;
  ring = record { sized = refl; has_slots = refl; head_in = omega arith; tail_in = omega arith };
}

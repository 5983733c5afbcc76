-- ===== src/Ipc/Send.antt =====
-- `msg_send`, `msg_receive` and `msg_reply` of kernel/ipc/ipc.c.
use mex_os.Base.{
  ℕ, ◌%◌, Bool, true, false, not, Option, none, some, List, [], ◌∷◌, if◌then◌else◌, ◌==◌, get_or,
  set, add32, bit_and,
}
use mex_os.Sched.Task.{current_task, sched_block}
use mex_os.Ipc.Port.{
  Message, Port, Ipc, blank_message, port_at, put_port, unblock_waiting, bad_port, find_owner,
}

-- The results 0, -1 and -2; `asleep` while the caller is blocked; `fault` where the C code divides
-- by a queue size of 0.
pub data Outcome : Type 0 where
  done invalid would_block asleep fault : Outcome

-- `flags & IPC_NONBLOCK`
abbrev pub is_nonblock : ℕ → Bool
is_nonblock flags = not (bit_and flags 2 == 0)

abbrev pub next_tail : Port → ℕ
next_tail p = add32 p.queue_tail 1 % p.queue_size

abbrev pub wait_to_send : ℕ → Port → Port
wait_to_send tid p = record p { waiting_sender = tid }

abbrev pub wait_to_receive : ℕ → Port → Port
wait_to_receive tid p = record p { waiting_receiver = tid }

module _ {H : Type 0} where
  -- The message goes into the slot at the tail, and a waiting receiver wakes up.
  unfoldable pub put_message : ℕ → Message → Ipc H → Ipc H
  put_message i msg s =
      let p = port_at s i in
      put_port (unblock_waiting p.waiting_receiver s) i (record p {
        slots = set p.slots p.queue_tail msg;
        queue_tail = next_tail p;
        waiting_receiver = 0;
      })

  unfoldable pub take_message : ℕ → Ipc H → Ipc H
  take_message i s =
      let p = port_at s i in
      put_port (unblock_waiting p.waiting_sender s) i
        (record p { queue_head = add32 p.queue_head 1 % p.queue_size; waiting_sender = 0 })

  -- `current->id` into the port, then `sched_block(0)`; without a current task the call gives up.
  unfoldable pub sleep_on_port : ℕ → (ℕ → Port → Port) → Ipc H → Outcome × Ipc H
  sleep_on_port i mark s = elim (current_task s.sched) [
    | none ↦ (would_block, s)
    | some t ↦
        let s' = put_port s i (mark t.id (port_at s i)) in
        (asleep, record s' { sched = sched_block s'.sched })
  ]

  -- One round of the loop of `msg_send`.
  unfoldable pub send_round : ℕ → Message → ℕ → Ipc H → Outcome × Ipc H
  send_round i msg flags s =
      let p = port_at s i in
      if p.queue_size == 0
      then (fault, s)
      else if next_tail p == p.queue_head
      then (if is_nonblock flags then (would_block, s) else sleep_on_port i wait_to_send s)
      else (done, put_message i msg s)

  -- One round of the loop of `msg_receive`, with what it writes through `msg`.
  unfoldable pub receive_round : ℕ → ℕ → Ipc H → Outcome × Option Message × Ipc H
  receive_round i flags s =
      let p = port_at s i in
      if p.queue_head == p.queue_tail
      then (if is_nonblock flags
          then (would_block, none, s)
          else let (o, s') = sleep_on_port i wait_to_receive s in (o, none, s'))
      else if p.queue_size == 0
      then (fault, none, s)
      else (done, some (get_or p.slots p.queue_head blank_message), take_message i s)

  -- `resumes` holds, for each time the caller sleeps, what the kernel does until it runs again; at
  -- the end of the list it is still asleep.
  unfoldable pub send_loop : ℕ → Message → ℕ → List (Ipc H → Ipc H) → Ipc H → Outcome × Ipc H
  send_loop i msg flags [] s = send_round i msg flags s
  send_loop i msg flags (resume ∷ resumes) s =
      let (o, s') = send_round i msg flags s in
      let later = send_loop i msg flags resumes (resume s') in
      elim o [ asleep ↦ later | o' ↦ (o', s') ]

  unfoldable pub receive_loop :
      ℕ → ℕ → List (Ipc H → Ipc H) → Ipc H → Outcome × Option Message × Ipc H
  receive_loop i flags [] s = receive_round i flags s
  receive_loop i flags (resume ∷ resumes) s =
      let (o, m, s') = receive_round i flags s in
      let later = receive_loop i flags resumes (resume s') in
      elim o [ asleep ↦ later | o' ↦ (o', m, s') ]

  -- `none` for a null message pointer.
  unfoldable pub msg_send : ℕ → Option Message → ℕ → List (Ipc H → Ipc H) → Ipc H → Outcome × Ipc H
  msg_send port_id none flags resumes s = (invalid, s)
  msg_send port_id (some msg) flags resumes s =
      if bad_port port_id s then (invalid, s) else send_loop port_id msg flags resumes s

  -- `room` tells whether `msg` is a pointer to a message.
  unfoldable pub msg_receive :
      ℕ → Bool → ℕ → List (Ipc H → Ipc H) → Ipc H → Outcome × Option Message × Ipc H
  msg_receive port_id false flags resumes s = (invalid, none, s)
  msg_receive port_id true flags resumes s =
      if bad_port port_id s then (invalid, none, s) else receive_loop port_id flags resumes s

  -- The first port that `dest` owns.
  unfoldable pub msg_reply : ℕ → Option Message → Ipc H → Outcome × Ipc H
  msg_reply dest msg s = elim (find_owner dest 0 s.ports) [
    | none ↦ (invalid, s)
    | some i ↦ msg_send i msg 2 [] s
  ]

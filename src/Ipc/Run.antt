-- ===== src/Ipc/Run.antt =====
-- Any sequence of calls that do not block, on one port, against the specification.
use mex_os.Base.{
  ℕ, ◌<◌, ◌≡◌, ◌≢◌, refl, sym, ap, ◌∙◌, List, [], ◌∷◌, ◌++◌, get_or, length, length-set, arith,
  subst, true, false, none, some, ◌==◌, ==_iff, ℕ_discrete,
}
use mex_os.Ipc.Port.{Message, Ipc, blank_message, port_at, unblock_waiting, bad_port, max_ports}
use mex_os.Ipc.Send.{
  done, would_block, next_tail, put_message, take_message, send_round, receive_round, msg_send,
  msg_receive, send_loop, receive_loop,
}
use mex_os.Ipc.Ring.{IsRing, contents, messages, queued}
use mex_os.Ipc.Refine.{
  Call, put, get, Reply, fifo_put, fifo_get, fifo_run, capacity, filled, emptied, filled-IsRing,
  contents-filled, emptied-IsRing, contents-emptied, port_at-put_message, port_at-take_message,
  next_tail-mod, length-contents, ports-unblock_waiting,
}

module _ {H : Type 0} where
  -- The port is in the table, owned, and a ring.
  pub record IsOpen (i : ℕ) (s : Ipc H) : Type 0 where
    pub table : length s.ports ≡ max_ports
    pub inside : i < max_ports
    pub owned : (port_at s i).owner ≢ 0
    pub ring : IsRing (port_at s i)

  pub open_port : (i : ℕ) (s : Ipc H) → IsOpen i s → bad_port i s ≡ false
  open_port i s v = ground (arith, v.owned, v.inside)

  pub put_message-IsOpen :
      (i : ℕ) (msg : Message) (s : Ipc H) → IsOpen i s → IsOpen i (put_message i msg s)
  unfolding put_message
  put_message-IsOpen i msg s v =
      let p = port_at s i in
      let e = port_at-put_message i msg s (omega (arith, v.table, v.inside)) in
      record {
        table =
            length-set (unblock_waiting p.waiting_receiver s).ports i (filled p msg)
            ∙ ap length (ports-unblock_waiting p.waiting_receiver s)
            ∙ v.table;
        inside = v.inside;
        owned = λ z. v.owned (sym (ap (λ q. q.owner) e) ∙ z);
        ring = subst IsRing (sym e) (filled-IsRing p msg v.ring);
      }

  pub take_message-IsOpen : (i : ℕ) (s : Ipc H) → IsOpen i s → IsOpen i (take_message i s)
  unfolding take_message
  take_message-IsOpen i s v =
      let p = port_at s i in
      let e = port_at-take_message i s (omega (arith, v.table, v.inside)) in
      record {
        table =
            length-set (unblock_waiting p.waiting_sender s).ports i (emptied p)
            ∙ ap length (ports-unblock_waiting p.waiting_sender s)
            ∙ v.table;
        inside = v.inside;
        owned = λ z. v.owned (sym (ap (λ q. q.owner) e) ∙ z);
        ring = subst IsRing (sym e) (emptied-IsRing p v.ring);
      }

  send_full :
      (i : ℕ) (msg : Message) (s : Ipc H)
      → IsOpen i s
      → queued (port_at s i) ≡ capacity
      → send_round i msg 2 s ≡ (would_block, s)
  unfolding send_round
  send_full i msg s v full =
      let p = port_at s i in
      let sized : (p.queue_size == 0) ≡ false = ground (arith, v.ring.sized) in
      let meets : (next_tail p == p.queue_head) ≡ true =
        (==_iff _ _).1 (omega (arith, next_tail-mod p v.ring, v.ring.head_in, v.ring.tail_in)) in
      rw (sized, meets) refl

  pub send_room :
      (i : ℕ) (msg : Message) (flags : ℕ) (s : Ipc H)
      → IsOpen i s
      → queued (port_at s i) ≢ capacity
      → (send_round i msg flags s ≡ (done, put_message i msg s))
        × (contents (port_at (put_message i msg s) i) ≡ contents (port_at s i) ++ (msg ∷ []))
  unfolding send_round
  send_room i msg flags s v room =
      let p = port_at s i in
      let sized : (p.queue_size == 0) ≡ false = ground (arith, v.ring.sized) in
      let apart : next_tail p ≢ p.queue_head =
        λ z. room (omega (arith, next_tail-mod p v.ring, v.ring.head_in, v.ring.tail_in)) in
      let differs : (next_tail p == p.queue_head) ≡ false = ground arith in
      (
        rw (sized, differs) refl,
        ap contents (port_at-put_message i msg s (omega (arith, v.table, v.inside)))
            ∙ contents-filled p msg v.ring apart,
      )

  receive_empty :
      (i : ℕ) (s : Ipc H)
      → IsOpen i s
      → queued (port_at s i) ≡ 0
      → receive_round i 2 s ≡ (would_block, none, s)
  unfolding receive_round
  receive_empty i s v none_left =
      let p = port_at s i in
      let meets : (p.queue_head == p.queue_tail) ≡ true =
        (==_iff _ _).1 (omega (arith, v.ring.head_in, v.ring.tail_in)) in
      rw meets refl

  pub receive_some :
      (i flags : ℕ) (s : Ipc H)
      → IsOpen i s
      → queued (port_at s i) ≢ 0
      → let m = get_or (port_at s i).slots (port_at s i).queue_head blank_message in
        (receive_round i flags s ≡ (done, some m, take_message i s))
        × (contents (port_at s i) ≡ m ∷ contents (port_at (take_message i s) i))
  unfolding receive_round
  receive_some i flags s v some_left =
      let p = port_at s i in
      let sized : (p.queue_size == 0) ≡ false = ground (arith, v.ring.sized) in
      let apart : p.queue_head ≢ p.queue_tail =
        λ z. some_left (omega (arith, z, v.ring.head_in, v.ring.tail_in)) in
      let differs : (p.queue_head == p.queue_tail) ≡ false = ground arith in
      let m = get_or p.slots p.queue_head blank_message in
      (
        rw (differs, sized) refl,
        contents-emptied p v.ring apart
            ∙ ap (λ q. m ∷ contents q)
                (sym (port_at-take_message i s (omega (arith, v.table, v.inside)))),
      )

  -- A send that does not block does what the specification does, and keeps the port open.
  pub msg_send-fifo :
      (i : ℕ) (msg : Message) (s : Ipc H)
      → IsOpen i s
      → let (o, s') = msg_send i (some msg) 2 [] s in
        ((o, contents (port_at s' i)) ≡ fifo_put (contents (port_at s i)) msg) × IsOpen i s'
  unfolding msg_send send_loop fifo_put
  msg_send-fifo i msg s v =
      let q = contents (port_at s i) in
      let count : length q ≡ queued (port_at s i) = length-contents (port_at s i) in
      elim (ℕ_discrete (queued (port_at s i)) capacity) [
        | yes full ↦
            let spec : (length q == capacity) ≡ true = (==_iff _ _).1 (count ∙ full) in
            rw (open_port i s v, send_full i msg s v full, spec) (refl, v)
        | no room ↦
            let spec : (length q == capacity) ≡ false = ground (arith, count) in
            let (round, after) = send_room i msg 2 s v room in
            rw (open_port i s v, round, spec)
              (ap (λ x. (done, x)) after, put_message-IsOpen i msg s v)
      ]

  -- A receive that does not block does what the specification does, and keeps the port open.
  pub msg_receive-fifo :
      (i : ℕ) (s : Ipc H)
      → IsOpen i s
      → let (o, m, s') = msg_receive i true 2 [] s in
        ((o, m, contents (port_at s' i)) ≡ fifo_get (contents (port_at s i))) × IsOpen i s'
  unfolding msg_receive receive_loop fifo_get
  msg_receive-fifo i s v = elim (ℕ_discrete (queued (port_at s i)) 0) [
    | yes empty ↦
        let nothing : contents (port_at s i) ≡ [] =
          ap (messages (port_at s i).slots (port_at s i).queue_head) empty in
        rw (open_port i s v, receive_empty i s v empty, nothing) (refl, v)
    | no more ↦
        let (round, before) = receive_some i 2 s v more in
        rw (open_port i s v, round, before) (refl, take_message-IsOpen i s v)
  ]

  -- The calls of one client after another on port `i`.
  unfoldable pub run : ℕ → Ipc H → List Call → List Reply
  run i s [] = []
  run i s (put m ∷ cs) = let (o, s') = msg_send i (some m) 2 [] s in (o, none) ∷ run i s' cs
  run i s (get ∷ cs) = let (o, m, s') = msg_receive i true 2 [] s in (o, m) ∷ run i s' cs

  -- No sequence of calls that do not block tells an open port from a queue of at most 15 messages,
  -- first in, first out.
  pub run-fifo :
      (i : ℕ) (cs : List Call) (s : Ipc H)
      → IsOpen i s
      → run i s cs ≡ fifo_run (contents (port_at s i)) cs
  unfolding run fifo_run
  run-fifo i [] s v = refl
  run-fifo i (put m ∷ cs) s v =
      let (e, w) = msg_send-fifo i m s v in
      rw (run-fifo i cs (msg_send i (some m) 2 [] s).1 w, ← e) refl
  run-fifo i (get ∷ cs) s v =
      let (e, w) = msg_receive-fifo i s v in
      rw (run-fifo i cs (msg_receive i true 2 [] s).2 w, ← e) refl

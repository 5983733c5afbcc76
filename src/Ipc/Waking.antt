-- ===== src/Ipc/Waking.antt =====
-- Whom `msg_send` of kernel/ipc/ipc.c wakes.
use mex_os.Base.{ℕ, ◌≡◌, ◌≢◌, refl, ap, ◌∙◌, [], false, some, ◌==◌, arith}
use mex_os.Sched.Task.{Task, ready, set_state, has_id, find_task, sched_unblock}
use mex_os.Sched.Wait.{find-modify_same}
use mex_os.Ipc.Port.{Message, Ipc, port_at}
use mex_os.Ipc.Send.{done, put_message, send_loop, msg_send}
use mex_os.Ipc.Ring.{queued}
use mex_os.Ipc.Refine.{capacity, port_at-put_message}
use mex_os.Ipc.Run.{IsOpen, open_port, send_room}

module _ {H : Type 0} where
  -- Sending to a port that is not full makes the task ready that waits for a message there, and
  -- nobody is noted as waiting any more.
  pub msg_send-ready :
      (i : ℕ) (msg : Message) (flags : ℕ) (t : Task) (s : Ipc H)
      → IsOpen i s
      → queued (port_at s i) ≢ capacity
      → (port_at s i).waiting_receiver ≢ 0
      → find_task (has_id (port_at s i).waiting_receiver) s.sched.tasks ≡ some t
      → let (o, s') = msg_send i (some msg) flags [] s in
        (o ≡ done)
        × (find_task (has_id (port_at s i).waiting_receiver) s'.sched.tasks
            ≡ some (set_state ready t))
        × ((port_at s' i).waiting_receiver ≡ 0)
  unfolding msg_send send_loop put_message sched_unblock
  msg_send-ready i msg flags t s v room waiting there =
      let w = (port_at s i).waiting_receiver in
      let (sent, _) = send_room i msg flags s v room in
      let noted : (w == 0) ≡ false = ground (arith, waiting) in
      let woken = find-modify_same (has_id w) (set_state ready) s.sched.tasks there (λ u h. h) in
      let unblocks : (put_message i msg s).sched ≡ sched_unblock w s.sched =
        rw (noted, put_message) refl in
      let cleared : (port_at (put_message i msg s) i).waiting_receiver ≡ 0 =
        ap (λ p. p.waiting_receiver)
          (port_at-put_message i msg s (omega (arith, v.table, v.inside))) in
      rw (open_port i s v, sent)
        (refl, ap (λ x. find_task (has_id w) x.tasks) unblocks ∙ woken, cleared)

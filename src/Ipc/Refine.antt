-- ===== src/Ipc/Refine.antt =====
-- A port against its specification: a queue of at most 15 messages, first in, first out.
use mex_os.Base.{
  ℕ, suc, ◌+◌, ◌-◌, ◌%◌, ◌<◌, ◌≡◌, ◌≢◌, sym, ap, ◌∙◌, List, [], ◌∷◌, ◌++◌, get_or, set, length,
  get_or-set_self, length-set, arith, Option, none, some, ◌==◌, if◌then◌else◌, add32,
}
use mex_os.Ipc.Port.{Message, Port, Ipc, blank_message, blank_port, port_at, unblock_waiting}
use mex_os.Ipc.Send.{Outcome, done, would_block, next_tail, put_message, take_message}
use mex_os.Ipc.Ring.{IsRing, messages, contents, queued, length-messages, messages-set}

abbrev pub capacity : ℕ
capacity = 15

-- The specification.
unfoldable pub fifo_put : List Message → Message → Outcome × List Message
fifo_put q m = if length q == capacity then (would_block, q) else (done, q ++ (m ∷ []))

unfoldable pub fifo_get : List Message → Outcome × Option Message × List Message
fifo_get [] = (would_block, none, [])
fifo_get (m ∷ q) = (done, some m, q)

-- A call on the port.
pub data Call : Type 0 where
  put : Message → Call
  get : Call

abbrev pub Reply : Type 0
Reply = Outcome × Option Message

unfoldable pub fifo_run : List Message → List Call → List Reply
fifo_run q [] = []
fifo_run q (put m ∷ cs) = let (o, q') = fifo_put q m in (o, none) ∷ fifo_run q' cs
fifo_run q (get ∷ cs) = let (o, m, q') = fifo_get q in (o, m) ∷ fifo_run q' cs

pub length-contents : (p : Port) → length (contents p) ≡ queued p
length-contents p = length-messages p.slots p.queue_head (queued p)

-- The port after a message was put in its last free slot but one, or taken out.
abbrev pub filled : Port → Message → Port
filled p msg = record p {
  slots = set p.slots p.queue_tail msg;
  queue_tail = next_tail p;
  waiting_receiver = 0;
}

abbrev pub emptied : Port → Port
emptied p = record p { queue_head = add32 p.queue_head 1 % p.queue_size; waiting_sender = 0 }

pub next_tail-mod : (p : Port) → IsRing p → next_tail p ≡ (p.queue_tail + 1) % 16
next_tail-mod p v = ap (λ k. add32 p.queue_tail 1 % k) v.sized ∙ omega arith

pub filled-IsRing : (p : Port) (msg : Message) → IsRing p → IsRing (filled p msg)
filled-IsRing p msg v = record {
  sized = v.sized;
  has_slots = length-set p.slots p.queue_tail msg ∙ v.has_slots;
  head_in = v.head_in;
  tail_in = rw (next_tail-mod p v) (omega arith);
}

pub contents-filled :
    (p : Port) (msg : Message)
    → IsRing p
    → next_tail p ≢ p.queue_head
    → contents (filled p msg) ≡ contents p ++ (msg ∷ [])
contents-filled p msg v room =
    let n = queued p in
    let more : (next_tail p + 16 - p.queue_head) % 16 ≡ suc n = omega (arith, next_tail-mod p v) in
    ap (messages (set p.slots p.queue_tail msg) p.queue_head) more
    ∙ messages-set p.slots msg n p.queue_head p.queue_tail v.has_slots v.head_in (omega arith)
        (omega arith)

pub emptied_head :
    (p : Port) → IsRing p → add32 p.queue_head 1 % p.queue_size ≡ (p.queue_head + 1) % 16
emptied_head p v = ap (λ k. add32 p.queue_head 1 % k) v.sized ∙ omega arith

pub emptied-IsRing : (p : Port) → IsRing p → IsRing (emptied p)
emptied-IsRing p v = record {
  sized = v.sized;
  has_slots = v.has_slots;
  head_in = rw (emptied_head p v) (omega arith);
  tail_in = v.tail_in;
}

pub contents-emptied :
    (p : Port)
    → IsRing p
    → p.queue_head ≢ p.queue_tail
    → contents p ≡ get_or p.slots p.queue_head blank_message ∷ contents (emptied p)
contents-emptied p v some_message =
    let next = add32 p.queue_head 1 % p.queue_size in
    let n = (p.queue_tail + 16 - next) % 16 in
    let e : queued p ≡ suc n = omega (arith, emptied_head p v) in
    ap (messages p.slots p.queue_head) e
    ∙ ap (λ h. get_or p.slots p.queue_head blank_message ∷ messages p.slots h n)
        (sym (emptied_head p v))

module _ {H : Type 0} where
  pub ports-unblock_waiting : (tid : ℕ) (s : Ipc H) → (unblock_waiting tid s).ports ≡ s.ports
  ports-unblock_waiting tid s = ground arith

  pub port_at-put_message :
      (i : ℕ) (msg : Message) (s : Ipc H)
      → i < length s.ports
      → port_at (put_message i msg s) i ≡ filled (port_at s i) msg
  unfolding put_message
  port_at-put_message i msg s inside =
      ap (λ ps. get_or (set ps i (filled (port_at s i) msg)) i blank_port)
        (ports-unblock_waiting (port_at s i).waiting_receiver s)
      ∙ get_or-set_self s.ports i (filled (port_at s i) msg) blank_port inside

  pub port_at-take_message :
      (i : ℕ) (s : Ipc H)
      → i < length s.ports
      → port_at (take_message i s) i ≡ emptied (port_at s i)
  unfolding take_message
  port_at-take_message i s inside =
      ap (λ ps. get_or (set ps i (emptied (port_at s i))) i blank_port)
        (ports-unblock_waiting (port_at s i).waiting_sender s)
      ∙ get_or-set_self s.ports i (emptied (port_at s i)) blank_port inside

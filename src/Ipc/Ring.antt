-- ===== src/Ipc/Ring.antt =====
-- The slots of a port as a queue of messages.
use mex_os.Base.{
  ℕ, zero, suc, ◌+◌, ◌-◌, ◌%◌, ◌<◌, ◌≡◌, ◌≢◌, refl, ap, ◌∙◌, List, [], ◌∷◌, ◌++◌, get_or, set,
  length, get_or-set_self, get_or-set_ne, arith,
}
use mex_os.Ipc.Port.{Message, Port, blank_message}

-- The `n` messages from slot `head` on, round the end of the 16 slots.
abbrev pub messages : List Message → ℕ → ℕ → List Message
messages slots head zero = []
messages slots head (suc n) = get_or slots head blank_message ∷ messages slots ((head + 1) % 16) n

-- The port has its 16 slots, and its ends are slots.
pub record IsRing (p : Port) : Type 0 where
  pub sized : p.queue_size ≡ 16
  pub has_slots : length p.slots ≡ 16
  pub head_in : p.queue_head < 16
  pub tail_in : p.queue_tail < 16

-- How many messages are queued: one slot always stays empty.
abbrev pub queued : Port → ℕ
queued p = (p.queue_tail + 16 - p.queue_head) % 16

abbrev pub contents : Port → List Message
contents p = messages p.slots p.queue_head (queued p)

pub length-messages : (slots : List Message) (head n : ℕ) → length (messages slots head n) ≡ n
length-messages slots head zero = refl
length-messages slots head (suc n) = ap suc (length-messages slots ((head + 1) % 16) n)

-- A message written behind the last one comes last.
pub messages-set :
    (slots : List Message) (msg : Message) (n head end : ℕ)
    → length slots ≡ 16
    → head < 16
    → n < 16
    → end ≡ (head + n) % 16
    → messages (set slots end msg) head (suc n) ≡ messages slots head n ++ (msg ∷ [])
messages-set slots msg zero head end full inside room e =
    let same : end ≡ head = omega arith in
    ap (λ m. m ∷ [])
      (ap (λ k. get_or (set slots k msg) head blank_message) same
        ∙ get_or-set_self slots head msg blank_message (omega arith))
messages-set slots msg (suc n) head end full inside room e =
    let apart : end ≢ head = omega arith in
    let ih =
      messages-set slots msg n ((head + 1) % 16) end full (omega arith) (omega arith)
        (omega arith) in
    ap (λ x. x ∷ messages (set slots end msg) ((head + 1) % 16) (suc n))
      (get_or-set_ne slots end head msg blank_message apart)
    ∙ ap (◌∷◌ (get_or slots head blank_message)) ih

-- ===== src/Log.antt =====
-- The kernel's log, kernel/lib/log.c: a ring of 128 entries.
use mex_os.Base.{
  ℕ, zero, suc, ◌+◌, ◌-◌, ◌%◌, Option, none, some, List, [], ◌∷◌, ◌++◌, if◌then◌else◌, ltb, leb,
  ◌==◌, replicate, get_or, set, add32,
}
use mex_os.Text.{clip}
mod Ring
mod Refine
mod Tests

-- `struct log_entry`; `message` is the text up to its terminating 0, as it can be read back.
pub record Entry : Type 0 where
  pub timestamp : ℕ
  pub level : ℕ
  pub message : List ℕ

pub record Log : Type 0 where
  pub buffer : List Entry
  pub head : ℕ
  pub count : ℕ

abbrev pub max_entries : ℕ
max_entries = 128

abbrev pub max_msg_len : ℕ
max_msg_len = 128

-- An entry after `memset`.
abbrev pub blank_entry : Entry
blank_entry = record { timestamp = 0; level = 0; message = [] }

unfoldable pub log_init : Log
log_init = record { buffer = replicate max_entries blank_entry; head = 0; count = 0 }

-- `log_write` at time `now`; `none` for a null pointer. The 127 characters that `strncpy` is told to
-- copy and the 0 behind them are what the text of the entry ends at.
unfoldable pub log_write : ℕ → ℕ → Option (List ℕ) → Log → Log
log_write now level none l = l
log_write now level (some msg) l = record {
  buffer =
      set l.buffer l.head
        (record { timestamp = now; level = level; message = clip (max_msg_len - 1) msg });
  head = add32 l.head 1 % max_entries;
  count = if ltb l.count max_entries then add32 l.count 1 else l.count;
}

unfoldable pub log_get_entry : ℕ → Log → Option Entry
log_get_entry index l =
    if leb l.count index
    then none
    else some (
        get_or l.buffer
          (if ltb l.count max_entries then index else add32 l.head index % max_entries) blank_entry)

unfoldable pub log_clear : Log → Log
log_clear l = record { buffer = replicate max_entries blank_entry; head = 0; count = 0 }

-- ===== src/Log/Refine.antt =====
-- The log keeps the last 128 messages, kernel/lib/log.c.
use mex_os.Base.{
  ℕ, zero, suc, ◌+◌, ◌-◌, ◌%◌, ◌<◌, ◌≤◌, ◌≡◌, refl, sym, ap, ◌∙◌, List, [], ◌∷◌, ◌++◌, append-nil,
  append_assoc, get_or, set, length, length-set, length-replicate, get_elem?, arith, ℕ_discrete,
  some, if◌then◌else◌, ltb, leb, Bool-cases, add32, inl, inr, true, false, dec_lt,
}
use mex_os.Text.{clip}
use mex_os.Log.{Entry, Log, blank_entry, log_init, log_write, log_get_entry}
use mex_os.Log.Ring.{
  IsRing, oldest, entries, entries_from, length-entries_from, entries_from-set,
  get_elem?-entries_from, get_elem?-eq-none,
}

-- What the log holds of one call: the text is cut after 127 characters.
abbrev pub entry : ℕ → ℕ → List ℕ → Entry
entry now level msg = record { timestamp = now; level = level; message = clip 127 msg }

-- The last 128 of a list.
abbrev drop_first : ℕ → List Entry → List Entry
drop_first zero es = es
drop_first (suc n) [] = []
drop_first (suc n) (e ∷ es) = drop_first n es

abbrev pub recent : List Entry → List Entry
recent es = drop_first (length es - 128) es

-- An entry joins the log; the oldest of 128 leaves.
abbrev push : Entry → List Entry → List Entry
push e es = recent (es ++ (e ∷ []))

log_init-IsRing : IsRing log_init
unfolding log_init
log_init-IsRing = record {
  has_slots = length-replicate 128 blank_entry;
  head_in = omega arith;
  count_in = omega arith;
  from_start = λ _. refl;
}

written-IsRing :
    (now level : ℕ) (msg : List ℕ) (l : Log) → IsRing l → IsRing (log_write now level (some msg) l)
unfolding log_write
written-IsRing now level msg l r =
    let slots = length-set l.buffer l.head (entry now level msg) ∙ r.has_slots in
    let start = r.from_start in
    elim (ℕ_discrete l.count 128) [
      | yes full ↦
          let no_more : ltb l.count 128 ≡ false = ground arith in
          rw no_more (record {
            has_slots = slots;
            head_in = omega arith;
            count_in = r.count_in;
            from_start = λ ne. elim (ne full) [ ];
          })
      | no room ↦
          let more : ltb l.count 128 ≡ true = ground (arith, r.count_in) in
          let at : l.head ≡ l.count = start room in
          let next : add32 l.count 1 ≡ l.count + 1 = omega (arith, r.count_in) in
          rw more (record {
            has_slots = slots;
            head_in = omega arith;
            count_in = omega (arith, r.count_in, room);
            from_start = λ ne. omega (arith, at, next, ne, r.count_in, room);
          })
    ]

length-append : (es fs : List Entry) → length (es ++ fs) ≡ length es + length fs
length-append [] fs = omega arith
length-append (e ∷ es) fs = ap suc (length-append es fs) ∙ omega arith

recent_short : (es : List Entry) → length es ≤ 128 → recent es ≡ es
recent_short es short =
    let none_over : length es - 128 ≡ 0 = omega arith in ap (λ k. drop_first k es) none_over

full_lem :
    (buffer : List Entry) (h : ℕ) (e : Entry)
    → length buffer ≡ 128
    → h < 128
    → entries_from (set buffer h e) ((h + 1) % 128) 128 ≡ push e (entries_from buffer h 128)
full_lem buffer h e slots inside =
    let es = entries_from buffer h 128 in
    let longer = length-append es (e ∷ []) in
    let one : length (es ++ (e ∷ [])) - 128 ≡ 1 =
      omega (arith, longer, length-entries_from buffer h 128) in
    entries_from-set buffer e 127 ((h + 1) % 128) h slots (omega arith) (omega arith) (omega arith)
    ∙ ap (λ k. drop_first k (es ++ (e ∷ []))) (sym one)

room_lem :
    (buffer : List Entry) (n : ℕ) (e : Entry)
    → length buffer ≡ 128
    → n < 128
    → entries_from (set buffer n e) 0 (suc n) ≡ push e (entries_from buffer 0 n)
room_lem buffer n e slots room =
    let es = entries_from buffer 0 n in
    let longer = length-append es (e ∷ []) in
    entries_from-set buffer e n 0 n slots (omega arith) room (omega arith)
    ∙ sym (
        recent_short (es ++ (e ∷ [])) (omega (arith, longer, length-entries_from buffer 0 n, room)))

-- A write adds its entry behind the others, and takes the oldest away if there are 128.
pub entries-log_write :
    (now level : ℕ) (msg : List ℕ) (l : Log)
    → IsRing l
    → entries (log_write now level (some msg) l) ≡ push (entry now level msg) (entries l)
unfolding log_write
entries-log_write now level msg l r =
    let e = entry now level msg in
    let head = r.head_in in
    elim (ℕ_discrete l.count 128) [
      | yes full ↦
          let no_more : ltb l.count 128 ≡ false = ground arith in
          let next : add32 l.head 1 % 128 ≡ (l.head + 1) % 128 = omega (arith, head) in
          rw (no_more, no_more, next)
            (ap (entries_from (set l.buffer l.head e) ((l.head + 1) % 128)) full
              ∙ full_lem l.buffer l.head e r.has_slots head
              ∙ ap (λ n. push e (entries_from l.buffer l.head n)) (sym full))
      | no room ↦
          let few : l.count < 128 = omega (arith, r.count_in, room) in
          let more : ltb l.count 128 ≡ true = ground arith in
          let at : l.head ≡ l.count = r.from_start room in
          let next : add32 l.count 1 ≡ suc l.count = omega arith in
          let start : (if ltb (suc l.count) 128 then 0 else (add32 l.head 1 % 128)) ≡ 0 =
            ground (arith, at, few) in
          rw (more, next, start)
            (ap (λ k. entries_from (set l.buffer k e) 0 (suc l.count)) at
              ∙ room_lem l.buffer l.count e r.has_slots few)
    ]

-- The calls of `log_write` with a text, one after another: the time, the level, the text.
unfoldable pub write_all : List (ℕ × ℕ × List ℕ) → Log → Log
write_all [] l = l
write_all ((now, level, msg) ∷ ws) l = write_all ws (log_write now level (some msg) l)

abbrev pub written : List (ℕ × ℕ × List ℕ) → List Entry
written [] = []
written ((now, level, msg) ∷ ws) = entry now level msg ∷ written ws

-- Dropping before or after an append makes no difference to the last 128.
recent-push :
    (e : Entry) (es fs : List Entry)
    → length es ≤ 128
    → recent (push e es ++ fs) ≡ recent (es ++ (e ∷ fs))
recent-push e es fs few = elim (dec_lt (length es) 128) [
  | yes room ↦
      let longer = length-append es (e ∷ []) in
      ap (λ k. recent (k ++ fs)) (recent_short (es ++ (e ∷ [])) (omega (arith, longer, room)))
      ∙ ap recent (append_assoc es (e ∷ []) fs)
  | no full ↦ over e es fs (omega arith)
]
  where
    over :
        (e : Entry) (es fs : List Entry)
        → length es ≡ 128
        → recent (push e es ++ fs) ≡ recent (es ++ (e ∷ fs))
    over e [] fs full = let z : ⊥ = omega (arith, full) in elim z [ ]
    over e (x ∷ es) fs full =
        let longer = length-append es (e ∷ []) in
        let all = length-append es (e ∷ fs) in
        let one : length ((x ∷ es) ++ (e ∷ [])) - 128 ≡ 1 = omega (arith, longer, full) in
        let deep : length ((x ∷ es) ++ (e ∷ fs)) - 128 ≡ suc (length (es ++ (e ∷ fs)) - 128) =
          omega (arith, all, full) in
        ap (λ k. recent (drop_first k ((x ∷ es) ++ (e ∷ [])) ++ fs)) one
        ∙ ap recent (append_assoc es (e ∷ []) fs)
        ∙ ap (λ k. drop_first k ((x ∷ es) ++ (e ∷ fs))) (sym deep)

write_all_lem :
    (ws : List (ℕ × ℕ × List ℕ)) (l : Log)
    → IsRing l
    → IsRing (write_all ws l) × (entries (write_all ws l) ≡ recent (entries l ++ written ws))
unfolding write_all
write_all_lem [] l r =
    let count = length-entries_from l.buffer (oldest l) l.count in
    (
      r,
      sym (recent_short (entries l) (omega (arith, count, r.count_in)))
          ∙ ap recent (sym (append-nil (entries l))),
    )
write_all_lem ((now, level, msg) ∷ ws) l r =
    let l' : Log = log_write now level (some msg) l in
    let (r', e) = write_all_lem ws l' (written-IsRing now level msg l r) in
    let count = length-entries_from l.buffer (oldest l) l.count in
    (
      r',
      e
          ∙ ap (λ k. recent (k ++ written ws)) (entries-log_write now level msg l r)
          ∙ recent-push (entry now level msg) (entries l) (written ws)
              (omega (arith, count, r.count_in)),
    )

-- `log_get_entry` reads the list of entries, by index from the oldest.
get_entry_lem :
    (index : ℕ) (l : Log) → IsRing l → log_get_entry index l ≡ get_elem? (entries l) index
unfolding log_get_entry
get_entry_lem index l r =
    let count = length-entries_from l.buffer (oldest l) l.count in
    elim (Bool-cases (leb l.count index)) [
      | inl past ↦
          let over : l.count ≤ index = ground arith in
          rw past (sym (get_elem?-eq-none (entries l) index (omega (arith, count, over))))
      | inr within ↦
          let below : index < l.count = ground arith in
          elim (Bool-cases (ltb l.count 128)) [
            | inl room ↦
                let at : (0 + index) % 128 ≡ index = omega (arith, below, r.count_in) in
                rw (within, room)
                  (sym (
                    get_elem?-entries_from l.buffer 0 l.count index (omega arith) below
                    ∙ ap (λ k. some (get_or l.buffer k blank_entry)) at))
            | inr full ↦
                let at : (l.head + index) % 128 ≡ add32 l.head index % 128 =
                  omega (arith, r.head_in, below, r.count_in) in
                rw (within, full)
                  (sym (
                    get_elem?-entries_from l.buffer l.head l.count index r.head_in below
                    ∙ ap (λ k. some (get_or l.buffer k blank_entry)) at))
          ]
    ]

-- After any number of writes to an empty log, `log_get_entry` reads the last 128 entries, oldest
-- first, and returns null past them.
pub log_get_entry-write_all :
    (ws : List (ℕ × ℕ × List ℕ)) (index : ℕ)
    → log_get_entry index (write_all ws log_init) ≡ get_elem? (recent (written ws)) index
unfolding log_init
log_get_entry-write_all ws index =
    let (r, e) = write_all_lem ws log_init log_init-IsRing in
    get_entry_lem index (write_all ws log_init) r ∙ ap (λ es. get_elem? es index) e

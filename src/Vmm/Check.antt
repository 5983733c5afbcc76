-- ===== src/Vmm/Check.antt =====
-- What `vmm_check_user_ptr` of kernel/mm/vmm.c says of a pointer.
use mex_os.Base.{
  ℕ, zero, suc, ◌+◌, ◌-◌, ◌*◌, ◌/◌, ◌^◌, ◌≤◌, ◌<◌, ◌≡◌, ◌≢◌, inl, inr, refl, sym, ap, ◌∙◌, subst,
  Bool, true, false, not, ◌&&◌, ◌||◌, ltb, leb, ◌==◌, add32, sub32, arith, Bool-cases,
}
use mex_os.Vmm.Table.{
  Vmm, page_size, user_space_end, page_of, entry_at, directory_entry, table_index, directory_index,
  is_present, is_user, is_writable,
}
use mex_os.Vmm.Map.{index_lem}
use mex_os.Vmm.Space.{page_passes, pages_pass, vmm_check_user_ptr}

-- Every page that the loop goes through passes.
pages_pass-each :
    (s : Vmm) (write : Bool) (end_at rounds page i : ℕ)
    → end_at ≤ user_space_end
    → pages_pass s write end_at rounds page ≡ true
    → i < rounds
    → page + 4096 * i ≤ end_at
    → page_passes s write (page + 4096 * i) ≡ true
unfolding pages_pass
pages_pass-each s write end_at zero page i low e below inside = absurd (omega arith)
pages_pass-each s write end_at (suc rounds) page zero low e below inside =
    let entered : leb page end_at ≡ true = ground (arith, inside) in
    let both : (page_passes s write page && pages_pass s write end_at rounds (add32 page page_size))
        ≡ true =
      rw (entered, pages_pass) at e in
    let here : page_passes s write page ≡ true = ground (arith, both) in
    let same : page ≡ page + 4096 * 0 = omega arith in ap (page_passes s write) (sym same) ∙ here
pages_pass-each s write end_at (suc rounds) page (suc i) low e below inside =
    let entered : leb page end_at ≡ true = ground (arith, inside) in
    let both : (page_passes s write page && pages_pass s write end_at rounds (add32 page page_size))
        ≡ true =
      rw (entered, pages_pass) at e in
    let later : pages_pass s write end_at rounds (add32 page page_size) ≡ true =
      ground (arith, both) in
    let no_wrap : add32 page page_size ≡ page + 4096 = omega (arith, inside, low) in
    let same : page + 4096 + 4096 * i ≡ page + 4096 * suc i = omega arith in
    let later' : pages_pass s write end_at rounds (page + 4096) ≡ true =
      subst (λ p. pages_pass s write end_at rounds p ≡ true) no_wrap later in
    ap (page_passes s write) (sym same)
    ∙ pages_pass-each s write end_at rounds (page + 4096) i low later' (omega arith)
        (omega (arith, inside))

-- A range of bytes, as a pointer and a length.
pub record IsRange (start len : ℕ) : Type 0 where
  pub start_word : start < 2 ^ 32
  pub len_word : len < 2 ^ 32
  pub some_bytes : 0 < len

-- The entry of an address in the current tables, whether or not there is one.
abbrev pub user_entry : Vmm → ℕ → ℕ
user_entry s a =
    s.memory (entry_at s (page_of (directory_entry s s.current_directory a)) (table_index a))

-- An address below the kernel with a table in the current directory, whose entry in that table is
-- present, for the user, and writable if `write`. The processor also wants the user and the write
-- flag of the directory's entry, which the check does not look at.
pub record HasUserEntry (s : Vmm) (write : Bool) (a : ℕ) : Type 0 where
  pub in_user_space : a ≤ user_space_end
  pub has_table : is_present (directory_entry s s.current_directory a) ≡ true
  pub present : is_present (user_entry s a) ≡ true
  pub user : is_user (user_entry s a) ≡ true
  pub writable : (not write || is_writable (user_entry s a)) ≡ true

-- The tests of one page, by the indices of its entries.
abbrev passes_at : Vmm → Bool → ℕ → ℕ → Bool
passes_at s write in_directory in_table =
    let dir = s.memory (entry_at s s.current_directory in_directory) in
    let entry = s.memory (entry_at s (page_of dir) in_table) in
    is_present dir && is_present entry && is_user entry && (not write || is_writable entry)

page_passes-HasUserEntry :
    (s : Vmm) (write : Bool) (a : ℕ)
    → a ≤ user_space_end
    → page_passes s write (page_of a) ≡ true
    → HasUserEntry s write a
unfolding page_passes
page_passes-HasUserEntry s write a low e =
    let (same_dir, same_index) = index_lem a in
    let f : passes_at s write (directory_index a) (table_index a) ≡ true =
      ap (λ d. passes_at s write d (table_index a)) (sym same_dir)
      ∙ ap (λ t. passes_at s write (directory_index (page_of a)) t) (sym same_index)
      ∙ e in
    record {
      in_user_space = low;
      has_table = ground (arith, f);
      present = ground (arith, f);
      user = ground (arith, f);
      writable = ground (arith, f);
    }

-- If the check passes a range of one byte or more that ends inside the 32 bits, every byte of it is
-- in user space, its table is present in the current directory, and its entry in that table is
-- present, for the user, and writable if that was asked. Of the directory's entry nothing but its
-- present flag is said.
pub vmm_check_user_ptr-HasUserEntry :
    (s : Vmm) (start len : ℕ) (write : Bool) (a : ℕ)
    → IsRange start len
    → start + len ≤ 2 ^ 32
    → vmm_check_user_ptr s start len write ≡ true
    → start ≤ a
    → a < start + len
    → HasUserEntry s write a
unfolding vmm_check_user_ptr
vmm_check_user_ptr-HasUserEntry s start len write a r no_wrap e from before =
    let end_at : ℕ = sub32 (add32 start len) 1 in
    let at_end : end_at + 1 ≡ start + len =
      omega (arith, r.some_bytes, no_wrap, r.start_word, r.len_word) in
    let some_len : (len == 0) ≡ false = ground (arith, r.some_bytes) in
    elim (Bool-cases (start == 0)) [
      | inl null ↦ let f : false ≡ true = rw (null, vmm_check_user_ptr) at e in cc
      | inr there ↦ elim (Bool-cases (ltb user_space_end start || ltb user_space_end end_at)) [
        | inl high ↦
            let f : false ≡ true = rw (there, some_len, high, vmm_check_user_ptr) at e in cc
        | inr low ↦ elim (Bool-cases (s.current_directory == 0)) [
          | inl none_there ↦
              let f : false ≡ true =
                rw (there, some_len, low, none_there, vmm_check_user_ptr) at e in
              cc
          | inr current ↦
              let passes : pages_pass s write end_at (end_at / page_size + 1) (page_of start)
                  ≡ true =
                rw (there, some_len, low, current, vmm_check_user_ptr) at e in
              let bound : end_at ≤ user_space_end = ground (arith, low) in
              let i : ℕ = a / 4096 - start / 4096 in
              let page : page_of start + 4096 * i ≡ page_of a = omega (arith, from) in
              let within : page_of start + 4096 * i ≤ end_at =
                omega (arith, page, before, at_end) in
              let p =
                pages_pass-each s write end_at (end_at / page_size + 1) (page_of start) i bound
                  passes (omega (arith, within)) within in
              page_passes-HasUserEntry s write a (omega (arith, before, at_end, bound))
                (ap (page_passes s write) (sym page) ∙ p)
        ]
      ]
    ]

-- A range that wraps around, from a page of user space to an address below that page, passes the
-- check whatever is mapped, if a directory is current.
pub vmm_check_user_ptr-wraps :
    (s : Vmm) (start len : ℕ) (write : Bool)
    → IsRange start len
    → start ≤ user_space_end
    → 2 ^ 32 < start + len
    → start + len ≤ 2 ^ 32 + page_of start
    → s.current_directory ≢ 0
    → vmm_check_user_ptr s start len write ≡ true
unfolding vmm_check_user_ptr pages_pass
vmm_check_user_ptr-wraps s start len write r user wraps below current =
    let end_at : ℕ = sub32 (add32 start len) 1 in
    let at_end : end_at + 1 + 2 ^ 32 ≡ start + len =
      omega (arith, wraps, r.start_word, r.len_word) in
    let there : (start == 0) ≡ false = ground (arith, wraps, r.len_word) in
    let some_len : (len == 0) ≡ false = ground (arith, r.some_bytes) in
    let low : (ltb user_space_end start || ltb user_space_end end_at) ≡ false =
      ground (arith, user, at_end, r.len_word) in
    let has_directory : (s.current_directory == 0) ≡ false = ground (arith, current) in
    let no_round : leb (page_of start) end_at ≡ false = ground (arith, at_end, below) in
    let last : end_at / page_size + 1 ≡ suc (end_at / page_size) = omega arith in
    let none_checked : pages_pass s write end_at (suc (end_at / page_size)) (page_of start) ≡ true =
      rw (no_round, pages_pass) refl in
    rw (there, some_len, low, has_directory, vmm_check_user_ptr)
      (ap (λ n. pages_pass s write end_at n (page_of start)) last ∙ none_checked)

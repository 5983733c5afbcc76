-- ===== src/Log/Tests.antt =====
-- The log on concrete messages.
use mex_os.Base.{ℕ, ◌≡◌, refl, some, List, [], ◌∷◌, get_elem?}
use mex_os.Log.{log_init, log_write, log_get_entry}
use mex_os.Log.Refine.{write_all, written, recent, entry, log_get_entry-write_all}

abbrev two : List (ℕ × ℕ × List ℕ)
two = (5, 1, 104 ∷ 105 ∷ []) ∷ (9, 3, 98 ∷ 121 ∷ 101 ∷ []) ∷ []

log_get_entry-write_all_example :
    log_get_entry 1 (write_all two log_init) ≡ get_elem? (recent (written two)) 1
log_get_entry-write_all_example = log_get_entry-write_all two 1

second_value : log_get_entry 1 (write_all two log_init) ≡ some (entry 9 3 (98 ∷ 121 ∷ 101 ∷ []))
unfolding log_get_entry write_all log_write log_init
second_value = refl

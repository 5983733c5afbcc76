-- ===== src/Fs/Tests.antt =====
-- The file system of kernel/fs/fs.c on a few files in memory.
use mex_os.Base.{
  ℕ, ◌≡◌, ◌≢◌, ◌-◌, refl, sym, ap, ◌∙◌, false, none, some, Option, List, [], ◌∷◌, ◌++◌, length, min,
  arith,
}
use mex_os.Text.{Text, same_text, split, split_last}
use mex_os.Fs.Node.{
  not_empty, ok, err, DiskFs, Fs, node_at, find_index, find_free_node, find_node_in_dir, enter,
  walk, resolve_path, resolve_name, resolve_full_path,
}
use mex_os.Fs.Ops.{
  bytes_of, create_node, has_child, list_from, fs_init, fs_create_dir, fs_remove, fs_append,
  fs_list_dir, fs_change_dir, fs_exists,
}
use mex_os.Fs.Disk.{fs_create_file, fs_read, fs_write}
use mex_os.Fs.Files.{IsFs}
use mex_os.Fs.Contents.{fs_read-fs_write}
use mex_os.Fs.Append.{fs_append-adds}
use mex_os.Fs.Created.{IsPlain, fs_create_file-found}
use mex_os.Fs.Remove.{fs_remove-removes, fs_remove-cwd}
use mex_os.Fs.Failure.{remove, fails-unchanged}
use mex_os.Fs.Steps.{
  Reach, here, next, creates_dir, creates_file, changes_dir, writes, reachable-IsFs,
}

-- A disk on which everything fails.
instance abbrev no_disk : DiskFs ℕ
no_disk = record {
  lookup = λ d ino name. (none, d);
  create = λ d ino name type. (none, d);
  read = λ d ino size. (none, d);
  write = λ d ino source size. (none, d);
  sync = λ d. (false, d);
  init = λ d drive. (false, d);
}

-- `/d` and `/d/f`
abbrev path_d : Option Text
path_d = some (b'/' ∷ b'd' ∷ [])

abbrev path_f : Option Text
path_f = some (b'/' ∷ b'd' ∷ b'/' ∷ b'f' ∷ [])

abbrev path_g : Option Text
path_g = some (b'd' ∷ b'/' ∷ b'.' ∷ b'/' ∷ b'g' ∷ [])

abbrev bytes : ℕ → ℕ
bytes i = 7

abbrev with_dir : Fs ℕ
with_dir = (fs_create_dir path_d (fs_init 0)).1

abbrev with_file : Fs ℕ
with_file = (fs_create_file path_f with_dir).1

abbrev written : Fs ℕ
written = (fs_write path_f bytes 3 with_file).1

with_file-Reach : Reach (fs_init 0) with_file
with_file-Reach = next (next here (creates_dir path_d)) (creates_file path_f)

reachable-IsFs_example : IsFs with_file
reachable-IsFs_example = reachable-IsFs 0 with_file with_file-Reach

written-IsFs : IsFs written
written-IsFs = reachable-IsFs 0 written (next with_file-Reach (writes path_f bytes 3))

-- What the calls return.
made : fs_create_file path_f with_dir ≡ (ok tt, with_file)
unfolding find_index find_free_node find_node_in_dir enter walk resolve_path resolve_name
    resolve_full_path fs_init create_node fs_create_dir fs_create_file fs_write fs_append fs_remove
    fs_change_dir same_text split split_last
made = refl

wrote : fs_write path_f bytes 3 with_file ≡ (ok 3, written)
unfolding find_index find_free_node find_node_in_dir enter walk resolve_path resolve_name
    resolve_full_path fs_init create_node fs_create_dir fs_create_file fs_write fs_append fs_remove
    fs_change_dir same_text split split_last
wrote = refl

appended : fs_append path_f bytes 5000 written ≡ (ok 4093, (fs_append path_f bytes 5000 written).1)
unfolding find_index find_free_node find_node_in_dir enter walk resolve_path resolve_name
    resolve_full_path fs_init create_node fs_create_dir fs_create_file fs_write fs_append fs_remove
    fs_change_dir same_text split split_last
appended = refl

f_resolved : resolve_path with_dir.nodes with_dir.cwd_idx path_f ≡ ok (1, b'f' ∷ [])
unfolding find_index find_free_node find_node_in_dir enter walk resolve_path resolve_name
    resolve_full_path fs_init create_node fs_create_dir fs_create_file fs_write fs_append fs_remove
    fs_change_dir same_text split split_last
f_resolved = refl

f-IsPlain : IsPlain (b'f' ∷ [])
unfolding find_index find_free_node find_node_in_dir enter walk resolve_path resolve_name
    resolve_full_path fs_init create_node fs_create_dir fs_create_file fs_write fs_append fs_remove
    fs_change_dir same_text split split_last
f-IsPlain = record { no_dot = refl; no_dot_dot = refl }

f_index : resolve_full_path written.nodes written.cwd_idx path_f ≡ ok 2
unfolding find_index find_free_node find_node_in_dir enter walk resolve_path resolve_name
    resolve_full_path fs_init create_node fs_create_dir fs_create_file fs_write fs_append fs_remove
    fs_change_dir same_text split split_last
f_index = refl

cwd_root : written.cwd_idx ≡ 0
unfolding find_index find_free_node find_node_in_dir enter walk resolve_path resolve_name
    resolve_full_path fs_init create_node fs_create_dir fs_create_file fs_write fs_append fs_remove
    fs_change_dir same_text split split_last
cwd_root = refl

removed : fs_remove path_f written ≡ (ok tt, (fs_remove path_f written).1)
unfolding find_index find_free_node find_node_in_dir enter walk resolve_path resolve_name
    resolve_full_path fs_init create_node fs_create_dir fs_create_file fs_write fs_append fs_remove
    fs_change_dir same_text split split_last
removed = refl

d_filled : fs_remove path_d written ≡ (err not_empty, written)
unfolding find_index find_free_node find_node_in_dir enter walk resolve_path resolve_name
    resolve_full_path fs_init create_node fs_create_dir fs_create_file fs_write fs_append fs_remove
    fs_change_dir same_text split split_last
d_filled = refl

-- `..` and `.` are followed.
through_dots :
    resolve_full_path written.nodes 1
      (some (b'.' ∷ b'.' ∷ b'/' ∷ b'd' ∷ b'/' ∷ b'.' ∷ b'/' ∷ b'f' ∷ []))
    ≡ ok 2
unfolding find_index find_free_node find_node_in_dir enter walk resolve_path resolve_name
    resolve_full_path fs_init create_node fs_create_dir fs_create_file fs_write fs_append fs_remove
    fs_change_dir same_text split split_last
through_dots = refl

fs_read-fs_write_example :
    IsFs written
    × (3 ≡ min 3 4096)
    × (fs_read path_f 2 written ≡ (ok (bytes_of bytes 0 (min 2 3)), written))
fs_read-fs_write_example =
    fs_read-fs_write with_file written path_f bytes 3 3 2 reachable-IsFs_example wrote

abbrev longer : Fs ℕ
longer = (fs_append path_f bytes 5000 written).1

fs_append-adds_example :
    (old : List ℕ) × (fs_read path_f 4096 written ≡ (ok old, written))
    × (4093 ≡ min 5000 (4096 - length old))
    × (fs_read path_f 4096 longer ≡ (ok (old ++ bytes_of bytes 0 4093), longer))
    × IsFs longer
fs_append-adds_example =
    fs_append-adds written longer path_f bytes 5000 4093 written-IsFs (omega arith) appended

with_dir-IsFs : IsFs with_dir
with_dir-IsFs = reachable-IsFs 0 with_dir (next here (creates_dir path_d))

fs_create_file-found_example :
    IsFs with_file
    × (fs_exists path_f with_dir ≡ false)
    × (fs_read path_f 10 with_file ≡ (ok [], with_file))
    × ((other : Option Text) (i : ℕ)
        → resolve_full_path with_dir.nodes with_dir.cwd_idx other ≡ ok i
        → (resolve_full_path with_file.nodes with_file.cwd_idx other ≡ ok i)
          × (node_at with_file.nodes i ≡ node_at with_dir.nodes i))
fs_create_file-found_example =
    fs_create_file-found with_dir with_file path_f 1 b'f' 10 [] with_dir-IsFs f_resolved f-IsPlain
      made

not_cwd : resolve_full_path written.nodes written.cwd_idx path_f ≢ ok written.cwd_idx
not_cwd e = let f : ok 2 ≡ ok 0 = sym f_index ∙ e ∙ ap ok cwd_root in ground (arith, f)

abbrev without : Fs ℕ
without = (fs_remove path_f written).1

fs_remove-removes_example :
    IsFs without
    × (fs_exists path_f without ≡ false)
    × ((other : Option Text) (i : ℕ)
        → resolve_full_path without.nodes without.cwd_idx other ≡ ok i
        → (resolve_full_path written.nodes written.cwd_idx other ≡ ok i)
          × (node_at without.nodes i ≡ node_at written.nodes i))
fs_remove-removes_example = fs_remove-removes written without path_f written-IsFs not_cwd removed

fails-unchanged_example : written ≡ written
fails-unchanged_example =
    fails-unchanged written written not_empty written-IsFs.in_memory (remove path_d d_filled)

-- In `/d`, its own removal.
abbrev in_dir : Fs ℕ
in_dir = (fs_change_dir path_d with_dir).1

in_dir-IsFs : IsFs in_dir
in_dir-IsFs = reachable-IsFs 0 in_dir (next (next here (creates_dir path_d)) (changes_dir path_d))

at_cwd : resolve_full_path in_dir.nodes in_dir.cwd_idx path_d ≡ ok in_dir.cwd_idx
unfolding find_index find_free_node find_node_in_dir enter walk resolve_path resolve_name
    resolve_full_path fs_init create_node fs_create_dir fs_create_file fs_write fs_append fs_remove
    fs_change_dir same_text split split_last
at_cwd = refl

cwd_below_root : in_dir.cwd_idx ≡ 1
unfolding find_index find_free_node find_node_in_dir enter walk resolve_path resolve_name
    resolve_full_path fs_init create_node fs_create_dir fs_create_file fs_write fs_append fs_remove
    fs_change_dir same_text split split_last
cwd_below_root = refl

cwd_empty : has_child in_dir.cwd_idx in_dir.nodes ≡ false
unfolding find_index find_free_node find_node_in_dir enter walk resolve_path resolve_name
    resolve_full_path fs_init create_node fs_create_dir fs_create_file fs_write fs_append fs_remove
    fs_change_dir same_text split split_last
cwd_empty = refl

fs_remove-cwd_example :
    ((fs_remove path_d in_dir).0 ≡ ok tt)
    × ((fs_remove path_d in_dir).1.cwd_idx ≡ in_dir.cwd_idx)
    × ((node_at (fs_remove path_d in_dir).1.nodes in_dir.cwd_idx).used ≡ false)
fs_remove-cwd_example =
    fs_remove-cwd in_dir path_d in_dir-IsFs at_cwd (λ e. omega (arith, e, cwd_below_root)) cwd_empty

abbrev root_listing : Text
root_listing = b'[' ∷ b'd' ∷ b']' ∷ b'\n' ∷ []

-- The listing of the root in a buffer of 4 bytes fills it, with the final 0 behind it.
listed : fs_list_dir (some (b'/' ∷ [])) 4 with_dir ≡ ok root_listing
unfolding find_index find_free_node find_node_in_dir enter walk resolve_path resolve_name
    resolve_full_path fs_init create_node fs_create_dir fs_create_file fs_write fs_append fs_remove
    fs_change_dir same_text split split_last list_from fs_list_dir
listed = refl

-- ===== src/Fs/Node.antt =====
-- The nodes of kernel/fs/fs.c and fs.h, and how a path leads to one.
use mex_os.Base.{
  ℕ, ◌+◌, ◌-◌, Bool, true, false, not, ◌&&◌, Option, none, some, List, [], ◌∷◌, if◌then◌else◌, ◌==◌,
  get_or,
}
use mex_os.Text.{Text, clip, same_text, split_last, split}

pub data NodeType : Type 0 where
  file dir : NodeType

-- `contents` is the array `data`.
pub record Node : Type 0 where
  pub name : Text
  pub type : NodeType
  pub used : Bool
  pub size : ℕ
  pub parent_idx : ℕ
  pub contents : ℕ → ℕ

-- The codes `FS_ERR_…`; `disk_error` for a negative result of the file system on disk, `fault` where
-- the C code follows a null pointer.
pub data FsError : Type 0 where
  not_found exists_already full invalid not_empty is_a_dir not_a_dir disk_error fault : FsError

pub data Result (A : Type 0) : Type 0 where
  ok : A → Result A
  err : FsError → Result A

-- What fs.c uses of diskfs.c. `none` stands for a negative result.
pub record DiskFs (D : Type 0) : Type 0 where
  pub lookup : D → ℕ → Text → Option ℕ × D
  pub create : D → ℕ → Text → NodeType → Option ℕ × D
  pub read : D → ℕ → ℕ → Option (Text) × D
  pub write : D → ℕ → (ℕ → ℕ) → ℕ → Option ℕ × D
  pub sync : D → Bool × D
  pub init : D → ℕ → Bool × D

-- `cwd` is the text in the array of the same name.
pub record Fs (D : Type 0) : Type 0 where
  pub nodes : List Node
  pub disk_enabled : Bool
  pub cwd : Text
  pub cwd_idx : ℕ
  pub disk : D

abbrev pub max_name : ℕ
max_name = 32

abbrev pub max_path : ℕ
max_path = 128

abbrev pub max_files : ℕ
max_files = 64

abbrev pub max_file_size : ℕ
max_file_size = 4096

abbrev pub max_path_depth : ℕ
max_path_depth = 8

abbrev pub slash : ℕ
slash = b'/'

abbrev pub dot : Text
dot = b'.' ∷ []

abbrev pub dot_dot : Text
dot_dot = b'.' ∷ b'.' ∷ []

abbrev pub root_path : Text
root_path = slash ∷ []

-- A node after `memset`.
abbrev pub blank_node : Node
blank_node = record {
  name = [];
  type = file;
  used = false;
  size = 0;
  parent_idx = 0;
  contents = λ i. 0;
}

abbrev pub node_at : List Node → ℕ → Node
node_at nodes i = get_or nodes i blank_node

abbrev pub is_dir : NodeType → Bool
is_dir dir = true
is_dir file = false

-- The loops `for (int i = 0; i < FS_MAX_FILES; i++)`: the first index from `i` on of a node that
-- passes a test.
unfoldable pub find_index : (Node → Bool) → ℕ → List Node → Option ℕ
find_index test i [] = none
find_index test i (n ∷ nodes) = if test n then some i else find_index test (i + 1) nodes

abbrev pub is_unused : Node → Bool
is_unused n = not n.used

abbrev pub is_child : ℕ → Node → Bool
is_child dir_idx n = n.used && (n.parent_idx == dir_idx)

abbrev pub is_named : ℕ → Text → Node → Bool
is_named dir_idx name n = is_child dir_idx n && same_text n.name name

unfoldable pub find_free_node : List Node → Option ℕ
find_free_node = find_index is_unused 0

unfoldable pub find_node_in_dir : ℕ → Text → List Node → Option ℕ
find_node_in_dir dir_idx name = find_index (is_named dir_idx name) 0

-- One component of a path, cut to the array `component`. A directory found or `none`.
unfoldable pub enter : List Node → ℕ → Text → Option ℕ
enter nodes current [] = some current
enter nodes current (c ∷ s) =
    if same_text (c ∷ s) dot
    then some current
    else if same_text (c ∷ s) dot_dot
    then some (if current == 0 then current else (node_at nodes current).parent_idx)
    else elim (find_node_in_dir current (c ∷ s) nodes) [
      | none ↦ none
      | some i ↦ if is_dir (node_at nodes i).type then some i else none
    ]

-- The loop `while (*token)` of `resolve_path`, over the components.
unfoldable pub walk : List Node → ℕ → List Text → Option ℕ
walk nodes current [] = some current
walk nodes current (part ∷ parts) = elim (enter nodes current (clip (max_name - 1) part)) [
  | none ↦ none
  | some next ↦ walk nodes next parts
]

abbrev pub skip_slash : Text → Text
skip_slash [] = []
skip_slash (c ∷ s) = if c == slash then s else c ∷ s

abbrev pub is_absolute : Text → Bool
is_absolute [] = false
is_absolute (c ∷ s) = c == slash

-- The directory that the path leads to, and the last part of the path. `none` is a null pointer.
unfoldable pub resolve_path : List Node → ℕ → Option Text → Result (ℕ × Text)
resolve_path nodes cwd_idx none = err invalid
resolve_path nodes cwd_idx (some []) = err invalid
resolve_path nodes cwd_idx (some (c ∷ s)) =
    let buf = clip (max_path - 1) (c ∷ s) in
    let current = if is_absolute buf then 0 else cwd_idx in
    elim (split_last slash (skip_slash buf)) [
      | none ↦ ok (current, clip (max_name - 1) (skip_slash buf))
      | some (dir_part, name_part) ↦ elim (walk nodes current (split slash dir_part)) [
        | none ↦ err not_found
        | some parent ↦ ok (parent, clip (max_name - 1) name_part)
      ]
    ]

-- The end of `resolve_full_path`, for the last part of the path.
unfoldable pub resolve_name : List Node → ℕ → Text → Result ℕ
resolve_name nodes parent [] = ok parent
resolve_name nodes parent (c ∷ s) =
    if same_text (c ∷ s) dot
    then ok parent
    else if same_text (c ∷ s) dot_dot
    then ok (if parent == 0 then 0 else (node_at nodes parent).parent_idx)
    else elim (find_node_in_dir parent (c ∷ s) nodes) [ none ↦ err not_found | some i ↦ ok i ]

unfoldable pub resolve_full_path : List Node → ℕ → Option Text → Result ℕ
resolve_full_path nodes cwd_idx none = err invalid
resolve_full_path nodes cwd_idx (some path) =
    if same_text path root_path then ok 0 else elim (resolve_path nodes cwd_idx (some path)) [
      | err e ↦ err e
      | ok (parent, basename) ↦ resolve_name nodes parent basename
    ]

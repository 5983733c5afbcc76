-- ===== src/Fs/Ops.antt =====
-- The operations of kernel/fs/fs.c that never look at the disk.
use mex_os.Base.{
  ℕ, zero, suc, ◌+◌, ◌-◌, Bool, true, false, not, ◌&&◌, Option, none, some, List, [], ◌∷◌, ◌++◌,
  if◌then◌else◌, ltb, leb, ◌==◌, set, replicate, length, add32, sub32,
}
use mex_os.Text.{Text, clip, same_text}
use mex_os.Fs.Node.{
  NodeType, dir, Node, not_found, exists_already, full, invalid, not_empty, is_a_dir, not_a_dir,
  Result, ok, err, Fs, max_name, max_files, max_file_size, max_path_depth, slash, dot, root_path,
  blank_node, node_at, is_dir, find_index, is_child, find_free_node, find_node_in_dir, resolve_path,
  resolve_full_path,
}

-- `memcpy` of `n` bytes into an array, `at` bytes behind its start.
abbrev pub copy_at : (ℕ → ℕ) → ℕ → (ℕ → ℕ) → ℕ → ℕ → ℕ
copy_at target at source n i = if leb at i && ltb i (at + n) then source (i - at) else target i

-- The bytes of an array from its start.
abbrev pub bytes_of : (ℕ → ℕ) → ℕ → ℕ → List ℕ
bytes_of source i zero = []
bytes_of source i (suc n) = source i ∷ bytes_of source (i + 1) n

abbrev pub new_node : NodeType → Text → ℕ → (ℕ → ℕ) → Node
new_node type name parent contents = record {
  name = clip (max_name - 1) name;
  type = type;
  used = true;
  size = 0;
  parent_idx = parent;
  contents = contents;
}

-- Whether a used node has the directory `i` as its parent.
abbrev pub has_child : ℕ → List Node → Bool
has_child i nodes = elim (find_index (is_child i) 0 nodes) [ none ↦ false | some j ↦ true ]

-- The common end of `fs_create_file` and `fs_create_dir`: the new nodes, with the contents that the
-- free node gets.
unfoldable pub create_node :
    NodeType → (Node → ℕ → ℕ) → Option Text → List Node → ℕ → Result (List Node)
create_node type contents path nodes cwd_idx = elim (resolve_path nodes cwd_idx path) [
  | err e ↦ err e
  | ok (parent, []) ↦ err invalid
  | ok (parent, c ∷ s) ↦ elim (find_node_in_dir parent (c ∷ s) nodes) [
    | some i ↦ err exists_already
    | none ↦ elim (find_free_node nodes) [
      | none ↦ err full
      | some i ↦ ok (set nodes i (new_node type (c ∷ s) parent (contents (node_at nodes i))))
    ]
  ]
]

abbrev pub root_node : Node
root_node = record {
  name = root_path;
  type = dir;
  used = true;
  size = 0;
  parent_idx = 0;
  contents = λ i. 0;
}

-- `fs_nodes[i]` as an entry of a listing.
abbrev pub entry_text : Node → Text
entry_text n =
    if is_dir n.type then b'[' ∷ n.name ++ (b']' ∷ b'\n' ∷ []) else n.name ++ (b'\n' ∷ [])

-- The loop of `fs_list_dir`: the text in the buffer after `pos` characters. A 0 stands behind it.
unfoldable pub list_from : ℕ → ℕ → ℕ → ℕ → List Node → Text
list_from dir_idx size i pos [] = []
list_from dir_idx size i pos (n ∷ nodes) =
    let listed = is_child dir_idx n && not (i == dir_idx) in
    let fits = not (leb size (pos + (length n.name + 2))) in
    let text = if listed then entry_text n else [] in
    let rest = list_from dir_idx size (i + 1) (pos + length text) nodes in
    if listed && not fits then [] else text ++ rest

-- The names from node `current` up to the root, joined: the loops of `fs_change_dir`, for at most
-- `depth` directories. The text is as long as it gets, whatever the size of the array `cwd`.
unfoldable pub path_to : ℕ → ℕ → List Node → Text
path_to zero current nodes = []
path_to (suc depth) current nodes =
    let up = path_to depth (node_at nodes current).parent_idx nodes in
    if current == 0 then [] else up ++ (slash ∷ clip (max_name - 1) (node_at nodes current).name)

module _ {D : Type 0} where
  unfoldable pub fs_init : D → Fs D
  fs_init d = record {
    nodes = set (replicate max_files blank_node) 0 root_node;
    disk_enabled = false;
    cwd = root_path;
    cwd_idx = 0;
    disk = d;
  }

  -- A state with other nodes, or as it was with an error.
  abbrev pub with_nodes : Result (List Node) → Fs D → Result Unit × Fs D
  with_nodes (ok nodes) s = (ok tt, record s { nodes = nodes })
  with_nodes (err e) s = (err e, s)

  unfoldable pub fs_create_dir : Option Text → Fs D → Result Unit × Fs D
  fs_create_dir path s = with_nodes (create_node dir (λ n. n.contents) path s.nodes s.cwd_idx) s

  unfoldable pub fs_remove : Option Text → Fs D → Result Unit × Fs D
  fs_remove path s = elim (resolve_full_path s.nodes s.cwd_idx path) [
    | err e ↦ (err not_found, s)
    | ok i ↦
        if i == 0
        then (err invalid, s)
        else if is_dir (node_at s.nodes i).type && has_child i s.nodes
        then (err not_empty, s)
        else (ok tt, record s { nodes = set s.nodes i blank_node })
  ]

  unfoldable pub fs_append : Option Text → (ℕ → ℕ) → ℕ → Fs D → Result ℕ × Fs D
  fs_append path source size s = elim (resolve_full_path s.nodes s.cwd_idx path) [
    | err e ↦ (err not_found, s)
    | ok i ↦
        let n = node_at s.nodes i in
        let available = sub32 max_file_size n.size in
        let count = if ltb available size then available else size in
        if is_dir n.type then (err is_a_dir, s) else (
          ok count,
          record s {
            nodes = set s.nodes i (record n {
              contents = copy_at n.contents n.size source count;
              size = add32 n.size count;
            });
          },
        )
  ]

  -- The text that `fs_list_dir` leaves in the buffer; it returns its length.
  unfoldable pub fs_list_dir : Option Text → ℕ → Fs D → Result Text
  fs_list_dir path size s =
      let here : Bool = elim path [
        | none ↦ true
        | some [] ↦ true
        | some (c ∷ p) ↦ same_text (c ∷ p) dot
      ] in
      elim (if here then (ok s.cwd_idx) else resolve_full_path s.nodes s.cwd_idx path) [
        | err e ↦ err not_found
        | ok i ↦
            if is_dir (node_at s.nodes i).type
            then ok (list_from i size 0 0 s.nodes)
            else err not_a_dir
      ]

  unfoldable pub fs_change_dir : Option Text → Fs D → Result Unit × Fs D
  fs_change_dir none s = (ok tt, record s { cwd_idx = 0; cwd = root_path })
  fs_change_dir (some []) s = (ok tt, record s { cwd_idx = 0; cwd = root_path })
  fs_change_dir (some (c ∷ p)) s = elim (resolve_full_path s.nodes s.cwd_idx (some (c ∷ p))) [
    | err e ↦ (err not_found, s)
    | ok i ↦
        if is_dir (node_at s.nodes i).type
        then (
          ok tt,
          record s {
            cwd_idx = i;
            cwd = if i == 0 then root_path else path_to max_path_depth i s.nodes;
          },
        )
        else (err not_a_dir, s)
  ]

  unfoldable pub fs_exists : Option Text → Fs D → Bool
  fs_exists path s = elim (resolve_full_path s.nodes s.cwd_idx path) [ ok i ↦ true | err e ↦ false ]

  unfoldable pub fs_is_dir : Option Text → Fs D → Bool
  fs_is_dir path s = elim (resolve_full_path s.nodes s.cwd_idx path) [
    | ok i ↦ is_dir (node_at s.nodes i).type
    | err e ↦ false
  ]

  unfoldable pub fs_get_size : Option Text → Fs D → ℕ
  fs_get_size path s = elim (resolve_full_path s.nodes s.cwd_idx path) [
    | ok i ↦ (node_at s.nodes i).size
    | err e ↦ 0
  ]

  unfoldable pub fs_clear_cache : Fs D → Fs D
  fs_clear_cache s = record s {
    nodes = node_at s.nodes 0 ∷ replicate (max_files - 1) blank_node;
    cwd_idx = 0;
    cwd = root_path;
  }

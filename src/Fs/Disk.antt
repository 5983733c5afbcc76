-- ===== src/Fs/Disk.antt =====
-- The operations of kernel/fs/fs.c that go to the disk when it is enabled.
use mex_os.Base.{
  ℕ, ◌-◌, Bool, true, false, Option, none, some, List, [], ◌∷◌, if◌then◌else◌, ltb, set, drop,
}
use mex_os.Text.{Text, clip, same_text, split_last, split}
use mex_os.Fs.Node.{
  file, Node, not_found, full, is_a_dir, disk_error, fault, Result, ok, err, DiskFs, Fs, max_path,
  max_file_size, slash, root_path, node_at, is_dir, is_absolute, skip_slash, resolve_full_path,
}
use mex_os.Fs.Ops.{copy_at, bytes_of, create_node, with_nodes}

-- `DISKFS_MAX_FILENAME`
abbrev pub disk_max_name : ℕ
disk_max_name = 28

-- The parts of a path that `fs_create_file` makes for the disk: the directory and the name.
abbrev pub disk_parts : Text → Text × Text
disk_parts path = elim (split_last slash path) [
  | none ↦ (root_path, clip (disk_max_name - 1) path)
  | some ([], name) ↦ (root_path, clip (disk_max_name - 1) name)
  | some (c ∷ parent, name) ↦ (c ∷ parent, clip (disk_max_name - 1) name)
]

module _ {D : Type 0} ⦃disk : DiskFs D⦄ where
  -- The loop of `resolve_to_diskfs_inode`, over the components.
  unfoldable pub lookup_parts : ℕ → List Text → D → Option ℕ × D
  lookup_parts ino [] d = (some ino, d)
  lookup_parts ino ([] ∷ parts) d = lookup_parts ino parts d
  lookup_parts ino ((c ∷ part) ∷ parts) d =
      let (found, d') = disk.lookup d ino (clip (disk_max_name - 1) (c ∷ part)) in
      elim found [ none ↦ (none, d') | some next ↦ lookup_parts next parts d' ]

  -- The disk is enabled where this is called.
  unfoldable pub resolve_to_diskfs_inode : Option Text → D → Option ℕ × D
  resolve_to_diskfs_inode none d = (none, d)
  resolve_to_diskfs_inode (some path) d =
      let buf = clip (max_path - 1) path in
      if same_text path root_path
      then (some 0, d)
      else if is_absolute buf
      then lookup_parts 0 (split slash (skip_slash buf)) d
      else (none, d)

  unfoldable pub create_on_disk : Text → D → Result Unit × D
  create_on_disk path d =
      let (parent_path, basename) = disk_parts path in
      let (parent, d1) = resolve_to_diskfs_inode (some parent_path) d in
      elim parent [
        | none ↦ (err not_found, d1)
        | some ino ↦
            let (made, d2) = disk.create d1 ino basename file in
            elim made [ none ↦ (err full, d2) | some i ↦ (ok tt, d2) ]
      ]

  unfoldable pub fs_create_file : Option Text → Fs D → Result Unit × Fs D
  fs_create_file path s =
      if s.disk_enabled
      then elim path [
        | none ↦ (err fault, s)
        | some p ↦ let (r, d) = create_on_disk p s.disk in (r, record s { disk = d })
      ]
      else with_nodes (create_node file (λ n i. 0) path s.nodes s.cwd_idx) s

  unfoldable pub read_on_disk : Option Text → ℕ → D → Result (List ℕ) × D
  read_on_disk path size d =
      let (found, d1) = resolve_to_diskfs_inode path d in
      elim found [
        | none ↦ (err not_found, d1)
        | some ino ↦
            let (bytes, d2) = disk.read d1 ino size in
            elim bytes [ none ↦ (err disk_error, d2) | some b ↦ (ok b, d2) ]
      ]

  unfoldable pub write_on_disk : Option Text → (ℕ → ℕ) → ℕ → D → Result ℕ × D
  write_on_disk path source size d =
      let (found, d1) = resolve_to_diskfs_inode path d in
      elim found [
        | none ↦ (err not_found, d1)
        | some ino ↦
            let (count, d2) = disk.write d1 ino source size in
            let (synced, d3) = disk.sync d2 in
            elim count [ none ↦ (err disk_error, d3) | some n ↦ (ok n, d3) ]
      ]

  -- The bytes that `fs_read` puts into the buffer; it returns how many.
  unfoldable pub fs_read : Option Text → ℕ → Fs D → Result (List ℕ) × Fs D
  fs_read path size s =
      if s.disk_enabled
      then (let (r, d) = read_on_disk path size s.disk in (r, record s { disk = d }))
      else elim (resolve_full_path s.nodes s.cwd_idx path) [
        | err e ↦ (err not_found, s)
        | ok i ↦
            let n = node_at s.nodes i in
            if is_dir n.type
            then (err is_a_dir, s)
            else (ok (bytes_of n.contents 0 (if ltb size n.size then size else n.size)), s)
      ]

  unfoldable pub fs_write : Option Text → (ℕ → ℕ) → ℕ → Fs D → Result ℕ × Fs D
  fs_write path source size s =
      if s.disk_enabled
      then (let (r, d) = write_on_disk path source size s.disk in (r, record s { disk = d }))
      else elim (resolve_full_path s.nodes s.cwd_idx path) [
        | err e ↦ (err not_found, s)
        | ok i ↦
            let n = node_at s.nodes i in
            let count = if ltb max_file_size size then max_file_size else size in
            if is_dir n.type then (err is_a_dir, s) else (
              ok count,
              record s {
                nodes =
                    set s.nodes i
                      (record n { contents = copy_at n.contents 0 source count; size = count });
              },
            )
      ]

  -- One used node for the disk.
  abbrev pub save_node : Node → D → D
  save_node n d =
      let (made, d') = disk.create d 0 n.name n.type in
      elim made [
        | none ↦ d'
        | some ino ↦ if is_dir n.type then d' else (disk.write d' ino n.contents n.size).1
      ]

  unfoldable pub save_nodes : List Node → D → D
  save_nodes [] d = d
  save_nodes (n ∷ nodes) d = save_nodes nodes (if n.used then save_node n d else d)

  -- All nodes go into the root of the disk, whatever their parent.
  unfoldable pub fs_enable_disk : ℕ → Fs D → Bool × Fs D
  fs_enable_disk drive s =
      let (ready, d) = disk.init s.disk drive in
      let saved = save_nodes (drop 1 s.nodes) d in
      if ready
      then (true, record s { disk_enabled = true; disk = (disk.sync saved).1 })
      else (false, record s { disk = d })

  unfoldable pub fs_sync : Fs D → Bool × Fs D
  fs_sync s =
      let (synced, d) = disk.sync s.disk in
      if s.disk_enabled then (synced, record s { disk = d }) else (true, s)

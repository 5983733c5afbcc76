-- ===== src/Fs/Contents.antt =====
-- `fs_write`, `fs_append` and `fs_read` of kernel/fs/fs.c on one file in memory.
use mex_os.Base.{
  ℕ, ◌≤◌, ◌≡◌, inl, inr, refl, sym, ap, ◌∙◌, subst, false, Option, if◌then◌else◌, ltb, set, arith,
  Bool-cases, min,
}
use mex_os.Text.{Text}
use mex_os.Fs.Node.{
  Node, not_found, is_a_dir, Result, ok, err, DiskFs, Fs, max_file_size, node_at, is_dir,
  resolve_full_path,
}
use mex_os.Fs.Ops.{copy_at, bytes_of}
use mex_os.Fs.Disk.{fs_read, fs_write}
use mex_os.Fs.Create.{node_at-set_self}
use mex_os.Fs.Lookup.{resolve_full_path_kept, resolve_full_path-used}
use mex_os.Fs.Files.{
  IsFs, IsRewritten, rewritten-IsTree, rewritten-Extends, rewritten-IsDir, bytes_of-copy_at,
}

module _ {D : Type 0} ⦃disk : DiskFs D⦄ where
  -- The path leads to the file at index `i`.
  pub record IsFile (s : Fs D) (path : Option Text) (i : ℕ) : Type 0 where
    pub valid : IsFs s
    pub leads : resolve_full_path s.nodes s.cwd_idx path ≡ ok i
    pub no_dir : is_dir (node_at s.nodes i).type ≡ false

  pub read_lem :
      (s : Fs D) (path : Option Text) (i size : ℕ)
      → IsFile s path i
      → fs_read path size s
        ≡ (ok (bytes_of (node_at s.nodes i).contents 0 (min size (node_at s.nodes i).size)), s)
  unfolding fs_read
  read_lem s path i size f =
      let n = node_at s.nodes i in
      let least : (if ltb size n.size then size else n.size) ≡ min size n.size = ground arith in
      simp (f.valid.in_memory, f.leads, f.no_dir, fs_read)
        (ap (λ k. (ok (bytes_of n.contents 0 k), s)) least)

  -- The file with other contents.
  abbrev pub rewritten : Fs D → ℕ → (ℕ → ℕ) → ℕ → Fs D
  rewritten s i contents size = record s {
    nodes = set s.nodes i (record (node_at s.nodes i) { contents = contents; size = size });
  }

  pub rewritten-IsFile :
      (s : Fs D) (path : Option Text) (i : ℕ) (contents : ℕ → ℕ) (size : ℕ)
      → IsFile s path i
      → size ≤ 4096
      → IsFile (rewritten s i contents size) path i
        × (node_at (rewritten s i contents size).nodes i
            ≡ record (node_at s.nodes i) { contents = contents; size = size })
  rewritten-IsFile s path i contents size f small =
      let n : Node = record (node_at s.nodes i) { contents = contents; size = size } in
      let (inside, used) =
        resolve_full_path-used s.nodes s.cwd_idx path f.valid.tree f.valid.here f.leads in
      let w : IsRewritten s.nodes i n = record {
        tree = f.valid.tree;
        inside = inside;
        alike = record { name = refl; type = refl; used = refl; parent = refl };
        bounded = small;
      } in
      let self = node_at-set_self s.nodes i n f.valid.tree inside in
      (
        record {
          valid = record {
            tree = rewritten-IsTree s.nodes i n w;
            here = rewritten-IsDir s.nodes i n w s.cwd_idx f.valid.here;
            in_memory = f.valid.in_memory;
          };
          leads =
              resolve_full_path_kept s.nodes (set s.nodes i n) (rewritten-Extends s.nodes i n w)
                s.cwd_idx path f.valid.here f.leads;
          no_dir = ap (λ x. is_dir x.type) self ∙ f.no_dir;
        },
        self,
      )

  -- An operation on a file that succeeds found a file.
  write_found :
      (s s' : Fs D) (path : Option Text) (source : ℕ → ℕ) (size count : ℕ)
      → IsFs s
      → fs_write path source size s ≡ (ok count, s')
      → (i : ℕ) × IsFile s path i
        × (count ≡ min size 4096)
        × (s' ≡ rewritten s i (copy_at (node_at s.nodes i).contents 0 source count) count)
  unfolding fs_write
  write_found s s' path source size count v e = step (resolve_full_path s.nodes s.cwd_idx path) refl
    where
      step :
          (r : Result ℕ)
          → resolve_full_path s.nodes s.cwd_idx path ≡ r
          → (i : ℕ) × IsFile s path i
            × (count ≡ min size 4096)
            × (s' ≡ rewritten s i (copy_at (node_at s.nodes i).contents 0 source count) count)
      step (err x) q =
          let x : Result ℕ × Fs D = (err not_found, s) in
          let f : x ≡ (ok count, s') = rw (v.in_memory, q, fs_write) at e in cc
      step (ok i) q = elim (Bool-cases (is_dir (node_at s.nodes i).type)) [
        | inl directory ↦
            let x : Result ℕ × Fs D = (err is_a_dir, s) in
            let f : x ≡ (ok count, s') = rw (v.in_memory, q, directory, fs_write) at e in cc
        | inr no_dir ↦
            let most : ℕ = if ltb max_file_size size then max_file_size else size in
            let x : Result ℕ × Fs D =
              (ok most, rewritten s i (copy_at (node_at s.nodes i).contents 0 source most) most) in
            let f : x ≡ (ok count, s') = rw (v.in_memory, q, no_dir, fs_write) at e in
            let counts : most ≡ count = cc f in
            let least : most ≡ min size 4096 = ground arith in
            (
              i,
              record { valid = v; leads = q; no_dir = no_dir },
              sym counts ∙ least,
              sym (ap (λ x. x.1) f)
                  ∙ ap (λ k. rewritten s i (copy_at (node_at s.nodes i).contents 0 source k) k)
                      counts,
            )
      ]

  -- After a write of `size` bytes that succeeds, reading gives the first bytes written, 4096 at most.
  pub fs_read-fs_write :
      (s s' : Fs D) (path : Option Text) (source : ℕ → ℕ) (size count limit : ℕ)
      → IsFs s
      → fs_write path source size s ≡ (ok count, s')
      → IsFs s'
        × (count ≡ min size 4096)
        × (fs_read path limit s' ≡ (ok (bytes_of source 0 (min limit count)), s'))
  fs_read-fs_write s s' path source size count limit v e =
      let (i, f, counts, made) = write_found s s' path source size count v e in
      let old = (node_at s.nodes i).contents in
      let (f', self) =
        rewritten-IsFile s path i (copy_at old 0 source count) count f (omega (arith, counts)) in
      let n : Node = record (node_at s.nodes i) {
        contents = copy_at old 0 source count;
        size = count;
      } in
      let read = read_lem (rewritten s i (copy_at old 0 source count) count) path i limit f' in
      let bytes = bytes_of-copy_at old source 0 count (min limit count) (omega arith) in
      subst
        (λ z.
          IsFs z
          × (count ≡ min size 4096)
          × (fs_read path limit z ≡ (ok (bytes_of source 0 (min limit count)), z)))
        (sym made)
        (
          f'.valid,
          counts,
          read
              ∙ ap
                  (λ m. (
                    ok (bytes_of m.contents 0 (min limit m.size)),
                    rewritten s i (copy_at old 0 source count) count,
                  ))
                  self
              ∙ ap (λ b. (ok b, rewritten s i (copy_at old 0 source count) count)) bytes,
        )

  pub fs_write-IsFs :
      (s s' : Fs D) (path : Option Text) (source : ℕ → ℕ) (size count : ℕ)
      → IsFs s
      → fs_write path source size s ≡ (ok count, s')
      → IsFs s'
  fs_write-IsFs s s' path source size count v e =
      (fs_read-fs_write s s' path source size count 0 v e).0

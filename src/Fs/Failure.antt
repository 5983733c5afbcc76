-- ===== src/Fs/Failure.antt =====
-- An operation of kernel/fs/fs.c that fails in memory changes nothing.
use mex_os.Base.{
  ℕ, ◌≡◌, ◌&&◌, inl, inr, sym, ap, ◌∙◌, false, Option, none, some, List, [], ◌∷◌, if_false, ◌==◌,
  Bool-cases,
}
use mex_os.Text.{Text}
use mex_os.Fs.Node.{
  Node, file, dir, FsError, not_found, is_a_dir, not_a_dir, not_empty, invalid, Result, ok, err,
  DiskFs, Fs, node_at, is_dir, resolve_full_path,
}
use mex_os.Fs.Ops.{
  create_node, with_nodes, fs_create_dir, fs_remove, fs_append, fs_change_dir, has_child,
}
use mex_os.Fs.Disk.{fs_create_file, fs_write}
use mex_os.Fs.Tree.{Result-cases}

module _ {D : Type 0} ⦃disk : DiskFs D⦄ (s s' : Fs D) (x : FsError) where
  -- The outcome of a failure, and that of a success.
  failed : {A : Type 0} (y : FsError) → ◌≡◌ {A = Result A × Fs D} (err y, s) (err x, s') → s' ≡ s
  failed y e = sym (ap (λ p. p.1) e)

  succeeded :
      {A : Type 0} (a : A) (t : Fs D) → ◌≡◌ {A = Result A × Fs D} (ok a, t) (err x, s') → s' ≡ s
  succeeded a t e = let f : ok a ≡ err x = ap (λ p. p.0) e in cc

  nodes_failed : (r : Result (List Node)) → with_nodes r s ≡ (err x, s') → s' ≡ s
  nodes_failed (ok nodes) e = let f = ap (λ p. p.0) e in cc f
  nodes_failed (err y) e = failed y e

  create_file_failed :
      (path : Option Text) → s.disk_enabled ≡ false → fs_create_file path s ≡ (err x, s') → s' ≡ s
  unfolding fs_create_file
  create_file_failed path memory e =
      nodes_failed (create_node file (λ n i. 0) path s.nodes s.cwd_idx)
        (sym (if_false _ _ _ memory) ∙ e)

  create_dir_failed : (path : Option Text) → fs_create_dir path s ≡ (err x, s') → s' ≡ s
  unfolding fs_create_dir
  create_dir_failed path e =
      nodes_failed (create_node dir (λ n. n.contents) path s.nodes s.cwd_idx) e

  write_failed :
      (path : Option Text) (source : ℕ → ℕ) (size : ℕ)
      → s.disk_enabled ≡ false
      → fs_write path source size s ≡ (err x, s')
      → s' ≡ s
  unfolding fs_write
  write_failed path source size memory e =
      let m = sym (if_false _ _ _ memory) ∙ e in
      elim (Result-cases (resolve_full_path s.nodes s.cwd_idx path)) [
        | inr (y, q) ↦ failed not_found (rw q at m)
        | inl (i, q) ↦ elim (Bool-cases (is_dir (node_at s.nodes i).type)) [
          | inl directory ↦ failed is_a_dir (rw (q, directory) at m)
          | inr plain ↦ succeeded _ _ (rw (q, plain) at m)
        ]
      ]

  append_failed :
      (path : Option Text) (source : ℕ → ℕ) (size : ℕ)
      → fs_append path source size s ≡ (err x, s')
      → s' ≡ s
  unfolding fs_append
  append_failed path source size e =
      elim (Result-cases (resolve_full_path s.nodes s.cwd_idx path)) [
        | inr (y, q) ↦ failed not_found (rw (q, fs_append) at e)
        | inl (i, q) ↦ elim (Bool-cases (is_dir (node_at s.nodes i).type)) [
          | inl directory ↦ failed is_a_dir (rw (q, directory, fs_append) at e)
          | inr plain ↦ succeeded _ _ (rw (q, plain, fs_append) at e)
        ]
      ]

  remove_failed : (path : Option Text) → fs_remove path s ≡ (err x, s') → s' ≡ s
  unfolding fs_remove
  remove_failed path e = elim (Result-cases (resolve_full_path s.nodes s.cwd_idx path)) [
    | inr (y, q) ↦ failed not_found (rw (q, fs_remove) at e)
    | inl (i, q) ↦ elim (Bool-cases (i == 0)) [
      | inl top ↦ failed invalid (rw (q, top, fs_remove) at e)
      | inr below ↦ elim (Bool-cases (is_dir (node_at s.nodes i).type && has_child i s.nodes)) [
        | inl filled ↦ failed not_empty (rw (q, below, filled, fs_remove) at e)
        | inr childless ↦ succeeded _ _ (rw (q, below, childless, fs_remove) at e)
      ]
    ]
  ]

  change_dir_failed : (path : Option Text) → fs_change_dir path s ≡ (err x, s') → s' ≡ s
  unfolding fs_change_dir
  change_dir_failed none e = succeeded _ _ e
  change_dir_failed (some []) e = succeeded _ _ e
  change_dir_failed (some (c ∷ p)) e =
      elim (Result-cases (resolve_full_path s.nodes s.cwd_idx (some (c ∷ p)))) [
        | inr (y, q) ↦ failed not_found (rw (q, fs_change_dir) at e)
        | inl (i, q) ↦ elim (Bool-cases (is_dir (node_at s.nodes i).type)) [
          | inl directory ↦ succeeded _ _ (rw (q, directory, fs_change_dir) at e)
          | inr plain ↦ failed not_a_dir (rw (q, plain, fs_change_dir) at e)
        ]
      ]

-- A call that fails with a code, and the state behind it.
module _ {D : Type 0} ⦃disk : DiskFs D⦄ where
  pub data Fails (s s' : Fs D) (x : FsError) : Type 0 where
    create_file : (path : Option Text) → fs_create_file path s ≡ (err x, s') → Fails s s' x
    create_dir : (path : Option Text) → fs_create_dir path s ≡ (err x, s') → Fails s s' x
    remove : (path : Option Text) → fs_remove path s ≡ (err x, s') → Fails s s' x
    write :
        (path : Option Text) (source : ℕ → ℕ) (size : ℕ)
        → fs_write path source size s ≡ (err x, s')
        → Fails s s' x
    append :
        (path : Option Text) (source : ℕ → ℕ) (size : ℕ)
        → fs_append path source size s ≡ (err x, s')
        → Fails s s' x
    change_dir : (path : Option Text) → fs_change_dir path s ≡ (err x, s') → Fails s s' x

  -- While the disk is not enabled, a call that fails leaves the file system as it was.
  pub fails-unchanged : (s s' : Fs D) (x : FsError) → s.disk_enabled ≡ false → Fails s s' x → s' ≡ s
  fails-unchanged s s' x memory (create_file path e) = create_file_failed s s' x path memory e
  fails-unchanged s s' x memory (create_dir path e) = create_dir_failed s s' x path e
  fails-unchanged s s' x memory (remove path e) = remove_failed s s' x path e
  fails-unchanged s s' x memory (write path source size e) =
      write_failed s s' x path source size memory e
  fails-unchanged s s' x memory (append path source size e) =
      append_failed s s' x path source size e
  fails-unchanged s s' x memory (change_dir path e) = change_dir_failed s s' x path e

-- ===== src/Fs/Steps.antt =====
-- Runs of the operations of kernel/fs/fs.c on the file system in memory.
use mex_os.Base.{
  ℕ, zero, suc, ◌-◌, ◌<◌, ◌≤◌, ◌≡◌, ◌≢◌, ◌^◌, inl, inr, refl, sym, ap, ◌∙◌, subst, true, false,
  Option, none, some, List, [], ◌∷◌, if◌then◌else◌, ◌==◌, get_or, set, replicate, length,
  get_or-set_ne, arith, Bool-cases, ℕ_discrete,
}
use mex_os.Text.{Text}
use mex_os.Fs.Node.{
  Node, FsError, not_found, not_a_dir, Result, ok, err, DiskFs, Fs, max_files, root_path,
  max_path_depth, blank_node, node_at, is_dir, resolve_full_path,
}
use mex_os.Fs.Ops.{
  root_node, path_to, fs_init, fs_create_dir, fs_remove, fs_append, fs_change_dir, fs_clear_cache,
}
use mex_os.Fs.Disk.{fs_create_file, fs_write}
use mex_os.Fs.Rooted.{Rooted, at_root}
use mex_os.Fs.Tree.{IsDir, IsTree, Result-cases}
use mex_os.Fs.Created.{fs_create_file-IsFs, fs_create_dir-IsFs}
use mex_os.Fs.Append.{fs_append-adds}
use mex_os.Fs.Failure.{create_file, create_dir, remove, write, append, change_dir, fails-unchanged}
use mex_os.Fs.Remove.{fs_remove-removes}
use mex_os.Fs.Files.{IsFs}
use mex_os.Fs.Lookup.{resolve_full_path-used}
use mex_os.Fs.Contents.{fs_write-IsFs}

-- The table with the root only, after `fs_init` or `fs_clear_cache`.
record IsBare (nodes : List Node) : Type 0 where
  table : length nodes ≡ max_files
  root : IsDir nodes 0
  root_parent : (node_at nodes 0).parent_idx ≡ 0
  root_size : (node_at nodes 0).size ≤ 4096
  others : (k : ℕ) → 0 ≢ k → node_at nodes k ≡ blank_node

bare-IsTree : (nodes : List Node) → IsBare nodes → IsTree nodes
bare-IsTree nodes b =
    let only : (k : ℕ) → (node_at nodes k).used ≡ true → 0 ≡ k = λ k used. elim (ℕ_discrete 0 k) [
      | yes same ↦ same
      | no apart ↦ let f : false ≡ true = sym (ap (λ n. n.used) (b.others k apart)) ∙ used in cc
    ] in
    record {
      table = b.table;
      root = b.root;
      root_parent = b.root_parent;
      parents = λ k used.
          subst (λ j. IsDir nodes (node_at nodes j).parent_idx) (only k used)
            (subst (IsDir nodes) (sym b.root_parent) b.root);
      rooted = λ k used. subst (Rooted nodes) (only k used) at_root;
      sizes = λ k. elim (ℕ_discrete 0 k) [
        | yes same ↦ subst (λ j. (node_at nodes j).size ≤ 4096) same b.root_size
        | no apart ↦ omega (arith, ap (λ n. n.size) (b.others k apart))
      ];
      distinct = λ i j ui uj p name. sym (only i ui) ∙ only j uj;
    }

blank_rest : (n k : ℕ) → get_or (replicate n blank_node) k blank_node ≡ blank_node
blank_rest zero k = refl
blank_rest (suc n) zero = refl
blank_rest (suc n) (suc k) = blank_rest n k

module _ {D : Type 0} ⦃disk : DiskFs D⦄ where
  pub fs_init-IsFs : (d : D) → IsFs (fs_init d)
  unfolding fs_init
  fs_init-IsFs d =
      let nodes = set (replicate max_files blank_node) 0 root_node in
      let b : IsBare nodes = record {
        table = refl;
        root = record { inside = omega arith; used = refl; directory = refl };
        root_parent = refl;
        root_size = omega arith;
        others = λ k apart.
            get_or-set_ne (replicate max_files blank_node) 0 k root_node blank_node apart
            ∙ blank_rest max_files k;
      } in
      record { tree = bare-IsTree nodes b; here = b.root; in_memory = refl }

  clear_cache-IsFs : (s : Fs D) → IsFs s → IsFs (fs_clear_cache s)
  unfolding fs_clear_cache
  clear_cache-IsFs s v =
      let nodes = node_at s.nodes 0 ∷ replicate (max_files - 1) blank_node in
      let b : IsBare nodes = record {
        table = refl;
        root = record {
          inside = omega arith;
          used = v.tree.root.used;
          directory = v.tree.root.directory;
        };
        root_parent = v.tree.root_parent;
        root_size = v.tree.sizes 0;
        others = λ k apart. rest k apart;
      } in
      record { tree = bare-IsTree nodes b; here = b.root; in_memory = v.in_memory }
    where
      rest :
          (k : ℕ)
          → 0 ≢ k
          → node_at (node_at s.nodes 0 ∷ replicate (max_files - 1) blank_node) k ≡ blank_node
      rest zero apart = elim (apart refl) [ ]
      rest (suc k) apart = blank_rest (max_files - 1) k

  -- What a call leaves, when its successes keep the file system and its failures change nothing.
  outcome-IsFs :
      {A : Type 0} (s : Fs D) (p : Result A × Fs D)
      → IsFs s
      → ((a : A) (s' : Fs D) → p ≡ (ok a, s') → IsFs s')
      → ((x : FsError) (s' : Fs D) → p ≡ (err x, s') → s' ≡ s)
      → IsFs p.1
  outcome-IsFs s (ok a, t) v good bad = good a t refl
  outcome-IsFs s (err x, t) v good bad = subst IsFs (sym (bad x t refl)) v

  change_dir-IsFs :
      (s s' : Fs D) (path : Option Text) → IsFs s → fs_change_dir path s ≡ (ok tt, s') → IsFs s'
  unfolding fs_change_dir
  change_dir-IsFs s s' none v e =
      subst IsFs (ap (λ p. p.1) e)
        (record { tree = v.tree; here = v.tree.root; in_memory = v.in_memory })
  change_dir-IsFs s s' (some []) v e =
      subst IsFs (ap (λ p. p.1) e)
        (record { tree = v.tree; here = v.tree.root; in_memory = v.in_memory })
  change_dir-IsFs s s' (some (c ∷ p)) v e =
      elim (Result-cases (resolve_full_path s.nodes s.cwd_idx (some (c ∷ p)))) [
        | inr (y, q) ↦
            let x : Result Unit × Fs D = (err not_found, s) in
            let f : x ≡ (ok tt, s') = rw (q, fs_change_dir) at e in cc
        | inl (i, q) ↦ elim (Bool-cases (is_dir (node_at s.nodes i).type)) [
          | inr plain ↦
              let x : Result Unit × Fs D = (err not_a_dir, s) in
              let f : x ≡ (ok tt, s') = rw (q, plain, fs_change_dir) at e in cc
          | inl directory ↦
              let t : Fs D = record s {
                cwd_idx = i;
                cwd = if i == 0 then root_path else path_to max_path_depth i s.nodes;
              } in
              let x : Result Unit × Fs D = (ok tt, t) in
              let f : x ≡ (ok tt, s') = rw (q, directory, fs_change_dir) at e in
              let (inside, used) =
                resolve_full_path-used s.nodes s.cwd_idx (some (c ∷ p)) v.tree v.here q in
              let valid : IsFs t = record {
                tree = v.tree;
                here = record { inside = inside; used = used; directory = directory };
                in_memory = v.in_memory;
              } in
              subst IsFs (ap (λ p. p.1) f) valid
        ]
      ]

  -- The operations that change the state; `fs_remove` for a node that is not the working directory.
  pub data Step (s : Fs D) : Fs D → Type 0 where
    creates_file : (path : Option Text) → Step s (fs_create_file path s).1
    creates_dir : (path : Option Text) → Step s (fs_create_dir path s).1
    writes :
        (path : Option Text) (source : ℕ → ℕ) (size : ℕ) → Step s (fs_write path source size s).1
    appends :
        (path : Option Text) (source : ℕ → ℕ) (size : ℕ)
        → size < 2 ^ 32
        → Step s (fs_append path source size s).1
    removes :
        (path : Option Text)
        → resolve_full_path s.nodes s.cwd_idx path ≢ ok s.cwd_idx
        → Step s (fs_remove path s).1
    changes_dir : (path : Option Text) → Step s (fs_change_dir path s).1
    clears_cache : Step s (fs_clear_cache s)

  pub data Reach (s : Fs D) : Fs D → Type 0 where
    here : Reach s s
    next : {t u : Fs D} → Reach s t → Step t u → Reach s u

  step-IsFs : {s t : Fs D} → Step s t → IsFs s → IsFs t
  step-IsFs {s} (creates_file path) v =
      outcome-IsFs s (fs_create_file path s) v (λ a s' e. fs_create_file-IsFs s s' path v e)
        (λ x s' e. fails-unchanged s s' x v.in_memory (create_file path e))
  step-IsFs {s} (creates_dir path) v =
      outcome-IsFs s (fs_create_dir path s) v (λ a s' e. fs_create_dir-IsFs s s' path v e)
        (λ x s' e. fails-unchanged s s' x v.in_memory (create_dir path e))
  step-IsFs {s} (writes path source size) v =
      outcome-IsFs s (fs_write path source size s) v
        (λ a s' e. fs_write-IsFs s s' path source size a v e)
        (λ x s' e. fails-unchanged s s' x v.in_memory (write path source size e))
  step-IsFs {s} (appends path source size word) v =
      outcome-IsFs s (fs_append path source size s) v
        (λ a s' e. (fs_append-adds s s' path source size a v word e).4)
        (λ x s' e. fails-unchanged s s' x v.in_memory (append path source size e))
  step-IsFs {s} (removes path apart) v =
      outcome-IsFs s (fs_remove path s) v (λ a s' e. (fs_remove-removes s s' path v apart e).0)
        (λ x s' e. fails-unchanged s s' x v.in_memory (remove path e))
  step-IsFs {s} (changes_dir path) v =
      outcome-IsFs s (fs_change_dir path s) v (λ a s' e. change_dir-IsFs s s' path v e)
        (λ x s' e. fails-unchanged s s' x v.in_memory (change_dir path e))
  step-IsFs {s} clears_cache v = clear_cache-IsFs s v

  -- From `fs_init`, whatever operations in memory run that do not remove the working directory, the
  -- parents of every used node are used directories and lead to the root at index 0, no two used
  -- nodes of one directory have one name, sizes are at most 4096, and the working directory is a
  -- used directory.
  pub reachable-IsFs : (d : D) (s : Fs D) → Reach (fs_init d) s → IsFs s
  reachable-IsFs d s here = fs_init-IsFs d
  reachable-IsFs d s (next {t} r step) = step-IsFs step (reachable-IsFs d t r)

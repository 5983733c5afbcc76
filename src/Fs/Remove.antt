-- ===== src/Fs/Remove.antt =====
-- `fs_remove` of kernel/fs/fs.c takes one node out of the tree.
use mex_os.Base.{
  ℕ, ◌<◌, ◌≡◌, ◌≢◌, inl, inr, refl, sym, ap, ◌∙◌, subst, true, false, ◌&&◌, Option, List, ◌==◌, set,
  length-set, arith, Bool-cases, Option-cases, ℕ_discrete,
}
use mex_os.Text.{Text, same_text}
use mex_os.Fs.Node.{
  Node, not_found, not_empty, invalid, Result, ok, err, Fs, max_files, blank_node, node_at, is_dir,
  is_child, find_index, resolve_full_path,
}
use mex_os.Fs.Ops.{has_child, fs_remove, fs_exists}
use mex_os.Fs.Rooted.{Rooted, at_root, from_parent}
use mex_os.Fs.Tree.{IsDir, IsTree, find_index-none, Result-cases}
use mex_os.Fs.Create.{node_at-set_self, node_at-set_ne, IsDir-set_ne, used_inside}
use mex_os.Fs.Lookup.{IsAlike-of_eq, Extends, resolve_full_path_kept, resolve_full_path-used}
use mex_os.Fs.Files.{IsFs}

-- A node that may be removed: not the root, and not a directory with nodes in it.
record IsRemovable (nodes : List Node) (i : ℕ) : Type 0 where
  tree : IsTree nodes
  inside : i < max_files
  below_root : 0 ≢ i
  childless : (is_dir (node_at nodes i).type && has_child i nodes) ≡ false

module _ (nodes : List Node) (i : ℕ) (r : IsRemovable nodes i) where
  abbrev left : List Node
  left = set nodes i blank_node

  gone : node_at left i ≡ blank_node
  gone = node_at-set_self nodes i blank_node r.tree r.inside

  other_node : (k : ℕ) → i ≢ k → node_at left k ≡ node_at nodes k
  other_node = node_at-set_ne nodes i blank_node r.tree r.inside

  -- What is used after the removal is another node.
  left_apart : (k : ℕ) → (node_at left k).used ≡ true → i ≢ k
  left_apart k used e =
      let f : false ≡ true =
        sym (ap (λ n. n.used) gone) ∙ ap (λ j. (node_at left j).used) e ∙ used in
      cc

  -- No used node is in the one removed.
  no_child : (k : ℕ) → (node_at nodes k).used ≡ true → i ≢ (node_at nodes k).parent_idx
  no_child k used e = elim (Option-cases (find_index (is_child i) 0 nodes)) [
    | inl missing ↦
        let miss =
          find_index-none (is_child i) 0 nodes k missing
            (omega (arith, used_inside nodes k r.tree.table used, r.tree.table)) in
        let f : true ≡ false = ground (arith, miss, used, e) in cc
    | inr (j, found) ↦
        let parent = r.tree.parents k used in
        let directory : is_dir (node_at nodes i).type ≡ true =
          subst (λ x. is_dir (node_at nodes x).type ≡ true) (sym e) parent.directory in
        let filled : has_child i nodes ≡ true = rw (found, has_child) refl in
        let f : true ≡ false = rw (directory, filled) at r.childless in cc
  ]

  -- The way of another node to the root does not pass the one removed.
  left-Rooted : {k : ℕ} → (node_at nodes k).used ≡ true → i ≢ k → Rooted nodes k → Rooted left k
  left-Rooted u apart at_root = at_root
  left-Rooted u apart (from_parent k used w) =
      let same = other_node k apart in
      from_parent k (ap (λ n. n.used) same ∙ used) (
        subst (Rooted left) (sym (ap (λ n. n.parent_idx) same))
          (left-Rooted (r.tree.parents k used).used (no_child k used) w))

  left-IsTree : IsTree left
  left-IsTree =
      let t = r.tree in
      record {
        table = length-set nodes i blank_node ∙ t.table;
        root = IsDir-set_ne nodes i blank_node t r.inside 0 (λ e. r.below_root (sym e)) t.root;
        root_parent =
            ap (λ n. n.parent_idx) (other_node 0 (λ e. r.below_root (sym e))) ∙ t.root_parent;
        parents = λ k used.
            (let same = other_node k (left_apart k used) in
              let used' = sym (ap (λ n. n.used) same) ∙ used in
              subst (IsDir left) (sym (ap (λ n. n.parent_idx) same)) (
                IsDir-set_ne nodes i blank_node t r.inside (node_at nodes k).parent_idx
                  (no_child k used') (t.parents k used')));
        rooted = λ k used.
            (let apart = left_apart k used in
              let used' = sym (ap (λ n. n.used) (other_node k apart)) ∙ used in
              left-Rooted used' apart (t.rooted k used'));
        sizes = λ k. elim (ℕ_discrete i k) [
          | yes ik ↦
              omega (arith, ap (λ n. n.size) (subst (λ x. node_at left x ≡ blank_node) ik gone))
          | no ik ↦ omega (arith, ap (λ n. n.size) (other_node k ik), t.sizes k)
        ];
        distinct = λ j k uj uk p name.
            (let at_j = other_node j (left_apart j uj) in
              let at_k = other_node k (left_apart k uk) in
              t.distinct j k (sym (ap (λ n. n.used) at_j) ∙ uj) (sym (ap (λ n. n.used) at_k) ∙ uk)
                (sym (ap (λ n. n.parent_idx) at_j) ∙ p ∙ ap (λ n. n.parent_idx) at_k)
                (subst (λ x. same_text x.name (node_at nodes k).name ≡ true) at_j
                  (subst (λ x. same_text (node_at left j).name x.name ≡ true) at_k name)));
      }

  -- The nodes before are those after and one more.
  left-Extends : Extends left nodes
  left-Extends = record {
    before = left-IsTree;
    after = r.tree;
    kept = λ k used. IsAlike-of_eq _ _ (sym (other_node k (left_apart k used)));
  }

ok_inj : {a b : ℕ} → ok a ≡ ok b → a ≡ b
ok_inj e = ground (arith, e)

module _ {D : Type 0} where
  -- A removal that succeeds found a node that may be removed.
  remove_found :
      (s s' : Fs D) (path : Option Text)
      → IsFs s
      → fs_remove path s ≡ (ok tt, s')
      → (i : ℕ) × (resolve_full_path s.nodes s.cwd_idx path ≡ ok i)
        × IsRemovable s.nodes i
        × (s' ≡ record s { nodes = set s.nodes i blank_node })
  unfolding fs_remove
  remove_found s s' path v e = step (resolve_full_path s.nodes s.cwd_idx path) refl
    where
      step :
          (r : Result ℕ)
          → resolve_full_path s.nodes s.cwd_idx path ≡ r
          → (i : ℕ) × (resolve_full_path s.nodes s.cwd_idx path ≡ ok i)
            × IsRemovable s.nodes i
            × (s' ≡ record s { nodes = set s.nodes i blank_node })
      step (err x) q =
          let x : Result Unit × Fs D = (err not_found, s) in
          let f : x ≡ (ok tt, s') = rw (q, fs_remove) at e in cc
      step (ok i) q = elim (Bool-cases (i == 0)) [
        | inl top ↦
            let x : Result Unit × Fs D = (err invalid, s) in
            let f : x ≡ (ok tt, s') = rw (q, top, fs_remove) at e in cc
        | inr lower ↦ elim (Bool-cases (is_dir (node_at s.nodes i).type && has_child i s.nodes)) [
          | inl filled ↦
              let x : Result Unit × Fs D = (err not_empty, s) in
              let f : x ≡ (ok tt, s') = rw (q, lower, filled, fs_remove) at e in cc
          | inr childless ↦
              let x : Result Unit × Fs D = (ok tt, record s { nodes = set s.nodes i blank_node }) in
              let f : x ≡ (ok tt, s') = rw (q, lower, childless, fs_remove) at e in
              let (inside, used) = resolve_full_path-used s.nodes s.cwd_idx path v.tree v.here q in
              (
                i,
                q,
                record {
                  tree = v.tree;
                  inside = inside;
                  below_root = λ z. (let g : false ≡ true = ground (arith, lower, z) in cc);
                  childless = childless;
                },
                sym (ap (λ x. x.1) f),
              )
        ]
      ]

  -- Removing a node other than the working directory keeps the tree, the path leads nowhere
  -- afterwards, and a path that leads somewhere afterwards led to the same node before.
  pub fs_remove-removes :
      (s s' : Fs D) (path : Option Text)
      → IsFs s
      → resolve_full_path s.nodes s.cwd_idx path ≢ ok s.cwd_idx
      → fs_remove path s ≡ (ok tt, s')
      → IsFs s'
        × (fs_exists path s' ≡ false)
        × ((other : Option Text) (i : ℕ)
            → resolve_full_path s'.nodes s'.cwd_idx other ≡ ok i
            → (resolve_full_path s.nodes s.cwd_idx other ≡ ok i)
              × (node_at s'.nodes i ≡ node_at s.nodes i))
  unfolding fs_exists
  fs_remove-removes s s' path v apart e =
      let (i, leads, r, made) = remove_found s s' path v e in
      let nodes = set s.nodes i blank_node in
      let not_here : i ≢ s.cwd_idx = λ same. apart (leads ∙ ap ok same) in
      let here = IsDir-set_ne s.nodes i blank_node v.tree r.inside s.cwd_idx not_here v.here in
      let before : (other : Option Text) (k : ℕ)
          → resolve_full_path nodes s.cwd_idx other ≡ ok k
          → resolve_full_path s.nodes s.cwd_idx other ≡ ok k =
        λ other k.
          resolve_full_path_kept nodes s.nodes (left-Extends s.nodes i r) s.cwd_idx other here in
      let alike : (other : Option Text) (k : ℕ)
          → resolve_full_path nodes s.cwd_idx other ≡ ok k
          → i ≢ k =
        λ other k q.
          left_apart s.nodes i r k
            (resolve_full_path-used nodes s.cwd_idx other (left-IsTree s.nodes i r) here q).1 in
      let absent : fs_exists path (record s { nodes = nodes }) ≡ false =
        elim (Result-cases (resolve_full_path nodes s.cwd_idx path)) [
          | inl (k, q) ↦
              let same : ok k ≡ ok i = sym (before path k q) ∙ leads in
              absurd (alike path k q (sym (ok_inj same)))
          | inr (x, q) ↦ rw (q, fs_exists) refl
        ] in
      subst
        (λ z.
          IsFs z
          × (fs_exists path z ≡ false)
          × ((other : Option Text) (i : ℕ)
              → resolve_full_path z.nodes z.cwd_idx other ≡ ok i
              → (resolve_full_path s.nodes s.cwd_idx other ≡ ok i)
                × (node_at z.nodes i ≡ node_at s.nodes i)))
        (sym made)
        (
          record { tree = left-IsTree s.nodes i r; here = here; in_memory = v.in_memory },
          absent,
          λ other k q. (before other k q, other_node s.nodes i r k (alike other k q)),
        )

  -- On a tree in memory, removing the working directory succeeds if it is not the root and has
  -- nothing in it, and leaves `cwd_idx` at a node that is not in use.
  pub fs_remove-cwd :
      (s : Fs D) (path : Option Text)
      → IsFs s
      → resolve_full_path s.nodes s.cwd_idx path ≡ ok s.cwd_idx
      → s.cwd_idx ≢ 0
      → has_child s.cwd_idx s.nodes ≡ false
      → ((fs_remove path s).0 ≡ ok tt)
        × ((fs_remove path s).1.cwd_idx ≡ s.cwd_idx)
        × ((node_at (fs_remove path s).1.nodes s.cwd_idx).used ≡ false)
  unfolding fs_remove
  fs_remove-cwd s path v at_cwd below_root empty =
      let lower : (s.cwd_idx == 0) ≡ false = ground (arith, below_root) in
      let childless : (is_dir (node_at s.nodes s.cwd_idx).type && has_child s.cwd_idx s.nodes)
          ≡ false =
        ground (arith, empty) in
      let unused : (node_at (set s.nodes s.cwd_idx blank_node) s.cwd_idx).used ≡ false =
        ap (λ n. n.used) (node_at-set_self s.nodes s.cwd_idx blank_node v.tree v.here.inside) in
      let made : fs_remove path s ≡ (ok tt, record s { nodes = set s.nodes s.cwd_idx blank_node }) =
        rw (at_cwd, lower, childless, fs_remove) refl in
      (
        ap (λ x. x.0) made,
        ap (λ x. x.1.cwd_idx) made,
        ap (λ x. (node_at x.1.nodes s.cwd_idx).used) made ∙ unused,
      )

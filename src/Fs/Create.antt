-- ===== src/Fs/Create.antt =====
-- `fs_create_file`, `fs_create_dir` and `fs_remove` of kernel/fs/fs.c keep the tree.
use mex_os.Base.{
  ℕ, ◌-◌, ◌<◌, ◌≡◌, ◌≢◌, inl, inr, refl, sym, ap, ◌∙◌, subst, true, false, Option, none, some, List,
  [], ◌∷◌, set, length, length-set, get_or-set_self, get_or-set_ne, arith, Option-cases, ℕ_discrete,
  dec_lt, get_or-past,
}
use mex_os.Text.{Text, same_text, same_text_refl, same_text_sound}
use mex_os.Fs.Node.{
  NodeType, Node, Result, ok, err, max_files, blank_node, node_at, is_dir, is_unused, is_named,
  find_free_node, find_node_in_dir, resolve_path, invalid, full, exists_already,
}
use mex_os.Fs.Ops.{new_node, create_node}
use mex_os.Fs.Rooted.{Rooted, from_parent, Rooted-kept}
use mex_os.Fs.Tree.{
  IsDir, IsTree, IsNamed, find_index-some, find_index-none, resolve_path-IsResolved,
}

module _ (nodes : List Node) (i : ℕ) (n : Node) (t : IsTree nodes) (inside : i < max_files) where
  pub node_at-set_self : node_at (set nodes i n) i ≡ n
  node_at-set_self = get_or-set_self nodes i n blank_node (omega (arith, t.table))

  pub node_at-set_ne : (k : ℕ) → i ≢ k → node_at (set nodes i n) k ≡ node_at nodes k
  node_at-set_ne k apart = get_or-set_ne nodes i k n blank_node apart

  -- A directory stays one when another node changes.
  pub IsDir-set_ne : (k : ℕ) → i ≢ k → IsDir nodes k → IsDir (set nodes i n) k
  IsDir-set_ne k apart d =
      let e = node_at-set_ne k apart in
      record {
        inside = d.inside;
        used = ap (λ x. x.used) e ∙ d.used;
        directory = ap (λ x. is_dir x.type) e ∙ d.directory;
      }

-- The new node of `create_node`, in a free slot.
record IsCreated (nodes : List Node) (i parent : ℕ) (n : Node) : Type 0 where
  tree : IsTree nodes
  inside : i < max_files
  free : (node_at nodes i).used ≡ false
  used : n.used ≡ true
  parent_is : n.parent_idx ≡ parent
  directory : IsDir nodes parent
  empty : n.size ≡ 0
  fresh : (k : ℕ) → k < max_files → is_named parent n.name (node_at nodes k) ≡ false

-- A used node is in the table.
pub used_inside :
    (nodes : List Node) (k : ℕ)
    → length nodes ≡ max_files
    → (node_at nodes k).used ≡ true
    → k < max_files
used_inside nodes k table used = elim (dec_lt k max_files) [
  | yes inside ↦ inside
  | no past ↦
      let blank : node_at nodes k ≡ blank_node =
        get_or-past nodes k blank_node (omega (arith, table, past)) in
      let f : false ≡ true = sym (ap (λ x. x.used) blank) ∙ used in cc
]

same_text_sym : (s t : Text) → same_text s t ≡ true → same_text t s ≡ true
same_text_sym s t e = subst (λ x. same_text x s ≡ true) (same_text_sound s t e) (same_text_refl s)

module _ (nodes : List Node) (i parent : ℕ) (n : Node) (c : IsCreated nodes i parent n) where
  abbrev made : List Node
  made = set nodes i n

  self_lem : node_at made i ≡ n
  self_lem = node_at-set_self nodes i n c.tree c.inside

  other_lem : (k : ℕ) → i ≢ k → node_at made k ≡ node_at nodes k
  other_lem = node_at-set_ne nodes i n c.tree c.inside

  -- A used node was not the free one.
  used_apart : (k : ℕ) → (node_at nodes k).used ≡ true → i ≢ k
  used_apart k used e =
      let f : false ≡ true = sym c.free ∙ ap (λ j. (node_at nodes j).used) e ∙ used in cc

  dir_lem : (k : ℕ) → IsDir nodes k → IsDir made k
  dir_lem k d = IsDir-set_ne nodes i n c.tree c.inside k (used_apart k d.used) d

  -- No other node of the directory has the name of the new one.
  new_name :
      (k : ℕ)
      → (node_at nodes k).used ≡ true
      → n.parent_idx ≡ (node_at nodes k).parent_idx
      → same_text n.name (node_at nodes k).name ≡ true
      → ⊥
  new_name k used p name =
      let inside = used_inside nodes k c.tree.table used in
      let named = same_text_sym n.name (node_at nodes k).name name in
      let there : (node_at nodes k).parent_idx ≡ parent = sym p ∙ c.parent_is in
      let miss = c.fresh k inside in ground (arith, used, named, there, miss)

  created-distinct :
      (j k : ℕ)
      → (node_at made j).used ≡ true
      → (node_at made k).used ≡ true
      → (node_at made j).parent_idx ≡ (node_at made k).parent_idx
      → same_text (node_at made j).name (node_at made k).name ≡ true
      → j ≡ k
  created-distinct j k uj uk p name = elim (ℕ_discrete i j) [
    | yes ij ↦ elim (ℕ_discrete i k) [
      | yes ik ↦ sym ij ∙ ik
      | no ik ↦
          let at_j : node_at made j ≡ n = subst (λ x. node_at made x ≡ n) ij self_lem in
          let at_k = other_lem k ik in
          absurd (
            new_name k (sym (ap (λ x. x.used) at_k) ∙ uk)
              (sym (ap (λ x. x.parent_idx) at_j) ∙ p ∙ ap (λ x. x.parent_idx) at_k)
              (subst (λ x. same_text x.name (node_at nodes k).name ≡ true) at_j
                (subst (λ x. same_text (node_at made j).name x.name ≡ true) at_k name)))
    ]
    | no ij ↦ elim (ℕ_discrete i k) [
      | yes ik ↦
          let at_k : node_at made k ≡ n = subst (λ x. node_at made x ≡ n) ik self_lem in
          let at_j = other_lem j ij in
          absurd (
            new_name j (sym (ap (λ x. x.used) at_j) ∙ uj)
              (sym (ap (λ x. x.parent_idx) at_k) ∙ sym p ∙ ap (λ x. x.parent_idx) at_j)
              (same_text_sym (node_at nodes j).name n.name (
                subst (λ x. same_text x.name n.name ≡ true) at_j
                  (subst (λ x. same_text (node_at made j).name x.name ≡ true) at_k name))))
      | no ik ↦
          let at_j = other_lem j ij in
          let at_k = other_lem k ik in
          c.tree.distinct j k (sym (ap (λ x. x.used) at_j) ∙ uj) (sym (ap (λ x. x.used) at_k) ∙ uk)
            (sym (ap (λ x. x.parent_idx) at_j) ∙ p ∙ ap (λ x. x.parent_idx) at_k)
            (subst (λ x. same_text x.name (node_at nodes k).name ≡ true) at_j
              (subst (λ x. same_text (node_at made j).name x.name ≡ true) at_k name))
    ]
  ]

  created_kept : {k : ℕ} → Rooted nodes k → Rooted made k
  created_kept = Rooted-kept nodes made (λ k used.
      let e = other_lem k (used_apart k used) in
      (ap (λ x. x.used) e ∙ used, ap (λ x. x.parent_idx) e))

  -- The parents of the new node lead to the root through its directory.
  created-Rooted : (k : ℕ) → (node_at made k).used ≡ true → Rooted made k
  created-Rooted k used = elim (ℕ_discrete i k) [
    | yes ik ↦
        let at_k : node_at made k ≡ n = subst (λ x. node_at made x ≡ n) ik self_lem in
        from_parent k used (
          subst (Rooted made) (sym (ap (λ x. x.parent_idx) at_k ∙ c.parent_is))
            (created_kept (c.tree.rooted parent c.directory.used)))
    | no ik ↦ created_kept (c.tree.rooted k (sym (ap (λ x. x.used) (other_lem k ik)) ∙ used))
  ]

  created-IsTree : IsTree made
  created-IsTree =
      let t = c.tree in
      record {
        table = length-set nodes i n ∙ t.table;
        root = dir_lem 0 t.root;
        root_parent =
            ap (λ x. x.parent_idx) (other_lem 0 (used_apart 0 t.root.used)) ∙ t.root_parent;
        parents = λ k used. elim (ℕ_discrete i k) [
          | yes ik ↦
              let at_k : node_at made k ≡ n = subst (λ x. node_at made x ≡ n) ik self_lem in
              subst (IsDir made) (sym (ap (λ x. x.parent_idx) at_k ∙ c.parent_is))
                (dir_lem parent c.directory)
          | no ik ↦
              let at_k = other_lem k ik in
              subst (IsDir made) (sym (ap (λ x. x.parent_idx) at_k)) (
                dir_lem (node_at nodes k).parent_idx
                  (t.parents k (sym (ap (λ x. x.used) at_k) ∙ used)))
        ];
        rooted = created-Rooted;
        sizes = λ k. elim (ℕ_discrete i k) [
          | yes ik ↦
              let at_k : node_at made k ≡ n = subst (λ x. node_at made x ≡ n) ik self_lem in
              omega (arith, ap (λ x. x.size) at_k, c.empty)
          | no ik ↦ omega (arith, ap (λ x. x.size) (other_lem k ik), t.sizes k)
        ];
        distinct = created-distinct;
      }

-- What creating does when it succeeds.
pub record Creates (type : NodeType) (path : Option Text) (nodes : List Node) (cwd_idx : ℕ)
    (nodes' : List Node) : Type 0 where
  pub tree : IsTree nodes'
  pub parent : ℕ
  pub name : Text
  pub index : ℕ
  pub resolved : resolve_path nodes cwd_idx path ≡ ok (parent, name)
  pub missing : find_node_in_dir parent name nodes ≡ none
  pub named : IsNamed nodes' parent name index
  pub type_is : (node_at nodes' index).type ≡ type
  pub empty : (node_at nodes' index).size ≡ 0
  pub was_free : (node_at nodes index).used ≡ false
  pub others : (k : ℕ) → index ≢ k → node_at nodes' k ≡ node_at nodes k

creates_lem :
    (type : NodeType) (data_of : Node → ℕ → ℕ) (path : Option Text) (nodes : List Node)
    (cwd_idx parent i : ℕ) (c : ℕ) (name : Text)
    → IsTree nodes
    → IsDir nodes cwd_idx
    → resolve_path nodes cwd_idx path ≡ ok (parent, c ∷ name)
    → find_node_in_dir parent (c ∷ name) nodes ≡ none
    → find_free_node nodes ≡ some i
    → Creates type path nodes cwd_idx
        (set nodes i (new_node type (c ∷ name) parent (data_of (node_at nodes i))))
unfolding find_free_node find_node_in_dir
creates_lem type data_of path nodes cwd_idx parent i c name t d e missing free =
    let r = resolve_path-IsResolved nodes cwd_idx path t d e in
    let n : Node = new_node type (c ∷ name) parent (data_of (node_at nodes i)) in
    let (_, lower, unused) = find_index-some is_unused 0 nodes free in
    let at : i - 0 ≡ i = omega arith in
    let unused_i : is_unused (node_at nodes i) ≡ true =
      subst (λ k. is_unused (node_at nodes k) ≡ true) at unused in
    let made : IsCreated nodes i parent n = record {
      tree = t;
      inside = omega (arith, lower, t.table);
      free = ground (arith, unused_i);
      used = refl;
      parent_is = refl;
      directory = r.directory;
      empty = refl;
      fresh = λ k b.
          (let miss =
              find_index-none (is_named parent (c ∷ name)) 0 nodes k missing
                (omega (arith, b, t.table)) in
            subst (λ x. is_named parent x (node_at nodes k) ≡ false) (sym r.short) miss);
    } in
    let self = self_lem nodes i parent n made in
    record {
      tree = created-IsTree nodes i parent n made;
      parent = parent;
      name = c ∷ name;
      index = i;
      resolved = e;
      missing = missing;
      named = record {
        inside = omega (arith, lower, length-set nodes i n);
        used = ap (λ x. x.used) self;
        parent = ap (λ x. x.parent_idx) self;
        name_is =
            subst (λ x. same_text x (c ∷ name) ≡ true) (sym (ap (λ x. x.name) self ∙ r.short))
              (same_text_refl (c ∷ name));
      };
      type_is = ap (λ x. x.type) self;
      empty = ap (λ x. x.size) self;
      was_free = made.free;
      others = other_lem nodes i parent n made;
    }

-- A creation that succeeds keeps the tree and adds one empty node, where the path says.
pub create_node-Creates :
    (type : NodeType) (data_of : Node → ℕ → ℕ) (path : Option Text) (nodes : List Node)
    (cwd_idx : ℕ) {nodes' : List Node}
    → IsTree nodes
    → IsDir nodes cwd_idx
    → create_node type data_of path nodes cwd_idx ≡ ok nodes'
    → Creates type path nodes cwd_idx nodes'
unfolding create_node
create_node-Creates type data_of path nodes cwd_idx {nodes'} t d e =
    step (resolve_path nodes cwd_idx path) refl
  where
    step :
        (r : Result (ℕ × Text))
        → resolve_path nodes cwd_idx path ≡ r
        → Creates type path nodes cwd_idx nodes'
    step (err x) q = let f : err x ≡ ok nodes' = rw (q, create_node) at e in cc
    step (ok (parent, [])) q = let f : err invalid ≡ ok nodes' = rw (q, create_node) at e in cc
    step (ok (parent, c ∷ name)) q =
        elim (Option-cases (find_node_in_dir parent (c ∷ name) nodes)) [
          | inr (j, there) ↦
              let f : err exists_already ≡ ok nodes' = rw (q, there, create_node) at e in cc
          | inl missing ↦ elim (Option-cases (find_free_node nodes)) [
            | inl none_free ↦
                let f : err full ≡ ok nodes' = rw (q, missing, none_free, create_node) at e in cc
            | inr (i, free) ↦
                let made : List Node =
                  set nodes i (new_node type (c ∷ name) parent (data_of (node_at nodes i))) in
                let f : ok made ≡ ok nodes' = rw (q, missing, free, create_node) at e in
                let same : made ≡ nodes' = cc f in
                subst (Creates type path nodes cwd_idx) same
                  (creates_lem type data_of path nodes cwd_idx parent i c name t d q missing free)
          ]
        ]

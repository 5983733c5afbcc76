-- ===== src/Fs/Created.antt =====
-- A new file of kernel/fs/fs.c is found under its path, and reads as empty.
use mex_os.Base.{
  ℕ, ◌≡◌, ◌≢◌, inl, inr, refl, sym, ap, ◌∙◌, subst, true, false, Option, none, some, List, [], ◌∷◌,
  if_false, arith, Bool-cases, min,
}
use mex_os.Text.{Text, split_last, same_text, same_text_sound}
use mex_os.Fs.Node.{
  Node, NodeType, file, dir, not_found, invalid, Result, ok, err, DiskFs, Fs, dot, dot_dot,
  root_path, node_at, is_dir, resolve_path, resolve_name, resolve_full_path, find_node_in_dir,
}
use mex_os.Fs.Ops.{bytes_of, create_node, with_nodes, fs_create_dir, fs_exists}
use mex_os.Fs.Disk.{fs_create_file, fs_read}
use mex_os.Fs.Tree.{IsDir, IsTree, IsNamed, Result-cases, find_node_in_dir-some}
use mex_os.Fs.Create.{Creates, create_node-Creates}
use mex_os.Fs.Lookup.{
  IsAlike-of_eq, Extends, resolve_path_kept, resolve_full_path_kept, resolve_full_path-used,
}
use mex_os.Fs.Files.{IsFs}
use mex_os.Fs.Contents.{IsFile, read_lem}

-- A name that is not one of the two special ones.
pub record IsPlain (name : Text) : Type 0 where
  pub no_dot : same_text name dot ≡ false
  pub no_dot_dot : same_text name dot_dot ≡ false

module _ (type : NodeType) (path : Option Text) (nodes : List Node) (cwd_idx : ℕ)
    (nodes' : List Node) (t : IsTree nodes) (d : IsDir nodes cwd_idx)
    (c : Creates type path nodes cwd_idx nodes') where
  -- The new node was free.
  created_apart : (k : ℕ) → (node_at nodes k).used ≡ true → c.index ≢ k
  created_apart k used e =
      let f : false ≡ true = sym c.was_free ∙ ap (λ j. (node_at nodes j).used) e ∙ used in cc

  pub created-Extends : Extends nodes nodes'
  created-Extends = record {
    before = t;
    after = c.tree;
    kept = λ k used. IsAlike-of_eq _ _ (c.others k (created_apart k used));
  }

  pub created-IsDir : IsDir nodes' cwd_idx
  created-IsDir =
      let same = c.others cwd_idx (created_apart cwd_idx d.used) in
      record {
        inside = d.inside;
        used = ap (λ x. x.used) same ∙ d.used;
        directory = ap (λ x. is_dir x.type) same ∙ d.directory;
      }

root_lem :
    (nodes : List Node) (cwd_idx c : ℕ) (p name : Text) (parent : ℕ)
    → p ≡ root_path
    → resolve_path nodes cwd_idx (some p) ≡ ok (parent, c ∷ name)
    → ⊥
unfolding resolve_path split_last
root_lem nodes cwd_idx c p name parent top e =
    let x : Result (ℕ × Text) = ok (0, []) in
    let f : x ≡ ok (parent, c ∷ name) =
      subst (λ x. resolve_path nodes cwd_idx (some x) ≡ ok (parent, c ∷ name)) top e in
    let g : [] ≡ c ∷ name = cc f in cc g

-- A path that resolves to a name in a directory is not the root.
resolved_path :
    (nodes : List Node) (cwd_idx parent c : ℕ) (path : Option Text) (name : Text)
    → resolve_path nodes cwd_idx path ≡ ok (parent, c ∷ name)
    → resolve_full_path nodes cwd_idx path ≡ resolve_name nodes parent (c ∷ name)
unfolding resolve_full_path resolve_path
resolved_path nodes cwd_idx parent c none name e =
    let x : Result (ℕ × Text) = err invalid in let f : x ≡ ok (parent, c ∷ name) = e in cc
resolved_path nodes cwd_idx parent c (some p) name e = elim (Bool-cases (same_text p root_path)) [
  | inl top ↦ absurd (root_lem nodes cwd_idx c p name parent (same_text_sound p root_path top) e)
  | inr other ↦ rw (other, e, resolve_full_path) refl
]

module _ (nodes : List Node) (parent c : ℕ) (name : Text) (plain : IsPlain (c ∷ name)) where
  name_found :
      (i : ℕ)
      → find_node_in_dir parent (c ∷ name) nodes ≡ some i
      → resolve_name nodes parent (c ∷ name) ≡ ok i
  unfolding resolve_name
  name_found i found = rw (plain.no_dot, plain.no_dot_dot, found, resolve_name) refl

  name_missing :
      find_node_in_dir parent (c ∷ name) nodes ≡ none
      → resolve_name nodes parent (c ∷ name) ≡ err not_found
  unfolding resolve_name
  name_missing missing = rw (plain.no_dot, plain.no_dot_dot, missing, resolve_name) refl

module _ {D : Type 0} ⦃disk : DiskFs D⦄ where
  -- Creating changes the nodes only.
  create_made :
      (s s' : Fs D) (type : NodeType) (contents : Node → ℕ → ℕ) (path : Option Text)
      → IsFs s
      → with_nodes (create_node type contents path s.nodes s.cwd_idx) s ≡ (ok tt, s')
      → (nodes : List Node) × Creates type path s.nodes s.cwd_idx nodes
        × (s' ≡ record s { nodes = nodes })
  create_made s s' type contents path v e =
      elim (Result-cases (create_node type contents path s.nodes s.cwd_idx)) [
        | inl (nodes, q) ↦
            let f : with_nodes (ok nodes) s ≡ (ok tt, s') =
              subst (λ r. with_nodes r s ≡ (ok tt, s')) q e in
            (
              nodes,
              create_node-Creates type contents path s.nodes s.cwd_idx v.tree v.here q,
              sym (ap (λ x. x.1) f),
            )
        | inr (x, q) ↦
            let f : with_nodes (err x) s ≡ (ok tt, s') =
              subst (λ r. with_nodes r s ≡ (ok tt, s')) q e in
            cc
      ]

  created_valid :
      (s : Fs D) (type : NodeType) (path : Option Text) (nodes : List Node)
      → IsFs s
      → Creates type path s.nodes s.cwd_idx nodes
      → IsFs (record s { nodes = nodes })
  created_valid s type path nodes v k = record {
    tree = k.tree;
    here = created-IsDir type path s.nodes s.cwd_idx nodes v.tree v.here k;
    in_memory = v.in_memory;
  }

  create_valid :
      (s s' : Fs D) (type : NodeType) (contents : Node → ℕ → ℕ) (path : Option Text)
      → IsFs s
      → with_nodes (create_node type contents path s.nodes s.cwd_idx) s ≡ (ok tt, s')
      → IsFs s'
  create_valid s s' type contents path v e =
      let (nodes, k, made) = create_made s s' type contents path v e in
      subst IsFs (sym made) (created_valid s type path nodes v k)

  pub fs_create_file-IsFs :
      (s s' : Fs D) (path : Option Text) → IsFs s → fs_create_file path s ≡ (ok tt, s') → IsFs s'
  unfolding fs_create_file
  fs_create_file-IsFs s s' path v e =
      create_valid s s' file (λ n i. 0) path v (sym (if_false _ _ _ v.in_memory) ∙ e)

  pub fs_create_dir-IsFs :
      (s s' : Fs D) (path : Option Text) → IsFs s → fs_create_dir path s ≡ (ok tt, s') → IsFs s'
  unfolding fs_create_dir
  fs_create_dir-IsFs s s' path v e = create_valid s s' dir (λ n. n.contents) path v e

  -- A file that is made under a plain name is found under its path and reads as empty; before, the
  -- path led nowhere. Every path that led somewhere leads to the same node, with the same contents.
  pub fs_create_file-found :
      (s s' : Fs D) (path : Option Text) (parent c limit : ℕ) (name : Text)
      → IsFs s
      → resolve_path s.nodes s.cwd_idx path ≡ ok (parent, c ∷ name)
      → IsPlain (c ∷ name)
      → fs_create_file path s ≡ (ok tt, s')
      → IsFs s'
        × (fs_exists path s ≡ false)
        × (fs_read path limit s' ≡ (ok [], s'))
        × ((other : Option Text) (i : ℕ)
            → resolve_full_path s.nodes s.cwd_idx other ≡ ok i
            → (resolve_full_path s'.nodes s'.cwd_idx other ≡ ok i)
              × (node_at s'.nodes i ≡ node_at s.nodes i))
  unfolding fs_exists fs_create_file
  fs_create_file-found s s' path parent c limit name v resolved plain e =
      let (nodes, k, made) =
        create_made s s' file (λ n i. 0) path v (sym (if_false _ _ _ v.in_memory) ∙ e) in
      let x : Result (ℕ × Text) = ok (k.parent, k.name) in
      let named : x ≡ ok (parent, c ∷ name) = sym k.resolved ∙ resolved in
      let at_parent : k.parent ≡ parent = ground arith in
      let at_name : k.name ≡ c ∷ name = cc named in
      let missing : find_node_in_dir parent (c ∷ name) s.nodes ≡ none =
        subst (λ x. find_node_in_dir parent x s.nodes ≡ none) at_name
          (subst (λ x. find_node_in_dir x k.name s.nodes ≡ none) at_parent k.missing) in
      let there : IsNamed nodes parent (c ∷ name) k.index =
        subst (λ x. IsNamed nodes parent x k.index) at_name
          (subst (λ x. IsNamed nodes x k.name k.index) at_parent k.named) in
      let kept = created-Extends file path s.nodes s.cwd_idx nodes v.tree v.here k in
      let found = find_node_in_dir-some parent (c ∷ name) nodes k.index k.tree there in
      let before =
        resolved_path s.nodes s.cwd_idx parent c path name resolved
        ∙ name_missing s.nodes parent c name plain missing in
      let after =
        resolved_path nodes s.cwd_idx parent c path name
          (resolve_path_kept s.nodes nodes kept s.cwd_idx path v.here resolved)
        ∙ name_found nodes parent c name plain k.index found in
      let valid = created_valid s file path nodes v k in
      let file_here : IsFile (record s { nodes = nodes }) path k.index = record {
        valid = valid;
        leads = after;
        no_dir = ap is_dir k.type_is;
      } in
      let no_bytes : min limit (node_at nodes k.index).size ≡ 0 = omega (arith, k.empty) in
      let no_path : fs_exists path s ≡ false = rw (before, fs_exists) refl in
      let reads =
        read_lem (record s { nodes = nodes }) path k.index limit file_here
        ∙ ap (λ m. (ok (bytes_of (node_at nodes k.index).contents 0 m), record s { nodes = nodes }))
            no_bytes in
      subst
        (λ z.
          IsFs z
          × (fs_exists path s ≡ false)
          × (fs_read path limit z ≡ (ok [], z))
          × ((other : Option Text) (i : ℕ)
              → resolve_full_path s.nodes s.cwd_idx other ≡ ok i
              → (resolve_full_path z.nodes z.cwd_idx other ≡ ok i)
                × (node_at z.nodes i ≡ node_at s.nodes i)))
        (sym made)
        (
          valid,
          no_path,
          reads,
          λ other i leads.
              (let (inside, used) =
                  resolve_full_path-used s.nodes s.cwd_idx other v.tree v.here leads in
                (
                  resolve_full_path_kept s.nodes nodes kept s.cwd_idx other v.here leads,
                  k.others i
                      (created_apart file path s.nodes s.cwd_idx nodes v.tree v.here k i used),
                )),
        )

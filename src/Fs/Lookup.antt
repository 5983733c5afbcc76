-- ===== src/Fs/Lookup.antt =====
-- A path still leads where it led when a node is added, kernel/fs/fs.c.
use mex_os.Base.{
  ℕ, ◌-◌, ◌<◌, ◌≡◌, inl, inr, refl, sym, ap, ◌∙◌, subst, true, false, Option, none, some, List, [],
  ◌∷◌, if◌then◌else◌, ◌==◌, arith, Bool-cases, Option-cases,
}
use mex_os.Text.{Text, clip, same_text, split, split_last}
use mex_os.Fs.Node.{
  Node, Result, ok, err, max_files, max_name, max_path, slash, dot, dot_dot, root_path, node_at,
  is_dir, find_node_in_dir, enter, walk, skip_slash, is_absolute, resolve_path, resolve_name,
  resolve_full_path, not_found,
}
use mex_os.Fs.Tree.{
  IsDir, IsTree, find_node_in_dir-IsNamed, find_node_in_dir-some, enter-IsDir,
  resolve_path-IsResolved,
}

-- Two nodes differ at most in size and contents.
pub record IsAlike (m n : Node) : Type 0 where
  pub name : m.name ≡ n.name
  pub type : m.type ≡ n.type
  pub used : m.used ≡ n.used
  pub parent : m.parent_idx ≡ n.parent_idx

pub IsAlike-of_eq : (m n : Node) → m ≡ n → IsAlike m n
IsAlike-of_eq m n e = record {
  name = ap (λ x. x.name) e;
  type = ap (λ x. x.type) e;
  used = ap (λ x. x.used) e;
  parent = ap (λ x. x.parent_idx) e;
}

-- `nodes'` has the used nodes of `nodes`, perhaps with other contents, and perhaps others.
pub record Extends (nodes nodes' : List Node) : Type 0 where
  pub before : IsTree nodes
  pub after : IsTree nodes'
  pub kept : (k : ℕ) → (node_at nodes k).used ≡ true → IsAlike (node_at nodes' k) (node_at nodes k)

module _ (nodes nodes' : List Node) (x : Extends nodes nodes') where
  find_kept :
      (d i : ℕ) (name : Text)
      → find_node_in_dir d name nodes ≡ some i
      → (find_node_in_dir d name nodes' ≡ some i) × IsAlike (node_at nodes' i) (node_at nodes i)
  find_kept d i name e =
      let n = find_node_in_dir-IsNamed d name nodes e in
      let same = x.kept i n.used in
      (
        find_node_in_dir-some d name nodes' i x.after (record {
          inside = omega (arith, n.inside, x.before.table, x.after.table);
          used = same.used ∙ n.used;
          parent = same.parent ∙ n.parent;
          name_is = subst (λ y. same_text y name ≡ true) (sym same.name) n.name_is;
        }),
        same,
      )

  enter_kept :
      (current : ℕ) (part : Text) {next : ℕ}
      → IsDir nodes current
      → enter nodes current part ≡ some next
      → enter nodes' current part ≡ some next
  unfolding enter
  enter_kept current [] d e = e
  enter_kept current (c ∷ s) {next} d e = elim (Bool-cases (same_text (c ∷ s) dot)) [
    | inl stay ↦ rw (stay, enter) (rw (stay, enter) at e)
    | inr name ↦ elim (Bool-cases (same_text (c ∷ s) dot_dot)) [
      | inl up ↦
          let same = x.kept current d.used in
          let r : some (if current == 0 then current else (node_at nodes current).parent_idx)
              ≡ some next =
            rw (name, up, enter) at e in
          rw (name, up, enter) (rw same.parent r)
      | inr child ↦ elim (Option-cases (find_node_in_dir current (c ∷ s) nodes)) [
        | inl missing ↦ let r : none ≡ some next = rw (name, child, missing, enter) at e in cc
        | inr (i, found) ↦
            let (found', same) = find_kept current i (c ∷ s) found in
            let r : (if is_dir (node_at nodes i).type then some i else none) ≡ some next =
              rw (name, child, found, enter) at e in
            rw (name, child, found', enter) (rw (ap is_dir same.type) r)
      ]
    ]
  ]

  walk_kept :
      (current : ℕ) (parts : List Text) {next : ℕ}
      → IsDir nodes current
      → walk nodes current parts ≡ some next
      → walk nodes' current parts ≡ some next
  unfolding walk
  walk_kept current [] d e = e
  walk_kept current (part ∷ parts) {next} d e =
      elim (Option-cases (enter nodes current (clip (max_name - 1) part))) [
        | inl missing ↦ let r : none ≡ some next = rw (missing, walk) at e in cc
        | inr (i, found) ↦
            rw (enter_kept current (clip (max_name - 1) part) d found, walk)
              (walk_kept i parts
                (enter-IsDir nodes current (clip (max_name - 1) part) x.before d found)
                (rw (found, walk) at e))
      ]

  -- The directory and the name that a path stands for stay the same.
  pub resolve_path_kept :
      (cwd_idx : ℕ) (path : Option Text) {r : ℕ × Text}
      → IsDir nodes cwd_idx
      → resolve_path nodes cwd_idx path ≡ ok r
      → resolve_path nodes' cwd_idx path ≡ ok r
  unfolding resolve_path
  resolve_path_kept cwd_idx none d e = e
  resolve_path_kept cwd_idx (some []) d e = e
  resolve_path_kept cwd_idx (some (c ∷ s)) {r} d e =
      let buf = clip (max_path - 1) (c ∷ s) in
      let current : ℕ = if is_absolute buf then 0 else cwd_idx in
      let start : IsDir nodes current = elim (Bool-cases (is_absolute buf)) [
        | inl a ↦ rw a x.before.root
        | inr b ↦ rw b d
      ] in
      elim (Option-cases (split_last slash (skip_slash buf))) [
        | inl flat ↦ rw (flat, resolve_path) (rw (flat, resolve_path) at e)
        | inr ((dir_part, name_part), deep) ↦
            elim (Option-cases (walk nodes current (split slash dir_part))) [
              | inl missing ↦
                  let f : err not_found ≡ ok r = rw (deep, missing, resolve_path) at e in cc
              | inr (i, found) ↦
                  let f : ok (i, clip 31 name_part) ≡ ok r = rw (deep, found, resolve_path) at e in
                  rw (deep, walk_kept current (split slash dir_part) start found, resolve_path) f
            ]
      ]

  name_kept :
      (parent : ℕ) (name : Text) {i : ℕ}
      → IsDir nodes parent
      → resolve_name nodes parent name ≡ ok i
      → resolve_name nodes' parent name ≡ ok i
  unfolding resolve_name
  name_kept parent [] d e = e
  name_kept parent (c ∷ s) {i} d e = elim (Bool-cases (same_text (c ∷ s) dot)) [
    | inl stay ↦ rw (stay, resolve_name) (rw (stay, resolve_name) at e)
    | inr name ↦ elim (Bool-cases (same_text (c ∷ s) dot_dot)) [
      | inl up ↦
          let same = x.kept parent d.used in
          let r : ok (if parent == 0 then 0 else (node_at nodes parent).parent_idx) ≡ ok i =
            rw (name, up, resolve_name) at e in
          rw (name, up, resolve_name) (rw same.parent r)
      | inr child ↦ elim (Option-cases (find_node_in_dir parent (c ∷ s) nodes)) [
        | inl missing ↦
            let r : err not_found ≡ ok i = rw (name, child, missing, resolve_name) at e in cc
        | inr (j, found) ↦
            let (found', same) = find_kept parent j (c ∷ s) found in
            let r : ok j ≡ ok i = rw (name, child, found, resolve_name) at e in
            rw (name, child, found', resolve_name) r
      ]
    ]
  ]

  -- And so does the node that a path leads to.
  pub resolve_full_path_kept :
      (cwd_idx : ℕ) (path : Option Text) {i : ℕ}
      → IsDir nodes cwd_idx
      → resolve_full_path nodes cwd_idx path ≡ ok i
      → resolve_full_path nodes' cwd_idx path ≡ ok i
  unfolding resolve_full_path
  resolve_full_path_kept cwd_idx none d e = e
  resolve_full_path_kept cwd_idx (some p) {i} d e = elim (Bool-cases (same_text p root_path)) [
    | inl top ↦ rw (top, resolve_full_path) (rw (top, resolve_full_path) at e)
    | inr other ↦ step (resolve_path nodes cwd_idx (some p)) refl other
  ]
    where
      step :
          (r : Result (ℕ × Text))
          → resolve_path nodes cwd_idx (some p) ≡ r
          → same_text p root_path ≡ false
          → resolve_full_path nodes' cwd_idx (some p) ≡ ok i
      step (err x) q other = let f : err x ≡ ok i = rw (other, q, resolve_full_path) at e in cc
      step (ok (parent, name)) q other =
          let f : resolve_name nodes parent name ≡ ok i = rw (other, q, resolve_full_path) at e in
          let q' = resolve_path_kept cwd_idx (some p) d q in
          rw (other, q', resolve_full_path)
            (name_kept parent name
              (resolve_path-IsResolved nodes cwd_idx (some p) x.before d q).directory f)

-- A path leads to a used node.
resolve_name-used :
    (nodes : List Node) (parent : ℕ) (name : Text) {i : ℕ}
    → IsTree nodes
    → IsDir nodes parent
    → resolve_name nodes parent name ≡ ok i
    → (i < max_files) × ((node_at nodes i).used ≡ true)
unfolding resolve_name
resolve_name-used nodes parent [] {i} t d e =
    let same : parent ≡ i = ground arith in
    subst (λ k. (k < max_files) × ((node_at nodes k).used ≡ true)) same (d.inside, d.used)
resolve_name-used nodes parent (c ∷ s) {i} t d e = elim (Bool-cases (same_text (c ∷ s) dot)) [
  | inl stay ↦
      let r : ok parent ≡ ok i = rw (stay, resolve_name) at e in
      let same : parent ≡ i = ground arith in
      subst (λ k. (k < max_files) × ((node_at nodes k).used ≡ true)) same (d.inside, d.used)
  | inr name ↦ elim (Bool-cases (same_text (c ∷ s) dot_dot)) [
    | inl up ↦ elim (Bool-cases (parent == 0)) [
      | inl top ↦
          let r : ok 0 ≡ ok i = rw (name, up, top, resolve_name) at e in
          let same : 0 ≡ i = ground arith in
          subst (λ k. (k < max_files) × ((node_at nodes k).used ≡ true)) same
            (t.root.inside, t.root.used)
      | inr below ↦
          let r : ok (node_at nodes parent).parent_idx ≡ ok i =
            rw (name, up, below, resolve_name) at e in
          let same : (node_at nodes parent).parent_idx ≡ i = ground arith in
          let p = t.parents parent d.used in
          subst (λ k. (k < max_files) × ((node_at nodes k).used ≡ true)) same (p.inside, p.used)
    ]
    | inr child ↦ elim (Option-cases (find_node_in_dir parent (c ∷ s) nodes)) [
      | inl missing ↦
          let r : err not_found ≡ ok i = rw (name, child, missing, resolve_name) at e in cc
      | inr (j, found) ↦
          let r : ok j ≡ ok i = rw (name, child, found, resolve_name) at e in
          let same : j ≡ i = ground arith in
          let n = find_node_in_dir-IsNamed parent (c ∷ s) nodes found in
          subst (λ k. (k < max_files) × ((node_at nodes k).used ≡ true)) same
            (omega (arith, n.inside, t.table), n.used)
    ]
  ]
]

pub resolve_full_path-used :
    (nodes : List Node) (cwd_idx : ℕ) (path : Option Text) {i : ℕ}
    → IsTree nodes
    → IsDir nodes cwd_idx
    → resolve_full_path nodes cwd_idx path ≡ ok i
    → (i < max_files) × ((node_at nodes i).used ≡ true)
unfolding resolve_full_path
resolve_full_path-used nodes cwd_idx none t d e = cc
resolve_full_path-used nodes cwd_idx (some p) {i} t d e =
    elim (Bool-cases (same_text p root_path)) [
      | inl top ↦
          let r : ok 0 ≡ ok i = rw (top, resolve_full_path) at e in
          let same : 0 ≡ i = ground arith in
          subst (λ k. (k < max_files) × ((node_at nodes k).used ≡ true)) same
            (t.root.inside, t.root.used)
      | inr other ↦ step (resolve_path nodes cwd_idx (some p)) refl other
    ]
  where
    step :
        (r : Result (ℕ × Text))
        → resolve_path nodes cwd_idx (some p) ≡ r
        → same_text p root_path ≡ false
        → (i < max_files) × ((node_at nodes i).used ≡ true)
    step (err x) q other = let f : err x ≡ ok i = rw (other, q, resolve_full_path) at e in cc
    step (ok (parent, name)) q other =
        let f : resolve_name nodes parent name ≡ ok i = rw (other, q, resolve_full_path) at e in
        resolve_name-used nodes parent name t
          (resolve_path-IsResolved nodes cwd_idx (some p) t d q).directory f

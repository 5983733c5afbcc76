-- ===== src/Fs/Tree.antt =====
-- The nodes form a tree of directories, kernel/fs/fs.c.
use mex_os.Base.{
  ℕ, zero, suc, ◌+◌, ◌-◌, ◌<◌, ◌≤◌, ◌≡◌, ◌⊎◌, inl, inr, refl, sym, ap, ◌∙◌, subst, Bool, true,
  false, Option, none, some, List, [], ◌∷◌, if◌then◌else◌, ◌==◌, length, arith, Bool-cases,
  Option-cases,
}
use mex_os.Text.{Text, clip, same_text, same_text_refl, same_text_sound, split, split_last}
use mex_os.Fs.Rooted.{Rooted}
use mex_os.Fs.Node.{
  Node, Result, ok, err, max_files, slash, dot, dot_dot, node_at, is_dir, find_index, is_named,
  find_node_in_dir, enter, walk, skip_slash, is_absolute, resolve_path, FsError, not_found,
  max_name, max_path,
}

pub Result-cases :
    {A : Type 0} (r : Result A) → ((a : A) × (r ≡ ok a)) ⊎ ((e : FsError) × (r ≡ err e))
Result-cases (ok a) = inl (a, refl)
Result-cases (err e) = inr (e, refl)

-- A directory that is in the table.
pub record IsDir (nodes : List Node) (i : ℕ) : Type 0 where
  pub inside : i < max_files
  pub used : (node_at nodes i).used ≡ true
  pub directory : is_dir (node_at nodes i).type ≡ true

-- The table is whole, the root is a directory, every used node is in a directory, the parents of
-- every used node lead to the root, and no two used nodes of one directory have one name.
pub record IsTree (nodes : List Node) : Type 0 where
  pub table : length nodes ≡ max_files
  pub root : IsDir nodes 0
  pub root_parent : (node_at nodes 0).parent_idx ≡ 0
  pub parents : (i : ℕ) → (node_at nodes i).used ≡ true → IsDir nodes (node_at nodes i).parent_idx
  pub rooted : (i : ℕ) → (node_at nodes i).used ≡ true → Rooted nodes i
  pub sizes : (i : ℕ) → (node_at nodes i).size ≤ 4096
  pub distinct :
      (i j : ℕ)
      → (node_at nodes i).used ≡ true
      → (node_at nodes j).used ≡ true
      → (node_at nodes i).parent_idx ≡ (node_at nodes j).parent_idx
      → same_text (node_at nodes i).name (node_at nodes j).name ≡ true
      → i ≡ j

-- A search finds the first node that passes the test.
pub find_index-some :
    (test : Node → Bool) (i : ℕ) (nodes : List Node) {j : ℕ}
    → find_index test i nodes ≡ some j
    → (i ≤ j) × (j < i + length nodes) × (test (node_at nodes (j - i)) ≡ true)
unfolding find_index
find_index-some test i [] e = cc
find_index-some test i (n ∷ nodes) {j} e = elim (Bool-cases (test n)) [
  | inl here ↦
      let same : some i ≡ some j = rw here at e in
      let at : i ≡ j = ground arith in
      let first : j - i ≡ 0 = omega arith in (omega arith, omega arith, rw first here)
  | inr miss ↦
      let (lo, hi, hit) = find_index-some test (i + 1) nodes (rw (miss, find_index) at e) in
      let later : j - i ≡ suc (j - (i + 1)) = omega arith in
      (omega arith, omega arith, rw later hit)
]

pub find_index-none :
    (test : Node → Bool) (i : ℕ) (nodes : List Node) (k : ℕ)
    → find_index test i nodes ≡ none
    → k < length nodes
    → test (node_at nodes k) ≡ false
unfolding find_index
find_index-none test i [] k e below = absurd (omega arith)
find_index-none test i (n ∷ nodes) zero e below = elim (Bool-cases (test n)) [
  | inl here ↦ let f : some i ≡ none = rw here at e in cc
  | inr miss ↦ miss
]
find_index-none test i (n ∷ nodes) (suc k) e below = elim (Bool-cases (test n)) [
  | inl here ↦ let f : some i ≡ none = rw here at e in cc
  | inr miss ↦ find_index-none test (i + 1) nodes k (rw (miss, find_index) at e) (omega arith)
]

-- What `find_node_in_dir` finds is a used node of that name in that directory.
pub record IsNamed (nodes : List Node) (dir_idx : ℕ) (name : Text) (i : ℕ) : Type 0 where
  pub inside : i < length nodes
  pub used : (node_at nodes i).used ≡ true
  pub parent : (node_at nodes i).parent_idx ≡ dir_idx
  pub name_is : same_text (node_at nodes i).name name ≡ true

pub find_node_in_dir-IsNamed :
    (dir_idx : ℕ) (name : Text) (nodes : List Node) {i : ℕ}
    → find_node_in_dir dir_idx name nodes ≡ some i
    → IsNamed nodes dir_idx name i
unfolding find_node_in_dir
find_node_in_dir-IsNamed dir_idx name nodes {i} e =
    let (_, below, hit) = find_index-some (is_named dir_idx name) 0 nodes e in
    let at : i - 0 ≡ i = omega arith in
    let here : is_named dir_idx name (node_at nodes i) ≡ true =
      subst (λ k. is_named dir_idx name (node_at nodes k) ≡ true) at hit in
    record {
      inside = omega arith;
      used = ground (arith, here);
      parent = ground (arith, here);
      name_is = ground (arith, here);
    }

-- Walking from a directory ends in a directory.
pub enter-IsDir :
    (nodes : List Node) (current : ℕ) (part : Text) {next : ℕ}
    → IsTree nodes
    → IsDir nodes current
    → enter nodes current part ≡ some next
    → IsDir nodes next
unfolding enter
enter-IsDir nodes current [] {next} t d e =
    let same : current ≡ next = ground arith in subst (IsDir nodes) same d
enter-IsDir nodes current (c ∷ s) {next} t d e = elim (Bool-cases (same_text (c ∷ s) dot)) [
  | inl stay ↦
      let r : some current ≡ some next = rw (stay, enter) at e in
      let same : current ≡ next = ground arith in subst (IsDir nodes) same d
  | inr name ↦ elim (Bool-cases (same_text (c ∷ s) dot_dot)) [
    | inl up ↦ elim (Bool-cases (current == 0)) [
      | inl top ↦
          let r : some current ≡ some next = rw (name, up, top, enter) at e in
          let same : current ≡ next = ground arith in subst (IsDir nodes) same d
      | inr below ↦
          let r : some (node_at nodes current).parent_idx ≡ some next =
            rw (name, up, below, enter) at e in
          let same : (node_at nodes current).parent_idx ≡ next = ground arith in
          subst (IsDir nodes) same (t.parents current d.used)
    ]
    | inr child ↦ elim (Option-cases (find_node_in_dir current (c ∷ s) nodes)) [
      | inl missing ↦ let r : none ≡ some next = rw (name, child, missing, enter) at e in cc
      | inr (i, found) ↦ elim (Bool-cases (is_dir (node_at nodes i).type)) [
        | inl directory ↦
            let r : some i ≡ some next = rw (name, child, found, directory, enter) at e in
            let same : i ≡ next = ground arith in
            let n = find_node_in_dir-IsNamed current (c ∷ s) nodes found in
            subst (IsDir nodes) same (record {
              inside = omega (arith, n.inside, t.table);
              used = n.used;
              directory = directory;
            })
        | inr other ↦ let r : none ≡ some next = rw (name, child, found, other, enter) at e in cc
      ]
    ]
  ]
]

pub walk-IsDir :
    (nodes : List Node) (current : ℕ) (parts : List Text) {next : ℕ}
    → IsTree nodes
    → IsDir nodes current
    → walk nodes current parts ≡ some next
    → IsDir nodes next
unfolding walk
walk-IsDir nodes current [] {next} t d e =
    let same : current ≡ next = ground arith in subst (IsDir nodes) same d
walk-IsDir nodes current (part ∷ parts) t d e =
    elim (Option-cases (enter nodes current (clip (max_name - 1) part))) [
      | inl missing ↦ let r : none ≡ some _ = rw (missing, walk) at e in cc
      | inr (i, found) ↦
          walk-IsDir nodes i parts t
            (enter-IsDir nodes current (clip (max_name - 1) part) t d found) (rw (found, walk) at e)
    ]

pub clip-clip : (n : ℕ) (s : Text) → clip n (clip n s) ≡ clip n s
clip-clip zero s = refl
clip-clip (suc n) [] = refl
clip-clip (suc n) (c ∷ s) = ap (◌∷◌ c) (clip-clip n s)

-- What a path resolves to: a directory, and a name of at most 31 characters.
pub record IsResolved (nodes : List Node) (parent : ℕ) (name : Text) : Type 0 where
  pub directory : IsDir nodes parent
  pub short : clip 31 name ≡ name

pub resolve_path-IsResolved :
    (nodes : List Node) (cwd_idx : ℕ) (path : Option Text) {parent : ℕ} {name : Text}
    → IsTree nodes
    → IsDir nodes cwd_idx
    → resolve_path nodes cwd_idx path ≡ ok (parent, name)
    → IsResolved nodes parent name
unfolding resolve_path
resolve_path-IsResolved nodes cwd_idx none t d e = cc
resolve_path-IsResolved nodes cwd_idx (some []) t d e = cc
resolve_path-IsResolved nodes cwd_idx (some (c ∷ s)) {parent} {name} t d e =
    let buf = clip (max_path - 1) (c ∷ s) in
    let current : ℕ = if is_absolute buf then 0 else cwd_idx in
    let start : IsDir nodes current = elim (Bool-cases (is_absolute buf)) [
      | inl a ↦ rw a t.root
      | inr r ↦ rw r d
    ] in
    elim (Option-cases (split_last slash (skip_slash buf))) [
      | inl flat ↦
          let x : Result (ℕ × Text) = ok (current, clip 31 (skip_slash buf)) in
          let r : x ≡ ok (parent, name) = rw (flat, resolve_path) at e in
          let at : current ≡ parent = ground arith in
          let called : clip 31 (skip_slash buf) ≡ name = cc r in
          record {
            directory = subst (IsDir nodes) at start;
            short = subst (λ x. clip 31 x ≡ x) called (clip-clip 31 (skip_slash buf));
          }
      | inr ((dir_part, name_part), deep) ↦
          elim (Option-cases (walk nodes current (split slash dir_part))) [
            | inl missing ↦
                let x : Result (ℕ × Text) = err not_found in
                let r : x ≡ ok (parent, name) = rw (deep, missing, resolve_path) at e in cc
            | inr (i, found) ↦
                let x : Result (ℕ × Text) = ok (i, clip 31 name_part) in
                let r : x ≡ ok (parent, name) = rw (deep, found, resolve_path) at e in
                let at : i ≡ parent = ground arith in
                let called : clip 31 name_part ≡ name = cc r in
                record {
                  directory =
                      subst (IsDir nodes) at
                        (walk-IsDir nodes current (split slash dir_part) t start found);
                  short = subst (λ x. clip 31 x ≡ x) called (clip-clip 31 name_part);
                }
          ]
    ]

-- In a tree the search finds the one node of that name.
pub find_node_in_dir-some :
    (dir_idx : ℕ) (name : Text) (nodes : List Node) (i : ℕ)
    → IsTree nodes
    → IsNamed nodes dir_idx name i
    → find_node_in_dir dir_idx name nodes ≡ some i
unfolding find_node_in_dir
find_node_in_dir-some dir_idx name nodes i t n =
    elim (Option-cases (find_node_in_dir dir_idx name nodes)) [
      | inl missing ↦
          let miss = find_index-none (is_named dir_idx name) 0 nodes i missing n.inside in
          let f : true ≡ false = ground (arith, miss, n.used, n.parent, n.name_is) in cc
      | inr (j, found) ↦
          let m = find_node_in_dir-IsNamed dir_idx name nodes found in
          let one_name : (node_at nodes j).name ≡ (node_at nodes i).name =
            same_text_sound _ _ m.name_is ∙ sym (same_text_sound _ _ n.name_is) in
          let same : j ≡ i = t.distinct j i m.used n.used (m.parent ∙ sym n.parent) (
            subst (λ x. same_text x (node_at nodes i).name ≡ true) (sym one_name)
              (same_text_refl (node_at nodes i).name)) in
          found ∙ ap some same
    ]

-- ===== src/Fs/Files.antt =====
-- Reading back what was written, kernel/fs/fs.c, while the disk is not enabled.
use mex_os.Base.{
  ℕ, zero, suc, ◌+◌, ◌-◌, ◌<◌, ◌≤◌, ◌≡◌, refl, sym, ap, ◌∙◌, subst, true, false, List, ◌∷◌, ltb,
  leb, set, length, length-set, arith, ℕ_discrete,
}
use mex_os.Text.{same_text}
use mex_os.Fs.Node.{Node, Fs, max_files, node_at, is_dir}
use mex_os.Fs.Ops.{copy_at, bytes_of}
use mex_os.Fs.Rooted.{Rooted-kept}
use mex_os.Fs.Tree.{IsDir, IsTree}
use mex_os.Fs.Create.{node_at-set_self, node_at-set_ne}
use mex_os.Fs.Lookup.{IsAlike, IsAlike-of_eq, Extends}

-- The tree is whole, the working directory is in it, and the disk is not used.
pub record IsFs {D : Type 0} (s : Fs D) : Type 0 where
  pub tree : IsTree s.nodes
  pub here : IsDir s.nodes s.cwd_idx
  pub in_memory : s.disk_enabled ≡ false

IsDir-of_alike :
    (m n : List Node) (i : ℕ) → IsAlike (node_at m i) (node_at n i) → IsDir n i → IsDir m i
IsDir-of_alike m n i a d = record {
  inside = d.inside;
  used = a.used ∙ d.used;
  directory = ap is_dir a.type ∙ d.directory;
}

-- Changes of size and contents keep the tree.
alike-IsTree :
    (nodes nodes' : List Node)
    → IsTree nodes
    → length nodes' ≡ length nodes
    → ((k : ℕ) → IsAlike (node_at nodes' k) (node_at nodes k))
    → ((k : ℕ) → (node_at nodes' k).size ≤ 4096)
    → IsTree nodes'
alike-IsTree nodes nodes' t same alike sizes = record {
  table = same ∙ t.table;
  root = IsDir-of_alike nodes' nodes 0 (alike 0) t.root;
  root_parent = (alike 0).parent ∙ t.root_parent;
  parents = λ k used. subst (IsDir nodes') (sym (alike k).parent) (
      IsDir-of_alike nodes' nodes (node_at nodes k).parent_idx (alike (node_at nodes k).parent_idx)
        (t.parents k (sym (alike k).used ∙ used)));
  rooted = λ k used.
      Rooted-kept nodes nodes' (λ j u. ((alike j).used ∙ u, (alike j).parent))
        (t.rooted k (sym (alike k).used ∙ used));
  sizes = sizes;
  distinct = λ i j ui uj p name.
      t.distinct i j (sym (alike i).used ∙ ui) (sym (alike j).used ∙ uj)
        (sym (alike i).parent ∙ p ∙ (alike j).parent)
        (subst (λ x. same_text x (node_at nodes j).name ≡ true) (alike i).name
          (subst (λ x. same_text (node_at nodes' i).name x ≡ true) (alike j).name name));
}

-- A file at index `i` gets other contents.
pub record IsRewritten (nodes : List Node) (i : ℕ) (n : Node) : Type 0 where
  pub tree : IsTree nodes
  pub inside : i < max_files
  pub alike : IsAlike n (node_at nodes i)
  pub bounded : n.size ≤ 4096

module _ (nodes : List Node) (i : ℕ) (n : Node) (w : IsRewritten nodes i n) where
  rewritten-IsAlike : (k : ℕ) → IsAlike (node_at (set nodes i n) k) (node_at nodes k)
  rewritten-IsAlike k = elim (ℕ_discrete i k) [
    | yes same ↦
        let self = node_at-set_self nodes i n w.tree w.inside in
        subst (λ j. IsAlike (node_at (set nodes i n) j) (node_at nodes j)) same
          (subst (λ m. IsAlike m (node_at nodes i)) (sym self) w.alike)
    | no apart ↦ IsAlike-of_eq _ _ (node_at-set_ne nodes i n w.tree w.inside k apart)
  ]

  pub rewritten-IsTree : IsTree (set nodes i n)
  rewritten-IsTree =
      alike-IsTree nodes (set nodes i n) w.tree (length-set nodes i n) rewritten-IsAlike (λ k.
        elim (ℕ_discrete i k) [
          | yes same ↦
              let self : node_at (set nodes i n) k ≡ n =
                subst (λ j. node_at (set nodes i n) j ≡ n) same
                  (node_at-set_self nodes i n w.tree w.inside) in
              omega (arith, ap (λ x. x.size) self, w.bounded)
          | no apart ↦ omega (
            arith,
            ap (λ x. x.size) (node_at-set_ne nodes i n w.tree w.inside k apart),
            w.tree.sizes k,
          )
        ])

  pub rewritten-Extends : Extends nodes (set nodes i n)
  rewritten-Extends = record {
    before = w.tree;
    after = rewritten-IsTree;
    kept = λ k used. rewritten-IsAlike k;
  }

  pub rewritten-IsDir : (k : ℕ) → IsDir nodes k → IsDir (set nodes i n) k
  rewritten-IsDir k d = IsDir-of_alike (set nodes i n) nodes k (rewritten-IsAlike k) d

-- The bytes of a copy, from its start and behind it.
bytes_of-ext :
    (f g : ℕ → ℕ) (i j n : ℕ)
    → ((k : ℕ) → k < n → f (i + k) ≡ g (j + k))
    → bytes_of f i n ≡ bytes_of g j n
bytes_of-ext f g i j zero same = refl
bytes_of-ext f g i j (suc n) same =
    let first : f i ≡ g j =
      (let a : i ≡ i + 0 = omega arith in
        let b : j + 0 ≡ j = omega arith in ap f a ∙ same 0 (omega arith) ∙ ap g b) in
    let later = bytes_of-ext f g (i + 1) (j + 1) n (λ k below.
      (let a : i + 1 + k ≡ i + suc k = omega arith in
        let b : j + suc k ≡ j + 1 + k = omega arith in
        ap f a ∙ same (suc k) (omega arith) ∙ ap g b)) in
    ap (λ x. x ∷ bytes_of f (i + 1) n) first ∙ ap (◌∷◌ (g j)) later

pub bytes_of-copy_at :
    (target source : ℕ → ℕ) (at n m : ℕ)
    → m ≤ n
    → bytes_of (copy_at target at source n) at m ≡ bytes_of source 0 m
bytes_of-copy_at target source at n m le = bytes_of-ext _ _ at 0 m (λ k below.
    (let one : leb at (at + k) ≡ true = ground arith in
      let two : ltb (at + k) (at + n) ≡ true = ground (arith, le, below) in
      let back : at + k - at ≡ 0 + k = omega arith in rw (one, two) (ap source back)))

pub bytes_of-copy_before :
    (target source : ℕ → ℕ) (at n m : ℕ)
    → m ≤ at
    → bytes_of (copy_at target at source n) 0 m ≡ bytes_of target 0 m
bytes_of-copy_before target source at n m le =
    bytes_of-ext _ _ 0 0 m
      (λ k below. (let one : leb at (0 + k) ≡ false = ground (arith, le, below) in rw one refl))

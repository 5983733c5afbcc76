-- ===== src/Fs/Listing.antt =====
-- The text of `fs_list_dir` and the buffer it is for, kernel/fs/fs.c.
use mex_os.Base.{
  ℕ, ◌+◌, ◌<◌, ◌≤◌, ◌≡◌, inl, inr, subst, Bool, true, not, ◌&&◌, Option, none, some, List, [], ◌∷◌,
  if◌then◌else◌, leb, ◌==◌, length, length-append, arith, Bool-cases,
}
use mex_os.Text.{Text, same_text}
use mex_os.Fs.Node.{
  Node, Result, ok, err, Fs, not_found, not_a_dir, node_at, is_dir, is_child, dot,
  resolve_full_path,
}
use mex_os.Fs.Ops.{entry_text, list_from, fs_list_dir}

entry_size : (n : Node) → length (entry_text n) ≤ length n.name + 3
entry_size n = elim (Bool-cases (is_dir n.type)) [
  | inl directory ↦
      let size = length-append n.name (b']' ∷ b'\n' ∷ []) in
      rw (directory, entry_text) (omega (arith, size))
  | inr plain ↦
      let size = length-append n.name (b'\n' ∷ []) in rw (plain, entry_text) (omega (arith, size))
]

list_from-size :
    (dir_idx size i pos : ℕ) (nodes : List Node)
    → pos ≤ size
    → pos + length (list_from dir_idx size i pos nodes) ≤ size
unfolding list_from
list_from-size dir_idx size i pos [] le = omega arith
list_from-size dir_idx size i pos (n ∷ nodes) le =
    elim (Bool-cases (is_child dir_idx n && not (i == dir_idx))) [
      | inr skipped ↦
          let later = list_from-size dir_idx size (i + 1) (pos + 0) nodes (omega arith) in
          rw (skipped, list_from) (omega (arith, later))
      | inl listed ↦ elim (Bool-cases (leb size (pos + (length n.name + 2)))) [
        | inl long ↦ rw (listed, long, list_from) (omega arith)
        | inr fits ↦
            let room : pos + (length n.name + 2) < size = ground (arith, fits) in
            let long = entry_size n in
            let rest = list_from dir_idx size (i + 1) (pos + length (entry_text n)) nodes in
            let later =
              list_from-size dir_idx size (i + 1) (pos + length (entry_text n)) nodes
                (omega arith) in
            let joined = length-append (entry_text n) rest in
            rw (listed, fits, list_from) (omega (arith, later, joined))
      ]
    ]

module _ {D : Type 0} where
  -- The text of a listing, without its final 0, is never longer than the buffer.
  pub fs_list_dir-fits :
      (s : Fs D) (path : Option Text) (size : ℕ) {text : Text}
      → fs_list_dir path size s ≡ ok text
      → length text ≤ size
  unfolding fs_list_dir
  fs_list_dir-fits s path size {text} e =
      let here : Bool = elim path [
        | none ↦ true
        | some [] ↦ true
        | some (c ∷ p) ↦ same_text (c ∷ p) dot
      ] in
      let r : Result ℕ = if here then ok s.cwd_idx else resolve_full_path s.nodes s.cwd_idx path in
      step r e
    where
      step :
          (r : Result ℕ)
          → (elim r as (λ x. Result Text) [
            | err e ↦ err not_found
            | ok i ↦
                if is_dir (node_at s.nodes i).type
                then ok (list_from i size 0 0 s.nodes)
                else err not_a_dir
          ])
            ≡ ok text
          → length text ≤ size
      step (err x) e = cc e
      step (ok i) e = elim (Bool-cases (is_dir (node_at s.nodes i).type)) [
        | inr plain ↦ let f : err not_a_dir ≡ ok text = rw plain at e in cc
        | inl directory ↦
            let f : ok (list_from i size 0 0 s.nodes) ≡ ok text = rw directory at e in
            let same : list_from i size 0 0 s.nodes ≡ text = cc f in
            let bound = list_from-size i size 0 0 s.nodes (omega arith) in
            subst (λ t. length t ≤ size) same (omega (arith, bound))
      ]

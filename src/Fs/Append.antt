-- ===== src/Fs/Append.antt =====
-- `fs_append` of kernel/fs/fs.c, on a file in memory.
use mex_os.Base.{
  ℕ, zero, suc, ◌+◌, ◌-◌, ◌<◌, ◌≡◌, inl, inr, refl, sym, ap, ◌∙◌, subst, Option, List, ◌∷◌, ◌++◌,
  if◌then◌else◌, ltb, length, arith, Bool-cases, add32, sub32, min, ◌^◌,
}
use mex_os.Text.{Text}
use mex_os.Fs.Node.{
  not_found, is_a_dir, Result, ok, err, DiskFs, Fs, max_file_size, node_at, is_dir,
  resolve_full_path,
}
use mex_os.Fs.Ops.{copy_at, bytes_of, fs_append}
use mex_os.Fs.Disk.{fs_read}
use mex_os.Fs.Files.{IsFs, bytes_of-copy_at, bytes_of-copy_before}
use mex_os.Fs.Contents.{IsFile, read_lem, rewritten, rewritten-IsFile}

length-bytes_of : (f : ℕ → ℕ) (i n : ℕ) → length (bytes_of f i n) ≡ n
length-bytes_of f i zero = refl
length-bytes_of f i (suc n) = ap suc (length-bytes_of f (i + 1) n)

bytes_of-add :
    (f : ℕ → ℕ) (i a b : ℕ) → bytes_of f i (a + b) ≡ bytes_of f i a ++ bytes_of f (i + a) b
bytes_of-add f i zero b =
    let none_first : 0 + b ≡ b = omega arith in
    let same : i ≡ i + 0 = omega arith in
    ap (bytes_of f i) none_first ∙ ap (λ k. bytes_of f k b) same
bytes_of-add f i (suc a) b =
    let same : i + 1 + a ≡ i + suc a = omega arith in
    let count : suc a + b ≡ suc (a + b) = omega arith in
    ap (bytes_of f i) count
    ∙ ap (◌∷◌ (f i))
        (bytes_of-add f (i + 1) a b ∙ ap (λ k. bytes_of f (i + 1) a ++ bytes_of f k b) same)

-- The old bytes and the new ones.
appended_bytes :
    (old source : ℕ → ℕ) (at n : ℕ)
    → bytes_of (copy_at old at source n) 0 (at + n) ≡ bytes_of old 0 at ++ bytes_of source 0 n
appended_bytes old source at n =
    let zero_at : 0 + at ≡ at = omega arith in
    bytes_of-add (copy_at old at source n) 0 at n
    ∙ ap (λ x. x ++ bytes_of (copy_at old at source n) (0 + at) n)
        (bytes_of-copy_before old source at n at (omega arith))
    ∙ ap (λ x. bytes_of old 0 at ++ x)
        (ap (λ k. bytes_of (copy_at old at source n) k n) zero_at
          ∙ bytes_of-copy_at old source at n n (omega arith))

module _ {D : Type 0} ⦃disk : DiskFs D⦄ where
  -- An operation that succeeds found a file.
  append_found :
      (s s' : Fs D) (path : Option Text) (source : ℕ → ℕ) (size count : ℕ)
      → IsFs s
      → size < 2 ^ 32
      → fs_append path source size s ≡ (ok count, s')
      → (i : ℕ) × IsFile s path i
        × (count ≡ min size (4096 - (node_at s.nodes i).size))
        × (s'
            ≡ rewritten s i
                (copy_at (node_at s.nodes i).contents (node_at s.nodes i).size source count)
                ((node_at s.nodes i).size + count))
  unfolding fs_append
  append_found s s' path source size count v word e =
      step (resolve_full_path s.nodes s.cwd_idx path) refl
    where
      step :
          (r : Result ℕ)
          → resolve_full_path s.nodes s.cwd_idx path ≡ r
          → (i : ℕ) × IsFile s path i
            × (count ≡ min size (4096 - (node_at s.nodes i).size))
            × (s'
                ≡ rewritten s i
                    (copy_at (node_at s.nodes i).contents (node_at s.nodes i).size source count)
                    ((node_at s.nodes i).size + count))
      step (err x) q =
          let x : Result ℕ × Fs D = (err not_found, s) in
          let f : x ≡ (ok count, s') = rw (q, fs_append) at e in cc
      step (ok i) q = elim (Bool-cases (is_dir (node_at s.nodes i).type)) [
        | inl directory ↦
            let x : Result ℕ × Fs D = (err is_a_dir, s) in
            let f : x ≡ (ok count, s') = rw (q, directory, fs_append) at e in cc
        | inr no_dir ↦
            let n = node_at s.nodes i in
            let bound = v.tree.sizes i in
            let available : ℕ = sub32 max_file_size n.size in
            let most : ℕ = if ltb available size then available else size in
            let x : Result ℕ × Fs D = (
              ok most,
              rewritten s i (copy_at n.contents n.size source most) (add32 n.size most),
            ) in
            let f : x ≡ (ok count, s') = rw (q, no_dir, fs_append) at e in
            let counts : most ≡ count = cc f in
            let room : available ≡ 4096 - n.size = omega (arith, bound) in
            let least : most ≡ min size (4096 - n.size) = ground (arith, room) in
            let total : add32 n.size most ≡ n.size + most = omega (arith, bound, least) in
            (
              i,
              record { valid = v; leads = q; no_dir = no_dir },
              sym counts ∙ least,
              sym (ap (λ x. x.1) f)
                  ∙ ap (rewritten s i (copy_at n.contents n.size source most)) total
                  ∙ ap (λ k. rewritten s i (copy_at n.contents n.size source k) (n.size + k))
                      counts,
            )
      ]

  -- What a whole file reads as.
  whole_file :
      (s : Fs D) (path : Option Text) (i : ℕ)
      → IsFile s path i
      → fs_read path 4096 s
        ≡ (ok (bytes_of (node_at s.nodes i).contents 0 (node_at s.nodes i).size), s)
  whole_file s path i f =
      let n = node_at s.nodes i in
      let all : min 4096 n.size ≡ n.size = omega (arith, f.valid.tree.sizes i) in
      read_lem s path i 4096 f ∙ ap (λ k. (ok (bytes_of n.contents 0 k), s)) all

  -- An append that succeeds adds the first bytes given behind those of the file, as many as
  -- there is room for in 4096.
  pub fs_append-adds :
      (s s' : Fs D) (path : Option Text) (source : ℕ → ℕ) (size count : ℕ)
      → IsFs s
      → size < 2 ^ 32
      → fs_append path source size s ≡ (ok count, s')
      → (old : List ℕ) × (fs_read path 4096 s ≡ (ok old, s))
        × (count ≡ min size (4096 - length old))
        × (fs_read path 4096 s' ≡ (ok (old ++ bytes_of source 0 count), s'))
        × IsFs s'
  fs_append-adds s s' path source size count v word e =
      let (i, f, counts, made) = append_found s s' path source size count v word e in
      let n = node_at s.nodes i in
      let joined : ℕ → ℕ = copy_at n.contents n.size source count in
      let (f', self) =
        rewritten-IsFile s path i joined (n.size + count) f
          (omega (arith, counts, v.tree.sizes i)) in
      let bytes = appended_bytes n.contents source n.size count in
      let after : fs_read path 4096 (rewritten s i joined (n.size + count)) ≡ (
        ok (bytes_of n.contents 0 n.size ++ bytes_of source 0 count),
        rewritten s i joined (n.size + count),
      ) =
        whole_file (rewritten s i joined (n.size + count)) path i f'
        ∙ ap (λ m. (ok (bytes_of m.contents 0 m.size), rewritten s i joined (n.size + count))) self
        ∙ ap (λ b. (ok b, rewritten s i joined (n.size + count))) bytes in
      (
        bytes_of n.contents 0 n.size,
        whole_file s path i f,
        counts ∙ ap (λ k. min size (4096 - k)) (sym (length-bytes_of n.contents 0 n.size)),
        subst
            (λ z.
              fs_read path 4096 z
              ≡ (ok (bytes_of n.contents 0 n.size ++ bytes_of source 0 count), z))
            (sym made) after,
        subst IsFs (sym made) f'.valid,
      )

-- ===== src/Diskfs/Inodes.antt =====
-- The inode table of kernel/fs/diskfs.c: what a write of an inode leaves on disk.
use mex_os.Base.{
  ℕ, zero, suc, ◌+◌, ◌*◌, ◌/◌, ◌%◌, ◌^◌, ◌<◌, ◌≡◌, refl, sym, ap, ◌∙◌, true, some, List, [], ◌∷◌,
  ◌++◌, ltb, get_or, length, arith,
}
use mex_os.Diskfs.Layout.{
  Bytes, Inode, word32, words_bytes, words_from, inode_words, inode_bytes, inode_of, direct_blocks,
}
use mex_os.Diskfs.State.{Drive}

-- A drive gives back a sector that it has written.
pub record IsStorage (A : Type 0) ⦃drive : Drive A⦄ : Type 0 where
  pub reads_back :
      (a a' : A) (n sector : ℕ) (b : Bytes)
      → drive.write_sectors a n sector 1 b ≡ (true, a')
      → (c : Bytes) × (drive.read_sectors a' n sector 1 ≡ (some c, a'))
        × ((k : ℕ) → k < 512 → c k ≡ b k)

pub word32_ext :
    (b c : Bytes) (i j : ℕ) → ((k : ℕ) → k < 4 → b (i + k) ≡ c (j + k)) → word32 b i ≡ word32 c j
unfolding word32
word32_ext b c i j same =
    let b_first : b i ≡ b (i + 0) = (let e : i ≡ i + 0 = omega arith in ap b e) in
    let c_first : c (j + 0) ≡ c j = (let e : j + 0 ≡ j = omega arith in ap c e) in
    omega (
      arith,
      b_first ∙ same 0 (omega arith) ∙ c_first,
      same 1 (omega arith),
      same 2 (omega arith),
      same 3 (omega arith),
    )

-- The bytes of a word make the word.
word32-words_bytes :
    (ws : List ℕ) (m : ℕ) → get_or ws m 0 < 2 ^ 32 → word32 (words_bytes ws) (4 * m) ≡ get_or ws m 0
unfolding word32
word32-words_bytes ws m bound =
    let q0 : 4 * m / 4 ≡ m = omega arith in
    let q1 : (4 * m + 1) / 4 ≡ m = omega arith in
    let q2 : (4 * m + 2) / 4 ≡ m = omega arith in
    let q3 : (4 * m + 3) / 4 ≡ m = omega arith in
    let r0 : 4 * m % 4 ≡ 0 = omega arith in
    let r1 : (4 * m + 1) % 4 ≡ 1 = omega arith in
    let r2 : (4 * m + 2) % 4 ≡ 2 = omega arith in
    let r3 : (4 * m + 3) % 4 ≡ 3 = omega arith in
    rw (q0, q1, q2, q3, r0, r1, r2, r3) (omega (arith, bound))

-- The words of an inode are `uint32_t`.
pub record IsInode (i : Inode) : Type 0 where
  pub words : (m : ℕ) → get_or (inode_words i) m 0 < 2 ^ 32
  pub twelve : length i.blocks ≡ direct_blocks

-- Two inodes agree in everything but `pad`.
pub record Agree (i j : Inode) : Type 0 where
  pub type : i.type ≡ j.type
  pub size : i.size ≡ j.size
  pub blocks : i.blocks ≡ j.blocks
  pub ctime : i.ctime ≡ j.ctime
  pub mtime : i.mtime ≡ j.mtime
  pub parent : i.parent_inode ≡ j.parent_inode

get_or-left : (xs ys : List ℕ) (m : ℕ) → m < length xs → get_or (xs ++ ys) m 0 ≡ get_or xs m 0
get_or-left [] ys m below = absurd (omega arith)
get_or-left (x ∷ xs) ys zero below = refl
get_or-left (x ∷ xs) ys (suc m) below = get_or-left xs ys m (omega arith)

get_or-right : (xs ys : List ℕ) (m : ℕ) → get_or (xs ++ ys) (length xs + m) 0 ≡ get_or ys m 0
get_or-right [] ys m = let e : 0 + m ≡ m = omega arith in ap (λ k. get_or ys k 0) e
get_or-right (x ∷ xs) ys m =
    let e : suc (length xs) + m ≡ suc (length xs + m) = omega arith in
    ap (λ k. get_or (x ∷ xs ++ ys) k 0) e ∙ get_or-right xs ys m

words_from_ext :
    (b : Bytes) (i : ℕ) (ws : List ℕ)
    → ((m : ℕ) → m < length ws → word32 b (i + 4 * m) ≡ get_or ws m 0)
    → words_from b i (length ws) ≡ ws
words_from_ext b i [] same = refl
words_from_ext b i (w ∷ ws) same =
    let first : word32 b i ≡ w =
      (let e : i ≡ i + 4 * 0 = omega arith in ap (word32 b) e ∙ same 0 (omega arith)) in
    let later = words_from_ext b (i + 4) ws (λ m below.
      (let e : i + 4 + 4 * m ≡ i + 4 * suc m = omega arith in
        ap (word32 b) e ∙ same (suc m) (omega arith))) in
    ap (λ x. x ∷ words_from b (i + 4) (length ws)) first ∙ ap (◌∷◌ w) later

-- The inode that its bytes make.
module _ (i : Inode) (ok : IsInode i) (c : Bytes)
    (stored : (k : ℕ) → k < 68 → c k ≡ inode_bytes i k) where
  word_lem : (m : ℕ) → m < 17 → word32 c (4 * m) ≡ get_or (inode_words i) m 0
  word_lem m below =
      word32_ext c (words_bytes (inode_words i)) (4 * m) (4 * m) (λ k in_word.
        (let front : ltb (4 * m + k) 68 ≡ true = ground (arith, below, in_word) in
          stored (4 * m + k) (omega arith) ∙ rw front refl))
      ∙ word32-words_bytes (inode_words i) m (ok.words m)

  abbrev times : List ℕ
  times = i.ctime ∷ i.mtime ∷ i.parent_inode ∷ []

  -- The words behind the blocks.
  behind : (m : ℕ) → get_or (inode_words i) (suc (suc (12 + m))) 0 ≡ get_or times m 0
  behind m =
      let e : 12 + m ≡ length i.blocks + m = omega (arith, ok.twelve) in
      ap (λ k. get_or (i.blocks ++ times) k 0) e ∙ get_or-right i.blocks times m

  pub inode_of-Agree : Agree (inode_of c) i
  inode_of-Agree = record {
    type = word_lem 0 (omega arith);
    size = word_lem 1 (omega arith);
    blocks =
        ap (words_from c 8) (sym ok.twelve)
        ∙ words_from_ext c 8 i.blocks (λ m below.
          (let e : 8 + 4 * m ≡ 4 * suc (suc m) = omega arith in
            ap (word32 c) e
            ∙ word_lem (suc (suc m)) (omega (arith, below, ok.twelve))
            ∙ get_or-left i.blocks times m below));
    ctime = word_lem 14 (omega arith) ∙ behind 0;
    mtime = word_lem 15 (omega arith) ∙ behind 1;
    parent = word_lem 16 (omega arith) ∙ behind 2;
  }

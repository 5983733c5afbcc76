-- ===== src/Diskfs/Table.antt =====
-- `write_inode` and `read_inode` of kernel/fs/diskfs.c on one sector of the inode table.
use mex_os.Base.{
  ℕ, ◌+◌, ◌-◌, ◌%◌, ◌<◌, ◌≡◌, inl, inr, refl, ap, ◌∙◌, ◌⊎◌, sym, subst, List, [], ◌∷◌, ◌&&◌, ◌==◌,
  Bool, true, false, none, some, ltb, leb, arith, Bool-cases, Option-cases,
}
use mex_os.Fs.Ops.{copy_at}
use mex_os.Diskfs.Layout.{Bytes, Inode, word32, inode_bytes, inode_of, inode_size, max_inodes}
use mex_os.Diskfs.State.{
  Drive, Disk, Slot, cached, recache, inode_sector, inode_offset, read_inode, write_inode,
}
use mex_os.Diskfs.Inodes.{IsStorage, IsInode, Agree, word32_ext, inode_of-Agree}

-- After the loop of `write_inode` the cache gives the new inode, or none as before.
cached-recache :
    (ino : ℕ) (inode : Inode) (slots : List Slot)
    → (cached ino (recache ino inode slots) ≡ none)
      ⊎ (cached ino (recache ino inode slots) ≡ some inode)
unfolding cached recache
cached-recache ino inode [] = inl refl
cached-recache ino inode (s ∷ slots) = elim (Bool-cases (s.valid && (s.num == ino))) [
  | inl here ↦ inr (rw (here, here) refl)
  | inr other ↦ elim (cached-recache ino inode slots) [
    | inl e ↦ inl (rw (other, other) e)
    | inr e ↦ inr (rw (other, other) e)
  ]
]

module _ {A : Type 0} ⦃drive : Drive A⦄ (storage : IsStorage A) where
  -- What a write of an inode that succeeds leaves.
  record IsStored (n ino : ℕ) (inode : Inode) (d' : Disk A) : Type 0 where
    in_table : ino < max_inodes
    sector : Bytes
    reads : drive.read_sectors d'.device n (inode_sector ino) 1 ≡ (some sector, d'.device)
    old : Bytes
    bytes :
        (k : ℕ)
        → k < 512
        → sector k ≡ copy_at old (inode_offset ino) (inode_bytes inode) inode_size k
    slots : List Slot
    cache : d'.cache ≡ recache ino inode slots

  write_inode-IsStored :
      (n ino : ℕ) (inode : Inode) (d d' : Disk A)
      → write_inode n ino inode d ≡ (true, d')
      → IsStored n ino inode d'
  unfolding write_inode
  write_inode-IsStored n ino inode d d' e = elim (Bool-cases (leb max_inodes ino)) [
    | inl outside ↦
        let x : Bool × Disk A = (false, d) in
        let f : x ≡ (true, d') = rw (outside, write_inode) at e in cc
    | inr inside ↦
        let (found, a) = drive.read_sectors d.device n (inode_sector ino) 1 in
        elim (Option-cases found) [
          | inl broken ↦
              let x : Bool × Disk A = (false, record d { device = a }) in
              let f : x ≡ (true, d') = rw (inside, broken, write_inode) at e in cc
          | inr (b, read) ↦
              let b' : Bytes = copy_at b (inode_offset ino) (inode_bytes inode) inode_size in
              let (done, a') = drive.write_sectors a n (inode_sector ino) 1 b' in
              elim (Bool-cases done) [
                | inr broken ↦
                    let x : Bool × Disk A = (false, record d { device = a' }) in
                    let f : x ≡ (true, d') = rw (inside, read, broken, write_inode) at e in cc
                | inl wrote ↦
                    let x : Bool × Disk A =
                      (true, record d { device = a'; cache = recache ino inode d.cache }) in
                    let f : x ≡ (true, d') = rw (inside, read, wrote, write_inode) at e in
                    let w : drive.write_sectors a n (inode_sector ino) 1 b' ≡ (true, a') =
                      ap (λ z. (z, a')) wrote in
                    let (c, back, same) = storage.reads_back a a' n (inode_sector ino) b' w in
                    let device : a' ≡ d'.device = ap (λ p. p.1.device) f in
                    record {
                      in_table = ground (arith, inside);
                      sector = c;
                      reads =
                          subst (λ z. drive.read_sectors z n (inode_sector ino) 1 ≡ (some c, z))
                            device back;
                      old = b;
                      bytes = same;
                      slots = d.cache;
                      cache = sym (ap (λ p. p.1.cache) f);
                    }
              ]
        ]
  ]

  -- The bytes that the write puts on disk.
  stored_byte :
      (n ino : ℕ) (inode : Inode) (d' : Disk A) (w : IsStored n ino inode d') (k : ℕ)
      → k < inode_size
      → inode_offset ino + k < 512
      → w.sector (inode_offset ino + k) ≡ inode_bytes inode k
  stored_byte n ino inode d' w k below inside =
      let first : leb (inode_offset ino) (inode_offset ino + k) ≡ true = ground arith in
      let last : ltb (inode_offset ino + k) (inode_offset ino + inode_size) ≡ true =
        ground (arith, below) in
      let back : inode_offset ino + k - inode_offset ino ≡ k = omega arith in
      w.bytes (inode_offset ino + k) inside ∙ rw (first, last) (ap (inode_bytes inode) back)

  -- An inode that is not in the cache is read from its place in the sector.
  read_lem :
      (n ino : ℕ) (c : Bytes) (d : Disk A)
      → ino < max_inodes
      → cached ino d.cache ≡ none
      → drive.read_sectors d.device n (inode_sector ino) 1 ≡ (some c, d.device)
      → (read_inode n ino d).0 ≡ some (inode_of (λ k. c (inode_offset ino + k)))
  unfolding read_inode
  read_lem n ino c d below uncached reads =
      let inside : leb max_inodes ino ≡ false = ground (arith, below) in
      rw (inside, uncached, reads, read_inode) refl

  -- On a drive that gives back what was written, after an inode of 32-bit fields and twelve blocks is
  -- written, reading it gives it back, but for the bytes of `pad`, whether or not a slot of the
  -- cache has it.
  pub read_inode-write_inode :
      (n ino : ℕ) (inode : Inode) (d d' : Disk A)
      → IsInode inode
      → write_inode n ino inode d ≡ (true, d')
      → (j : Inode) × ((read_inode n ino d').0 ≡ some j) × Agree j inode
  unfolding read_inode
  read_inode-write_inode n ino inode d d' v e =
      let w = write_inode-IsStored n ino inode d d' e in
      let c : Bytes = λ k. w.sector (inode_offset ino + k) in
      elim (cached-recache ino inode w.slots) [
        | inl uncached ↦ (
          inode_of c,
          read_lem n ino w.sector d' w.in_table (ap (cached ino) w.cache ∙ uncached) w.reads,
          inode_of-Agree inode v c (λ k below.
              stored_byte n ino inode d' w k (omega (arith, below)) (omega (arith, below))),
        )
        | inr found ↦
            let inside : leb max_inodes ino ≡ false = ground (arith, w.in_table) in
            let hit : cached ino d'.cache ≡ some inode = ap (cached ino) w.cache ∙ found in
            (
              inode,
              rw (inside, hit, read_inode) refl,
              record {
                type = refl;
                size = refl;
                blocks = refl;
                ctime = refl;
                mtime = refl;
                parent = refl;
              },
            )
      ]

  -- Writing an inode overwrites the type and the size of the next one in its sector, with bytes
  -- 60 to 67 of its own `pad`.
  pub write_inode-next :
      (n ino : ℕ) (inode : Inode) (d d' : Disk A)
      → ino % 4 < 3
      → write_inode n ino inode d ≡ (true, d')
      → cached (ino + 1) d'.cache ≡ none
      → (j : Inode) × ((read_inode n (ino + 1) d').0 ≡ some j)
        × (j.type ≡ word32 inode.pad 60)
        × (j.size ≡ word32 inode.pad 64)
  write_inode-next n ino inode d d' place e uncached =
      let w = write_inode-IsStored n ino inode d d' e in
      let same_sector : inode_sector ino ≡ inode_sector (ino + 1) = omega (arith, place) in
      let reads =
        subst (λ s. drive.read_sectors d'.device n s 1 ≡ (some w.sector, d'.device)) same_sector
          w.reads in
      let c : Bytes = λ k. w.sector (inode_offset (ino + 1) + k) in
      let byte : (k : ℕ) → k < 8 → c k ≡ inode.pad (60 + k) = λ k below.
        (let at : inode_offset (ino + 1) + k ≡ inode_offset ino + (128 + k) =
            omega (arith, place) in
          let past : ltb (128 + k) 68 ≡ false = ground arith in
          let pad_at : 128 + k - 68 ≡ 60 + k = omega arith in
          ap w.sector at
          ∙ stored_byte n ino inode d' w (128 + k) (omega (arith, below))
              (omega (arith, place, below))
          ∙ rw past (ap inode.pad pad_at)) in
      (
        inode_of c,
        read_lem n (ino + 1) w.sector d' (omega (arith, place, w.in_table)) uncached reads,
        word32_ext c inode.pad 0 60 (λ k below.
            (let e : 0 + k ≡ k = omega arith in ap c e ∙ byte k (omega (arith, below)))),
        word32_ext c inode.pad 4 64 (λ k below.
            (let e : 60 + (4 + k) ≡ 64 + k = omega arith in
              byte (4 + k) (omega (arith, below)) ∙ ap inode.pad e)),
      )

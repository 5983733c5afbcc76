-- ===== src/Diskfs/Buffer.antt =====
-- What `diskfs_read` of kernel/fs/diskfs.c writes into the buffer of its caller.
use mex_os.Base.{
  ℕ, zero, suc, ◌+◌, ◌^◌, ◌≤◌, ◌<◌, ◌≡◌, inl, inr, refl, true, false, not, ◌&&◌, Option, none, some,
  ltb, leb, ◌==◌, get_or, add32, arith, Bool-cases, Option-cases,
}
use mex_os.Fs.Ops.{copy_at}
use mex_os.Diskfs.Layout.{Bytes, Inode, direct_blocks}
use mex_os.Diskfs.State.{Drive, Disk, is_mounted, read_inode}
use mex_os.Diskfs.Data.{
  block_idx, block_offset, block_sector, to_move, read_size, read_loop, diskfs_read,
}
use mex_os.Diskfs.Loops.{to_move-IsMove}

-- At most `size` bytes are read, and the buffer behind them is as before.
pub record IsRead {A : Type 0} (size : ℕ) (before : Bytes) (result : Option ℕ × Bytes × Disk A)
    : Type 0 where
  pub bounded : (count : ℕ) → result.0 ≡ some count → count ≤ size
  pub kept : (k : ℕ) → size ≤ k → result.1 k ≡ before k

-- Where nothing more is read.
ends :
    {A : Type 0} (size moved : ℕ) (before buffer : Bytes) (d : Disk A)
    → moved ≤ size
    → ((k : ℕ) → size ≤ k → buffer k ≡ before k)
    → IsRead size before (some moved, buffer, d)
ends size moved before buffer d le kept = record {
  bounded = λ count e. (let same : moved ≡ count = ground (arith, e) in omega arith);
  kept = kept;
}

fails :
    {A : Type 0} (size : ℕ) (before buffer : Bytes) (d : Disk A)
    → ((k : ℕ) → size ≤ k → buffer k ≡ before k)
    → IsRead size before (none, buffer, d)
fails size before buffer d kept = record {
  bounded = λ count e. (let f : none ≡ some count = e in cc f);
  kept = kept;
}

-- The size that is read is at most the size asked for.
read_size-le :
    (inode : Inode) (offset size : ℕ) → offset < inode.size → read_size inode offset size ≤ size
read_size-le inode offset size inside = elim (Bool-cases (ltb inode.size (add32 offset size))) [
  | inr all ↦ rw all (omega arith)
  | inl cut ↦
      let bound : inode.size < add32 offset size = ground (arith, cut) in
      rw cut (omega (arith, bound))
]

module _ {A : Type 0} ⦃drive : Drive A⦄ where
  read_loop-IsRead :
      (rounds : ℕ) (inode : Inode) (offset size moved : ℕ) (before buffer : Bytes) (d : Disk A)
      → size < 2 ^ 32
      → moved ≤ size
      → ((k : ℕ) → size ≤ k → buffer k ≡ before k)
      → IsRead size before (read_loop rounds inode offset size moved buffer d)
  unfolding read_loop
  read_loop-IsRead zero inode offset size moved before buffer d word le kept =
      ends size moved before buffer d le kept
  read_loop-IsRead (suc rounds) inode offset size moved before buffer d word le kept =
      let block = get_or inode.blocks (block_idx offset moved) 0 in
      let goes =
        ltb moved size && not (leb direct_blocks (block_idx offset moved)) && not (block == 0) in
      elim (Bool-cases goes) [
        | inr stops ↦ rw (stops, read_loop) (ends size moved before buffer d le kept)
        | inl on ↦
            let a = (drive.read_sectors d.device d.mounted_drive (block_sector block) 1).1 in
            elim (Option-cases
              (drive.read_sectors d.device d.mounted_drive (block_sector block) 1).0) [
                | inl broken ↦
                    rw (on, broken, read_loop)
                      (fails size before buffer (record d { device = a }) kept)
                | inr (b, sector) ↦
                    let below : moved < size = ground (arith, on) in
                    let m = to_move-IsMove offset size moved word below in
                    let count = to_move offset size moved in
                    let copied : Bytes =
                      copy_at buffer moved (λ k. b (block_offset offset moved + k)) count in
                    let kept' : (k : ℕ) → size ≤ k → copied k ≡ before k = λ k past.
                      (let out : ltb k (moved + count) ≡ false = ground (arith, past, m.inside) in
                        let in_range : leb moved k ≡ true = ground (arith, past, le) in
                        rw (in_range, out) (kept k past)) in
                    rw (on, sector, read_loop)
                      (read_loop-IsRead rounds inode offset size (add32 moved count) before copied
                        (record d { device = a }) word (omega (arith, m.inside, m.no_wrap)) kept')
              ]
      ]

  -- `diskfs_read` returns at most the size asked for, and never touches the buffer behind that size,
  -- whatever is on the disk and whether the drive fails.
  pub diskfs_read-IsRead :
      (ino : ℕ) (buffer : Bytes) (offset size : ℕ) (d : Disk A)
      → size < 2 ^ 32
      → IsRead size buffer (diskfs_read ino buffer offset size d)
  unfolding diskfs_read
  diskfs_read-IsRead ino buffer offset size d word = elim (Bool-cases (is_mounted d)) [
    | inr unmounted ↦ rw (unmounted, diskfs_read) (fails size buffer buffer d (λ k past. refl))
    | inl mounted ↦
        let (found, d') = read_inode d.mounted_drive ino d in
        elim (Option-cases found) [
          | inl missing ↦
              rw (mounted, missing, diskfs_read) (fails size buffer buffer d' (λ k past. refl))
          | inr (inode, there) ↦ elim (Bool-cases (leb inode.size offset)) [
            | inl past ↦
                rw (mounted, there, past, diskfs_read)
                  (ends size 0 buffer buffer d' (omega arith) (λ k past. refl))
            | inr inside ↦
                let count = read_size inode offset size in
                let least : count ≤ size =
                  read_size-le inode offset size (ground (arith, inside)) in
                let r =
                  read_loop-IsRead count inode offset count 0 buffer buffer d'
                    (omega (arith, least)) (omega arith) (λ k past. refl) in
                rw (mounted, there, inside, diskfs_read)
                  (record {
                    bounded = λ n e. (let le = r.bounded n e in omega (arith, le, least));
                    kept = λ k past. r.kept k (omega (arith, least, past));
                  })
          ]
        ]
  ]

-- ===== src/Diskfs/Loops.antt =====
-- The loops of `diskfs_read` and `diskfs_write`, kernel/fs/diskfs.c, end.
use mex_os.Base.{
  ℕ, zero, suc, ◌+◌, ◌-◌, ◌^◌, ◌≤◌, ◌<◌, ◌≡◌, inl, inr, refl, ap, ◌∙◌, false, not, ◌&&◌, ltb, leb,
  ◌==◌, get_or, add32, sub32, min, arith, Bool-cases, Option-cases,
}
use mex_os.Fs.Ops.{copy_at}
use mex_os.Diskfs.Layout.{Bytes, Inode, direct_blocks}
use mex_os.Diskfs.State.{Drive, Disk}
use mex_os.Diskfs.Data.{
  block_idx, block_offset, block_sector, to_move, read_loop, write_loop, block_for, old_block,
}

-- A round moves at least one byte, and no more than are left.
pub record IsMove (size moved count : ℕ) : Type 0 where
  pub some_bytes : 0 < count
  pub inside : moved + count ≤ size
  pub no_wrap : add32 moved count ≡ moved + count

pub to_move-IsMove :
    (offset size moved : ℕ)
    → size < 2 ^ 32
    → moved < size
    → IsMove size moved (to_move offset size moved)
to_move-IsMove offset size moved word below =
    let left : sub32 size moved ≡ size - moved = omega arith in
    let place : block_offset offset moved < 512 = omega arith in
    let count : ℕ = to_move offset size moved in
    let least : count ≡ min (size - moved) (512 - block_offset offset moved) =
      ground (arith, left) in
    record {
      some_bytes = omega (arith, least);
      inside = omega (arith, least);
      no_wrap = omega (arith, least);
    }

module _ {A : Type 0} ⦃drive : Drive A⦄ where
  read_loop_more :
      (rounds : ℕ) (inode : Inode) (offset size moved : ℕ) (buffer : Bytes) (d : Disk A)
      → size < 2 ^ 32
      → size - moved ≤ rounds
      → read_loop (suc rounds) inode offset size moved buffer d
        ≡ read_loop rounds inode offset size moved buffer d
  unfolding read_loop
  read_loop_more zero inode offset size moved buffer d word enough =
      let over : ltb moved size ≡ false = ground arith in rw (over, read_loop) refl
  read_loop_more (suc rounds) inode offset size moved buffer d word enough =
      let block = get_or inode.blocks (block_idx offset moved) 0 in
      let goes =
        ltb moved size && not (leb direct_blocks (block_idx offset moved)) && not (block == 0) in
      elim (Bool-cases goes) [
        | inr stops ↦ rw (stops, read_loop) refl
        | inl on ↦
            let a = (drive.read_sectors d.device d.mounted_drive (block_sector block) 1).1 in
            elim (Option-cases
              (drive.read_sectors d.device d.mounted_drive (block_sector block) 1).0) [
                | inl fails ↦ rw (on, fails, read_loop) refl
                | inr (b, sector) ↦
                    let below : moved < size = ground (arith, on) in
                    let m = to_move-IsMove offset size moved word below in
                    let count = to_move offset size moved in
                    rw (on, sector, read_loop)
                      (read_loop_more rounds inode offset size (add32 moved count)
                        (copy_at buffer moved (λ k. b (block_offset offset moved + k)) count)
                        (record d { device = a }) word
                        (omega (arith, m.some_bytes, m.inside, m.no_wrap, enough)))
              ]
      ]

  write_loop_more :
      (rounds : ℕ) (inode : Inode) (source : Bytes) (offset size moved : ℕ) (d : Disk A)
      → size < 2 ^ 32
      → size - moved ≤ rounds
      → write_loop (suc rounds) inode source offset size moved d
        ≡ write_loop rounds inode source offset size moved d
  unfolding write_loop
  write_loop_more zero inode source offset size moved d word enough =
      let over : ltb moved size ≡ false = ground arith in rw (over, write_loop) refl
  write_loop_more (suc rounds) inode source offset size moved d word enough =
      elim (Bool-cases (ltb moved size)) [
        | inr stops ↦ rw (stops, write_loop) refl
        | inl on ↦
            let (target, d1) = block_for inode (block_idx offset moved) d in
            elim (Option-cases target) [
              | inl no_block ↦ rw (on, no_block, write_loop) refl
              | inr ((block, inode'), found) ↦
                  let below : moved < size = ground (arith, on) in
                  let m = to_move-IsMove offset size moved word below in
                  let count = to_move offset size moved in
                  let place = block_offset offset moved in
                  let (old, d2) = old_block block place count d1 in
                  elim (Option-cases old) [
                    | inl fails ↦ rw (on, found, fails, write_loop) refl
                    | inr (b, read) ↦
                        let b' = copy_at b place (λ k. source (moved + k)) count in
                        let (done, a) =
                          drive.write_sectors d2.device d2.mounted_drive (block_sector block) 1
                            b' in
                        elim (Bool-cases done) [
                          | inr fails ↦ rw (on, found, read, fails, write_loop) refl
                          | inl wrote ↦
                              rw (on, found, read, wrote, write_loop)
                                (write_loop_more rounds inode' source offset size
                                  (add32 moved count) (record d2 { device = a }) word
                                  (omega (arith, m.some_bytes, m.inside, m.no_wrap, enough)))
                        ]
                  ]
            ]
      ]

  -- Both loops end by themselves: once there are as many rounds as bytes to move, more rounds change
  -- nothing.
  pub loops-end :
      (more rounds : ℕ) (inode : Inode) (buffer source : Bytes) (offset size moved : ℕ) (d : Disk A)
      → size < 2 ^ 32
      → size - moved ≤ rounds
      → (read_loop (more + rounds) inode offset size moved buffer d
          ≡ read_loop rounds inode offset size moved buffer d)
        × (write_loop (more + rounds) inode source offset size moved d
            ≡ write_loop rounds inode source offset size moved d)
  loops-end zero rounds inode buffer source offset size moved d word enough =
      let same : 0 + rounds ≡ rounds = omega arith in
      (
        ap (λ r. read_loop r inode offset size moved buffer d) same,
        ap (λ r. write_loop r inode source offset size moved d) same,
      )
  loops-end (suc more) rounds inode buffer source offset size moved d word enough =
      let same : suc more + rounds ≡ suc (more + rounds) = omega arith in
      let (reads, writes) =
        loops-end more rounds inode buffer source offset size moved d word enough in
      (
        ap (λ r. read_loop r inode offset size moved buffer d) same
            ∙ read_loop_more (more + rounds) inode offset size moved buffer d word (omega arith)
            ∙ reads,
        ap (λ r. write_loop r inode source offset size moved d) same
            ∙ write_loop_more (more + rounds) inode source offset size moved d word (omega arith)
            ∙ writes,
      )

-- ===== src/Layer1/Inode/Store.antt =====
-- inode_read and inode_write on a volume in use.
use filesystem.Bytes.{set_words}
use filesystem.Layer0.{Superblock, Disk, Vol, write_disk}
use filesystem.Layer0.Blocks.{read_block-done, write_block-done}
use filesystem.Layer1.Inode.{
  Inode, inodes_in_block, inode_words, inode_at, one_based, one_based-some, one_based-zero,
  one_based-none, inode_offset, inode_read, inode_write,
}
use filesystem.Layer1.Inode.Roundtrip.{
  IsInode, inode_at-set_words, inode_at-set_words_out, length-inode_words,
}
use filesystem.Layer1.Ready.{Ready, with_disk, Ready-with_disk, read_superblock-done}
use filesystem.Prelude.{
  ◌==◌, if◌then◌else◌, lt_or_le, ℕ, zero, suc, ◌+◌, ◌/◌, ◌<◌, ◌≡◌, inl, inr, none, some, arith,
}
use filesystem.Prelude.Int.{ℤ, pos}
use filesystem.Prelude.Run.{bad_inode, done, fail, Returns, value}

-- The bytes of the inode with index `k`.
abbrev pub stored : Superblock → Disk → ℕ → Inode
stored sb d k = inode_at (d (sb.ilist_block_offset + k / inodes_in_block)) (inode_offset k)

-- The disk after the inode with index `k` was written.
abbrev pub stored_disk : Superblock → Disk → ℕ → Inode → Disk
stored_disk sb d k m =
    let place : ℕ = sb.ilist_block_offset + k / inodes_in_block in
    write_disk d place (set_words (d place) (inode_offset k) (inode_words m))

module _ {v : Vol} {sb : Superblock} {d : Disk} {n : ℕ} (r : Ready v sb d n) where
  place-lt : (k : ℕ) → k < sb.num_inodes → sb.ilist_block_offset + k / inodes_in_block < n
  place-lt k h = omega (arith, r.geometry)

  pub inode_read-done :
      (k : ℕ) → k < sb.num_inodes → inode_read (pos (suc k)) v ≡ done (stored sb d k) v
  unfolding inode_read
  inode_read-done k h = ground (
    arith,
    read_superblock-done r,
    one_based-some k sb.num_inodes h,
    read_block-done r.opens (sb.ilist_block_offset + k / inodes_in_block) (place-lt k h),
  )

  pub inode_write-done :
      (k : ℕ) (m : Inode)
      → k < sb.num_inodes
      → inode_write (pos (suc k)) m v ≡ done tt (with_disk v (stored_disk sb d k m))
  unfolding inode_write
  inode_write-done k m h =
      let place : ℕ = sb.ilist_block_offset + k / inodes_in_block in
      ground (
        arith,
        read_superblock-done r,
        one_based-some k sb.num_inodes h,
        read_block-done r.opens place (place-lt k h),
        write_block-done r.opens place (set_words (d place) (inode_offset k) (inode_words m))
            (place-lt k h),
      )

  -- What is read at an inode after another was written, or the same.
  pub stored-stored_disk :
      (k j : ℕ) {m : Inode}
      → IsInode m
      → stored sb (stored_disk sb d k m) j ≡ (if k == j then m else stored sb d j)
  stored-stored_disk k j {m} im =
      let place : ℕ = sb.ilist_block_offset + k / inodes_in_block in
      ground (
        arith,
        inode_at-set_words (d place) (inode_offset k) im,
        inode_at-set_words_out (inode_words m) (d place) (inode_offset k) (inode_offset j),
        length-inode_words im,
      )

  -- A number that is not an inode's is refused.
  inode_read-bad : (i : ℤ) → one_based i sb.num_inodes ≡ none → inode_read i v ≡ fail bad_inode v
  unfolding inode_read
  inode_read-bad i e = ground (arith, read_superblock-done r)

-- What is read at a number after an inode was stored.
module _ {v : Vol} {sb : Superblock} {d : Disk} {n : ℕ} (r : Ready v sb d n) (k : ℕ) {m : Inode}
    (im : IsInode m) (valid : k < sb.num_inodes) where
  read_back :
      (j : ℕ)
      → value (inode_read (pos j) (with_disk v (stored_disk sb d k m)))
        ≡ (if suc k == j then some m else value (inode_read (pos j) v))
  read_back zero = ground (
    arith,
    one_based-zero sb.num_inodes,
    inode_read-bad r (pos 0),
    inode_read-bad (Ready-with_disk r (stored_disk sb d k m)) (pos 0),
  )
  read_back (suc j) = elim (lt_or_le j sb.num_inodes) [
    | inl h ↦ ground (
      arith,
      inode_read-done r j h,
      inode_read-done (Ready-with_disk r (stored_disk sb d k m)) j h,
      stored-stored_disk r k j im,
    )
    | inr h ↦ ground (
      arith,
      one_based-none j sb.num_inodes h,
      inode_read-bad r (pos (suc j)),
      inode_read-bad (Ready-with_disk r (stored_disk sb d k m)) (pos (suc j)),
    )
  ]

  -- inode_write stores an inode that fits its fields where inode_read finds it, at every valid number;
  -- what inode_read gives at every other number, valid or not, stays.
  pub inode_read-inode_write :
      (j : ℕ)
      → Returns
          (λ _ w.
            value (inode_read (pos j) w)
            ≡ (if suc k == j then some m else value (inode_read (pos j) v)))
          (inode_write (pos (suc k)) m v)
  inode_read-inode_write j = rw (inode_write-done r k m valid) (read_back j)

-- ===== src/Layer2/Keeps.antt =====
-- The calls of layer2.c keep a volume in use, whatever their arguments and however they end.
pub mod Blocks
pub mod Dirs
pub mod Paths
use filesystem.Bytes.{Block}
use filesystem.Layer0.{Superblock}
use filesystem.Layer1.Inode.{Inode}
use filesystem.Layer1.Keeps.{
  MayLoop, keep_pure, keep_if, keep_bool, keep_attempt, keep_get, keep_bind, keep_seq,
}
use filesystem.Layer1.Keeps.Calls.{
  Keeps, inode_read-Keeps, inode_write-Keeps, inode_free-Keeps, data_read-Keeps, InUse-DataCalls,
}
use filesystem.Layer2.File.{read_blocks, read_i, write_blocks, write_i, truncate, del}
use filesystem.Layer2.Keeps.Blocks.{get_nth_datablock_keeps, write_round_keeps}
use filesystem.Prelude.{ltb, leb, ◌==◌, ℕ, zero, suc, ◌-◌, min, false}
use filesystem.Prelude.Int.{pos}

module _ (sb : Superblock) (n : ℕ) where
  read_blocks-Keeps :
      (inod : Inode) (end_block end_size rounds i start bytes : ℕ) (buf : Block)
      → Keeps MayLoop sb n (read_blocks inod end_block end_size rounds i start bytes buf)
  unfolding read_blocks
  read_blocks-Keeps inod eb es zero i start bytes buf = keep_pure _
  read_blocks-Keeps inod eb es (suc rounds) i start bytes buf =
      keep_bind (get_nth_datablock_keeps (InUse-DataCalls sb n) inod i false) λ nth.
        keep_bind (data_read-Keeps MayLoop sb n _) λ b. read_blocks-Keeps inod eb es rounds _ _ _ _

  pub read_i-Keeps :
      (inum : ℕ) (buf : Block) (offset size : ℕ) → Keeps MayLoop sb n (read_i inum buf offset size)
  unfolding read_i
  read_i-Keeps inum buf offset size = keep_bind (inode_read-Keeps MayLoop sb n (pos inum)) λ node.
      keep_if (leb node.size offset) (keep_pure _) (
        keep_if (min (node.size - offset) size == 0) (keep_pure _)
          (read_blocks-Keeps node _ _ _ _ _ _ buf))

  write_blocks-Keeps :
      (inum original offset eb es : ℕ) (buf : Block) (rounds : ℕ) (inod : Inode) (i start bytes : ℕ)
      → Keeps MayLoop sb n (write_blocks inum original offset eb es buf rounds inod i start bytes)
  unfolding write_blocks
  write_blocks-Keeps inum original offset eb es buf zero inod i start bytes = keep_pure _
  write_blocks-Keeps inum original offset eb es buf (suc rounds) inod i start bytes =
      keep_bind (write_round_keeps (InUse-DataCalls sb n) inod buf i start _ bytes) λ inod'.
        keep_seq (keep_attempt (inode_write-Keeps MayLoop sb n _ _))
          (write_blocks-Keeps inum original offset eb es buf rounds _ _ _ _)

  pub write_i-Keeps :
      (inum : ℕ) (buf : Block) (offset size : ℕ) → Keeps MayLoop sb n (write_i inum buf offset size)
  unfolding write_i
  write_i-Keeps inum buf offset size =
      keep_bind (inode_read-Keeps MayLoop sb n (pos inum))
        λ node. write_blocks-Keeps inum _ _ _ _ buf _ node _ _ _

  pub truncate-Keeps : (inum offset : ℕ) → Keeps MayLoop sb n (truncate inum offset)
  unfolding truncate
  truncate-Keeps inum offset = keep_bind (inode_read-Keeps MayLoop sb n (pos inum)) λ node.
      keep_bool (ltb node.size offset)
        (keep_seq (keep_attempt (inode_write-Keeps MayLoop sb n _ _)) (keep_pure tt))
        (keep_bind keep_get λ v.
          keep_seq (keep_attempt (write_i-Keeps inum _ offset _))
            (keep_seq (keep_attempt (inode_write-Keeps MayLoop sb n _ _)) (keep_pure tt)))

  pub del-Keeps : (inum : ℕ) → Keeps MayLoop sb n (del inum)
  unfolding del
  del-Keeps inum = keep_seq (truncate-Keeps inum 0) (inode_free-Keeps MayLoop sb n (pos inum))

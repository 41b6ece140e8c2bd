-- ===== src/Layer2/Contents/ZeroRound.antt =====
-- A round of write_i for a full block, when the bytes that it tests are zeros.
use filesystem.Bytes.{Block, block_size, all_zero}
use filesystem.Layer0.{Superblock, Disk, Vol}
use filesystem.Layer1.Data.View.{view}
use filesystem.Layer1.FreeList.Chain.{IsFreeList}
use filesystem.Layer1.Inode.{Inode, num_direct}
use filesystem.Layer1.Ready.{Ready}
use filesystem.Layer2.BlockMap.{triple_limit, rm_nth_datablock}
use filesystem.Layer2.Contents.CutRoot.{Removed}
use filesystem.Layer2.Contents.NewBlock.{FileBudget}
use filesystem.Layer2.Contents.Remove.{rm_nth_datablock-Removed}
use filesystem.Layer2.File.{rm_block, write_round}
use filesystem.Prelude.{length, ℕ, ◌<◌, ◌≡◌, true, List}
use filesystem.Prelude.Run.{Returns, Returns-done}

module _ {v : Vol} {sb : Superblock} {d : Disk} {n : ℕ} {ps : List ℕ} (r : Ready v sb d n)
    (m : Inode) (outside : ℕ → ℕ) (l : IsFreeList sb.data_size (view sb d) sb.free_list_head ps)
    (directs : length m.direct_blocks ≡ num_direct)
    (b : FileBudget (view sb d) sb.data_size ps m outside) where
  -- On a volume in use with a free list, and an inode with ten direct pointers of which no block is
  -- free, twice in the file or in use elsewhere, a round of write_i for a full block succeeds at every
  -- block number that a file can have if the first 4096 bytes of the buffer are zeros, wherever in the
  -- buffer the bytes of the round stand: it removes the block, so that the file reads as zeros there,
  -- keeps every other block of the file and every block in use elsewhere, and loses no block.
  pub write_round-Removed :
      (k : ℕ) (buf : Block) (bytes : ℕ)
      → k < triple_limit
      → all_zero buf 0 block_size ≡ true
      → Returns (Removed n sb d ps m k outside) (write_round m buf k 0 block_size bytes v)
  unfolding write_round rm_block
  write_round-Removed k buf bytes below zeros =
      let (m', v', run, g) =
        Returns-done (rm_nth_datablock m k v)
          (rm_nth_datablock-Removed r m outside l directs b k below) in
      rw (write_round, zeros) (rw (rm_block, run) g)

-- ===== src/Layer2/Contents/FullRound.antt =====
-- A round of write_i for a full block that finds no free block takes back what it made.
use filesystem.Bytes.{Block, block_size, zero_block, copy, all_zero}
use filesystem.Layer0.{Superblock, Disk, Vol}
use filesystem.Layer1.Data.View.{view}
use filesystem.Layer1.FreeList.Chain.{IsFreeList}
use filesystem.Layer1.Inode.{Inode, num_direct}
use filesystem.Layer1.Ready.{Ready}
use filesystem.Layer2.BlockMap.{triple_limit, Nth, get_nth_datablock, rm_nth_datablock}
use filesystem.Layer2.Contents.Extend.{FileGrew}
use filesystem.Layer2.Contents.NewBlock.{FileBudget}
use filesystem.Layer2.Contents.Remove.{rm_nth_datablock-Removed}
use filesystem.Layer2.Contents.Roots.{with_pointers}
use filesystem.Layer2.Contents.WriteRound.{
  FileWrote, RoundEnds, wrote, disk_full, write_round-RoundEnds,
}
use filesystem.Layer2.File.{rm_block, write_round}
use filesystem.Prelude.{
  ◌==◌, if◌then◌else◌, length, ℕ, ◌-◌, ◌<◌, ◌≡◌, refl, ap, ◌∙◌, true, false, List, arith,
}
use filesystem.Prelude.Run.{data_full, err, Run, done, fail, Returns-done}

-- A block of zeros written after the file grew, from the state before.
module _ {n : ℕ} {sb : Superblock} {d : Disk} {ps : List ℕ} {m : Inode} {k : ℕ} {outside : ℕ → ℕ}
    {q : Nth} {v1 : Vol} (g : FileGrew n sb d ps m k outside q v1) where
  grown_budget :
      FileBudget (view sb d) sb.data_size ps m outside
      → FileBudget (view g.sb' g.d') g.sb'.data_size g.ps' q.inode outside
  grown_budget b a = rw g.same_size (omega (arith, b a, g.conserved a))

  FileWrote-FileGrew :
      {m2 : Inode} {v2 : Vol}
      → FileWrote n g.sb' g.d' g.ps' q.inode k outside zero_block m2 v2
      → FileWrote n sb d ps m k outside zero_block m2 v2
  FileWrote-FileGrew {m2} h = record {
    sb' = h.sb';
    d' = h.d';
    ps' = h.ps';
    ready = h.ready;
    same_size = h.same_size ∙ g.same_size;
    free_list = h.free_list;
    conserved = λ a. h.conserved a ∙ g.conserved a;
    contents = λ i l.
        h.contents i l ∙ ap (λ (x : Block). if i == k then zero_block else x) (g.contents i l);
    frame = λ a l. h.frame a l ∙ g.frame a l;
    fields =
        (h.fields.0 ∙ ap (λ (x : Inode). with_pointers x m2) g.fields.0, h.fields.1 ∙ g.fields.1);
  }

-- How a round of write_i for a full block ends: the bytes are in the file, or get_nth_datablock reports
-- DATA_FULL, the round fails with it, and the file reads as if zeros were written to the block.
pub data FullRoundEnds (n : ℕ) (sb : Superblock) (d : Disk) (ps : List ℕ) (m : Inode) (k : ℕ)
    (outside : ℕ → ℕ) (blk : Block) (v : Vol) (run : Run Vol Inode) : Type 0 where
  put_in :
      (m' : Inode) (v' : Vol)
      → run ≡ done m' v'
      → FileWrote n sb d ps m k outside blk m' v'
      → FullRoundEnds n sb d ps m k outside blk v run
  taken_back :
      (q : Nth) (v1 : Vol) (m' : Inode) (v' : Vol)
      → get_nth_datablock m k true v ≡ done q v1
      → q.block ≡ err data_full
      → run ≡ fail data_full v'
      → FileWrote n sb d ps m k outside zero_block m' v'
      → FullRoundEnds n sb d ps m k outside blk v run

module _ {v : Vol} {sb : Superblock} {d : Disk} {n : ℕ} {ps : List ℕ} (r : Ready v sb d n)
    (m : Inode) (outside : ℕ → ℕ) (l : IsFreeList sb.data_size (view sb d) sb.free_list_head ps)
    (directs : length m.direct_blocks ≡ num_direct)
    (b : FileBudget (view sb d) sb.data_size ps m outside) where
  failed_run :
      (k : ℕ) (buf : Block) (start size bytes : ℕ) {q : Nth} {v1 : Vol} {m2 : Inode} {v2 : Vol}
      → all_zero buf start (size - start) ≡ false
      → get_nth_datablock m k true v ≡ done q v1
      → q.block ≡ err data_full
      → rm_nth_datablock q.inode k v1 ≡ done m2 v2
      → write_round m buf k start size bytes v ≡ fail data_full v2
  unfolding write_round rm_block
  failed_run k buf start size bytes nonzero run full removed =
      rw (write_round, nonzero) (rw run (rw full (rw (rm_block, removed) refl)))

  -- A round that tests bytes that are not all zeros fails where get_nth_datablock reports DATA_FULL.
  pub RoundEnds-FullRoundEnds :
      (k : ℕ) (buf blk : Block) (start size bytes : ℕ)
      → k < triple_limit
      → all_zero buf start (size - start) ≡ false
      → RoundEnds n sb d ps m k outside blk v (write_round m buf k start size bytes v)
      → FullRoundEnds n sb d ps m k outside blk v (write_round m buf k start size bytes v)
  RoundEnds-FullRoundEnds k buf blk start size bytes below nonzero (wrote m' v' run h) =
      put_in m' v' run h
  RoundEnds-FullRoundEnds k buf blk start size bytes below nonzero (disk_full q v1 run full g) =
      let (m2, v2, removed, h) = Returns-done (rm_nth_datablock q.inode k v1) (
        rm_nth_datablock-Removed g.ready q.inode outside g.free_list (g.fields.1 ∙ directs)
          (grown_budget g b) k below) in
      taken_back q v1 m2 v2 run full (failed_run k buf start size bytes nonzero run full removed)
        (FileWrote-FileGrew g h.wrote)

  pub write_round-FullRoundEnds :
      (k : ℕ) (buf : Block) (bytes : ℕ)
      → k < triple_limit
      → all_zero buf 0 block_size ≡ false
      → FullRoundEnds n sb d ps m k outside
          (copy zero_block 0 buf bytes block_size)
          v
          (write_round m buf k 0 block_size bytes v)
  write_round-FullRoundEnds k buf bytes below nonzero =
      RoundEnds-FullRoundEnds k buf (copy zero_block 0 buf bytes block_size) 0 block_size bytes
        below nonzero (write_round-RoundEnds r m outside l directs b k buf bytes below nonzero)

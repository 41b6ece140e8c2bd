-- ===== src/Layer2/Contents/WriteRound.antt =====
-- A round of write_i for a full block: what it leaves of the file and of the free list.
use filesystem.Bytes.{Block, block_size, zero_block, copy, all_zero}
use filesystem.Layer0.{Superblock, Disk, Vol}
use filesystem.Layer1.Data.View.{view, upd, write_data, data_write-done, view-write_data}
use filesystem.Layer1.FreeList.Chain.{free_blocks, IsFreeList, IsChain-upd, free_blocks-upd}
use filesystem.Layer1.Inode.{Inode, num_direct}
use filesystem.Layer1.Ready.{Ready, with_disk, Ready-with_disk}
use filesystem.Layer2.BlockMap.{triple_limit, Nth, get_nth_datablock}
use filesystem.Layer2.Contents.{block_of}
use filesystem.Layer2.Contents.Extend.{At, At-below, FileGrew}
use filesystem.Layer2.Contents.FileLeaf.{field_counted, file_count-upd, contents-upd}
use filesystem.Layer2.Contents.NewBlock.{FileBudget, get_nth_datablock-FileGrew}
use filesystem.Layer2.Contents.Roots.{SameFields, file_count, file_count-split}
use filesystem.Layer2.File.{put_bytes, write_round}
use filesystem.Prelude.{
  ◌==◌, if◌then◌else◌, length, count, ℕ, ◌+◌, ◌≤◌, ◌<◌, ◌≡◌, refl, ap, ◌∙◌, ◌≢◌, inl, inr, true,
  false, List, arith,
}
use filesystem.Prelude.Run.{data_full, err, Run, done, Returns-done}

-- What a round leaves that writes `blk` as the block `k` of a file: that block of the file holds it, every
-- other block of the file and every block in use elsewhere stays, and no block is lost or used twice.
pub record FileWrote (n : ℕ) (sb : Superblock) (d : Disk) (ps : List ℕ) (m : Inode) (k : ℕ)
    (outside : ℕ → ℕ) (blk : Block) (m' : Inode) (v' : Vol) : Type 0 where
  pub sb' : Superblock
  pub d' : Disk
  pub ps' : List ℕ
  pub ready : Ready v' sb' d' n
  pub same_size : sb'.data_size ≡ sb.data_size
  pub free_list : IsFreeList sb'.data_size (view sb' d') sb'.free_list_head ps'
  pub conserved :
      (a : ℕ)
      → count a (free_blocks (view sb' d') ps') + file_count (view sb' d') m' a
        ≡ count a (free_blocks (view sb d) ps) + file_count (view sb d) m a
  pub contents :
      (i : ℕ)
      → i < triple_limit
      → view sb' d' (block_of (view sb' d') m' i)
        ≡ (if i == k then blk else view sb d (block_of (view sb d) m i))
  pub frame : (a : ℕ) → 0 < outside a → view sb' d' a ≡ view sb d a
  pub fields : SameFields m m'

module _ {v1 : Vol} {sb : Superblock} {d : Disk} {n : ℕ} {ps : List ℕ} {m : Inode} {k : ℕ}
    {outside : ℕ → ℕ} (below : k < triple_limit)
    (b : FileBudget (view sb d) sb.data_size ps m outside) {q : Nth}
    (g : FileGrew n sb d ps m k outside q v1) where
  abbrev pub place : ℕ
  place = block_of (view g.sb' g.d') q.inode k

  module _ (found : place ≢ 0) where
    -- The uses of the block that was found.
    in_file : 0 < file_count (view g.sb' g.d') q.inode place
    in_file =
        let at : At k = At-below k below in
        omega (
          arith,
          field_counted (view g.sb' g.d') place zero_block refl found q.inode at refl,
          file_count-split (view g.sb' g.d') q.inode at.code place at.code_fits,
        )

    pub place_uses :
        (place ≤ g.sb'.data_size)
        × (0 < place)
        × (file_count (view g.sb' g.d') q.inode place ≤ 1)
        × (count place (free_blocks (view g.sb' g.d') g.ps') ≡ 0)
        × (outside place ≡ 0)
    place_uses = rw g.same_size (ground (arith, in_file, b place, g.conserved place))

    abbrev pub put_disk : Block → Disk
    put_disk blk = write_data g.sb' g.d' place blk

    view_put : (blk : Block) → view g.sb' (put_disk blk) ≡ upd (view g.sb' g.d') place blk
    view_put blk = view-write_data g.ready place blk place_uses.1

    still_free :
        (blk : Block)
        → free_blocks (view g.sb' (put_disk blk)) g.ps' ≡ free_blocks (view g.sb' g.d') g.ps'
    still_free blk =
        ap (λ (f : ℕ → Block). free_blocks f g.ps') (view_put blk)
        ∙ free_blocks-upd (view g.sb' g.d') place blk g.ps' place_uses.3

    pub FileWrote-put :
        (blk : Block) → FileWrote n sb d ps m k outside blk q.inode (with_disk v1 (put_disk blk))
    FileWrote-put blk = record {
      sb' = g.sb';
      d' = put_disk blk;
      ps' = g.ps';
      ready = Ready-with_disk g.ready (put_disk blk);
      same_size = g.same_size;
      free_list = record {
        chain = rw (view_put blk) (
            IsChain-upd (view g.sb' g.d') place blk g.sb'.free_list_head g.ps' place_uses.3
              g.free_list.chain);
        once = λ a. rw (still_free blk) (g.free_list.once a);
      };
      conserved = λ a.
          rw (still_free blk, view_put blk)
            (omega (
              arith,
              g.conserved a,
              file_count-upd (view g.sb' g.d') place blk refl found q.inode (At-below k below) refl
                  place_uses.2 a,
            ));
      contents = λ i l.
          ap (λ (f : ℕ → Block). f (block_of f q.inode i)) (view_put blk)
          ∙ contents-upd (view g.sb' g.d') place blk refl found q.inode (At-below k below) refl
              place_uses.2 i l
          ∙ ap (λ (c : Block). if i == k then blk else c) (g.contents i l);
      frame = λ a l.
          ap (λ (f : ℕ → Block). f a) (view_put blk) ∙ ground (arith, l, place_uses, g.frame a l);
      fields = g.fields;
    }

-- How a round of write_i ends for a full block: the bytes are in the file, or get_nth_datablock reported
-- DATA_FULL, and left the contents of the file.
pub data RoundEnds (n : ℕ) (sb : Superblock) (d : Disk) (ps : List ℕ) (m : Inode) (k : ℕ)
    (outside : ℕ → ℕ) (blk : Block) (v : Vol) (run : Run Vol Inode) : Type 0 where
  wrote :
      (m' : Inode) (v' : Vol)
      → run ≡ done m' v'
      → FileWrote n sb d ps m k outside blk m' v'
      → RoundEnds n sb d ps m k outside blk v run
  disk_full :
      (q : Nth) (v1 : Vol)
      → get_nth_datablock m k true v ≡ done q v1
      → q.block ≡ err data_full
      → FileGrew n sb d ps m k outside q v1
      → RoundEnds n sb d ps m k outside blk v run

module _ {v : Vol} {sb : Superblock} {d : Disk} {n : ℕ} {ps : List ℕ} (r : Ready v sb d n)
    (m : Inode) (outside : ℕ → ℕ) (l : IsFreeList sb.data_size (view sb d) sb.free_list_head ps)
    (directs : length m.direct_blocks ≡ num_direct)
    (b : FileBudget (view sb d) sb.data_size ps m outside) where
  -- On a volume in use with a free list, and an inode with ten direct pointers of which no block is free,
  -- twice in the file or in use elsewhere, a round of write_i for a full block of bytes succeeds at
  -- every block number that a file can have, if the first 4096 bytes of the buffer, which it tests,
  -- are not all zeros: that block of the file then holds the bytes, every other block of the file and
  -- every block in use elsewhere stays, and no block is lost or used twice. Otherwise
  -- get_nth_datablock reports DATA_FULL, no block is free, and the contents of the file stay.
  pub write_round-RoundEnds :
      (k : ℕ) (buf : Block) (bytes : ℕ)
      → k < triple_limit
      → all_zero buf 0 block_size ≡ false
      → RoundEnds n sb d ps m k outside
          (copy zero_block 0 buf bytes block_size)
          v
          (write_round m buf k 0 block_size bytes v)
  unfolding write_round put_bytes
  write_round-RoundEnds k buf bytes below nonzero =
      let blk : Block = copy zero_block 0 buf bytes block_size in
      let (q, v1, run, g) =
        Returns-done (get_nth_datablock m k true v)
          (get_nth_datablock-FileGrew r m outside l directs b k below) in
      elim g.ended [
        | inl e ↦ disk_full q v1 run e.0 g
        | inr e ↦
            wrote q.inode (with_disk v1 (put_disk below b g e.1 blk))
              (rw nonzero (
                rw run (
                  rw e.0 (
                    rw
                      (data_write-done g.ready (place below b g) blk (place_uses below b g e.1).1
                        (place_uses below b g e.1).0)
                      refl))))
              (FileWrote-put below b g e.1 blk)
      ]

-- ===== src/Layer2/Contents/PartRound.antt =====
-- A round of write_i for a part of a block: the bytes go into what the block held.
use mathlib.Core.Path.{subst}
use filesystem.Bytes.{Block, block_size, zero_block, copy, all_zero}
use filesystem.Layer0.{Superblock, Disk, Vol}
use filesystem.Layer1.Data.{data_read}
use filesystem.Layer1.Data.View.{view, data_read-done, data_write-done}
use filesystem.Layer1.FreeList.Chain.{IsFreeList}
use filesystem.Layer1.Inode.{Inode, num_direct}
use filesystem.Layer1.Ready.{Ready, with_disk}
use filesystem.Layer2.BlockMap.{triple_limit, Nth, get_nth_datablock}
use filesystem.Layer2.Contents.{block_of}
use filesystem.Layer2.Contents.Created.{OnDone, get_nth_datablock-created}
use filesystem.Layer2.Contents.Extend.{At, At-below, FileGrew}
use filesystem.Layer2.Contents.NewBlock.{FileBudget, get_nth_datablock-FileGrew}
use filesystem.Layer2.Contents.Valid.{root-IsTree}
use filesystem.Layer2.Contents.WriteRound.{
  place, place_uses, put_disk, FileWrote-put, RoundEnds, wrote, disk_full,
}
use filesystem.Layer2.File.{put_bytes, write_round}
use filesystem.Prelude.{
  ◌==◌, if◌then◌else◌, Bool-cases, length, ℕ, ◌-◌, ◌<◌, ◌≡◌, refl, sym, ap, ◌∙◌, ◌≢◌, inl, inr,
  Bool, true, false, ◌&&◌, List,
}
use filesystem.Prelude.Int.{pos}
use filesystem.Prelude.Run.{ok, done, pure, Returns-done}

not_removed : (b : Bool) → (b && false) ≡ false
not_removed true = refl
not_removed false = refl

module _ {v : Vol} {sb : Superblock} {d : Disk} {n : ℕ} {ps : List ℕ} (r : Ready v sb d n)
    (m : Inode) (outside : ℕ → ℕ) (l : IsFreeList sb.data_size (view sb d) sb.free_list_head ps)
    (directs : length m.direct_blocks ≡ num_direct)
    (b : FileBudget (view sb d) sb.data_size ps m outside) where
  -- What the file held at a block number.
  abbrev held : ℕ → Block
  held k = view sb d (block_of (view sb d) m k)

  module _ {k : ℕ} (below : k < triple_limit) {q : Nth} {v1 : Vol}
      (run : get_nth_datablock m k true v ≡ done q v1) (g : FileGrew n sb d ps m k outside q v1)
      (found : block_of (view g.sb' g.d') q.inode k ≢ 0) where
    made_empty : q.created ≡ true → held k ≡ zero_block
    made_empty c =
        let at : At k = At-below k below in
        let new =
          subst (OnDone (λ (q : Nth) (w : Vol). q.created ≡ true → block_of (view sb d) m k ≡ 0))
            run
            (get_nth_datablock-created r m k at
              (root-IsTree (view sb d) sb.data_size ps m outside refl b at.code at.code_fits)) in
        ap (view sb d) (new c)

    -- write_i starts from what the block held, whether it was just created or is read.
    old_block :
        (if q.created
            then pure zero_block
            else data_read (pos (block_of (view g.sb' g.d') q.inode k)))
          v1
        ≡ done (held k) v1
    old_block = elim (Bool-cases q.created) [
      | inl c ↦ rw c (ap (λ (x : Block). done x v1) (sym (made_empty c)))
      | inr c ↦ rw c (
          data_read-done g.ready (place below b g) (place_uses below b g found).0
          ∙ ap (λ (x : Block). done x v1) (g.contents k below))
    ]

    -- The round, where the block does not come out all zeros.
    part_round-done :
        (buf : Block) (start size bytes : ℕ)
        → q.block ≡ ok (place below b g)
        → (size == block_size && start == 0) ≡ false
        → all_zero (copy (held k) start buf bytes (size - start)) 0 block_size ≡ false
        → write_round m buf k start size bytes v
          ≡ done q.inode (
              with_disk v1
                (put_disk below b g found (copy (held k) start buf bytes (size - start))))
    unfolding write_round put_bytes
    part_round-done buf start size bytes e part nonzero =
        let uses = place_uses below b g found in
        let blk : Block = copy (held k) start buf bytes (size - start) in
        rw part (
          rw (not_removed (all_zero buf start (size - start))) (
            rw run (
              rw e (
                rw old_block (
                  rw nonzero
                    (rw (data_write-done g.ready (place below b g) blk uses.1 uses.0) refl))))))

  -- As for a full block, if the block does not come out all zeros.
  pub part_round-RoundEnds :
      (k : ℕ) (buf : Block) (start size bytes : ℕ)
      → k < triple_limit
      → (size == block_size && start == 0) ≡ false
      → all_zero (copy (held k) start buf bytes (size - start)) 0 block_size ≡ false
      → RoundEnds n sb d ps m k outside
          (copy (held k) start buf bytes (size - start))
          v
          (write_round m buf k start size bytes v)
  part_round-RoundEnds k buf start size bytes below part nonzero =
      let blk : Block = copy (held k) start buf bytes (size - start) in
      let (q, v1, run, g) =
        Returns-done (get_nth_datablock m k true v)
          (get_nth_datablock-FileGrew r m outside l directs b k below) in
      elim g.ended [
        | inl e ↦ disk_full q v1 run e.0 g
        | inr e ↦
            wrote q.inode (with_disk v1 (put_disk below b g e.1 blk))
              (part_round-done below run g e.1 buf start size bytes e.0 part nonzero)
              (FileWrote-put below b g e.1 blk)
      ]

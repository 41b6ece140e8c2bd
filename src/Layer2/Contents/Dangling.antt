-- ===== src/Layer2/Contents/Dangling.antt =====
-- truncate keeps the pointers of the inode that it read.
use mathlib.Core.Path.{subst}
use filesystem.Bytes.{Block, block_size, zero_block, copy, all_zero}
use filesystem.Layer0.{Superblock, Disk, Vol, Op}
use filesystem.Layer1.Bitmap.Marks.{view-stored_disk}
use filesystem.Layer1.Data.View.{view}
use filesystem.Layer1.FreeList.Chain.{free_blocks, IsFreeList}
use filesystem.Layer1.Inode.{Inode, inode_words, inode_write}
use filesystem.Layer1.Inode.Roundtrip.{IsInode}
use filesystem.Layer1.Inode.Store.{
  stored, stored_disk, inode_read-done, inode_write-done, stored-stored_disk,
}
use filesystem.Layer1.Ready.{Ready, with_disk, Ready-with_disk}
use filesystem.Layer2.BlockMap.{locate, get_root}
use filesystem.Layer2.Contents.{block_of}
use filesystem.Layer2.Contents.CutRoot.{Removed}
use filesystem.Layer2.Contents.Inodes.{Ready-same}
use filesystem.Layer2.Contents.WriteAll.{round_kept}
use filesystem.Layer2.Contents.Writing.{IsWritable}
use filesystem.Layer2.Contents.ZeroRound.{write_round-Removed}
use filesystem.Layer2.File.{u32, write_round, grown, write_blocks, write_i, truncate}
use filesystem.Prelude.{
  ltb, get_or, count, ℕ, zero, suc, ◌+◌, ◌-◌, ◌≤◌, ◌<◌, ◌≡◌, refl, sym, ap, ◌∙◌, ◌≢◌, true, false,
  List, arith,
}
use filesystem.Prelude.Int.{pos}
use filesystem.Prelude.Run.{done, pure, get, ◌>>=◌, ◌>>◌, attempt, Returns, Returns-done}

all_zero-zeros :
    (b : Block) (from n : ℕ)
    → ((j : ℕ) → from ≤ j → j < from + n → b j ≡ 0)
    → all_zero b from n ≡ true
unfolding all_zero
all_zero-zeros b from zero h = refl
all_zero-zeros b from (suc n) h = ground (
  arith,
  h from (omega arith) (omega arith),
  all_zero-zeros b (from + 1) n (λ j l l'. h j (omega (arith, l)) (omega (arith, l'))),
)

cleared_buffer : (b : Block) → all_zero (copy b 0 zero_block 0 block_size) 0 block_size ≡ true
unfolding copy
cleared_buffer b =
    all_zero-zeros (copy b 0 zero_block 0 block_size) 0 block_size λ j l l'. ground (arith, l, l')

-- The inode with another size.
abbrev pub resized : Inode → ℕ → Inode
resized m s = record m { size = s }

resized-IsInode : (m : Inode) (s : ℕ) → s < 4294967296 → IsInode m → IsInode (resized m s)
unfolding inode_words
resized-IsInode m s h im = record {
  word_fields = (
    im.word_fields.0,
    (
      im.word_fields.1.0,
      (im.word_fields.1.1.0, (im.word_fields.1.1.1.0, (h, im.word_fields.1.1.1.1.1))),
    ),
  );
  directs = im.directs;
}

-- The first block of a file is the first direct one.
first_block : (f : ℕ → Block) (m : Inode) → block_of f m 0 ≡ get_or m.direct_blocks 0 0
unfolding block_of locate get_root
first_block f m = refl

-- An empty file with the pointer to a block that is free.
pub record IsDangling (n : ℕ) (k p : ℕ) (v' : Vol) : Type 0 where
  pub sb' : Superblock
  pub d' : Disk
  pub ps' : List ℕ
  pub ready : Ready v' sb' d' n
  pub free_list : IsFreeList sb'.data_size (view sb' d') sb'.free_list_head ps'
  pub no_bytes : (stored sb' d' k).size ≡ 0
  pub still_named : block_of (view sb' d') (stored sb' d' k) 0 ≡ p
  pub is_free : count p (free_blocks (view sb' d') ps') ≡ 1

module _ {v : Vol} {sb : Superblock} {d : Disk} {n : ℕ} {ps : List ℕ} {k : ℕ} {outside : ℕ → ℕ}
    (w : IsWritable v sb d n ps k outside) {m1 : Inode} {v1 : Vol}
    (g : Removed n sb d ps (stored sb d k) 0 outside m1 v1)
    (named : block_of (view sb d) (stored sb d k) 0 ≢ 0) (valid : k < g.wrote.sb'.num_inodes)
    (m2 : Inode) where
  abbrev after_write : Disk
  after_write = stored_disk g.wrote.sb' g.wrote.d' k m2

  abbrev at_end : Disk
  at_end = stored_disk g.wrote.sb' after_write k (resized (stored sb d k) 0)

  view_end : view g.wrote.sb' at_end ≡ view g.wrote.sb' g.wrote.d'
  view_end =
      view-stored_disk g.wrote.ready.geometry after_write k valid (resized (stored sb d k) 0)
      ∙ view-stored_disk g.wrote.ready.geometry g.wrote.d' k valid m2

  ready_between : Ready (with_disk v1 after_write) g.wrote.sb' after_write n
  ready_between = Ready-with_disk g.wrote.ready after_write

  stored_end : stored g.wrote.sb' at_end k ≡ resized (stored sb d k) 0
  stored_end =
      stored-stored_disk ready_between k k (resized-IsInode (stored sb d k) 0 (omega arith) w.fits)
      ∙ ground arith

  IsDangling-end :
      IsDangling n k
        (block_of (view sb d) (stored sb d k) 0)
        (with_disk (with_disk v1 after_write) at_end)
  IsDangling-end = record {
    sb' = g.wrote.sb';
    d' = at_end;
    ps' = g.wrote.ps';
    ready = Ready-with_disk ready_between at_end;
    free_list = rw view_end g.wrote.free_list;
    no_bytes = rw stored_end refl;
    still_named =
        ap (λ (x : Inode). block_of (view g.wrote.sb' at_end) x 0) stored_end
        ∙ first_block (view g.wrote.sb' at_end) (resized (stored sb d k) 0)
        ∙ sym (first_block (view sb d) (stored sb d k));
    is_free = rw view_end (g.given_back named);
  }

module _ {v : Vol} {sb : Superblock} {d : Disk} {n : ℕ} {ps : List ℕ} {k : ℕ} {outside : ℕ → ℕ}
    (w : IsWritable v sb d n ps k outside) where
  -- write_i of one block of zeros.
  one_round :
      (buf : Block) {m1 : Inode} {v1 : Vol}
      → write_round (stored sb d k) buf 0 0 block_size 0 v ≡ done m1 v1
      → (g : Removed n sb d ps (stored sb d k) 0 outside m1 v1) → k < g.wrote.sb'.num_inodes
      → write_i (suc k) buf 0 block_size v
        ≡ done block_size (
            with_disk v1
              (stored_disk g.wrote.sb' g.wrote.d' k (grown (stored sb d k).size 0 block_size m1)))
  unfolding write_i write_blocks
  one_round buf {m1} run g valid = rw (inode_read-done w.ready k w.valid) (
      rw (write_blocks, run)
        (rw (inode_write-done g.wrote.ready k (grown (stored sb d k).size 0 block_size m1) valid)
          refl))

  -- What truncate to 0 does with the inode and the size that it read.
  abbrev truncate_to_zero : Inode → ℕ → Op (Unit {0})
  truncate_to_zero m s = elim (ltb s 0) [
    | true ↦ do attempt (inode_write (pos (suc k)) (resized m (u32 0))); pure tt
    | false ↦ do
      v ← get
      attempt (write_i (suc k) (copy v.junk 0 zero_block 0 (s - 0)) 0 (s - 0))
      attempt (inode_write (pos (suc k)) (resized m 0))
      pure tt
  ]

  truncated :
      block_of (view sb d) (stored sb d k) 0 ≢ 0
      → Returns
          (λ _. IsDangling n k (block_of (view sb d) (stored sb d k) 0))
          (truncate_to_zero (stored sb d k) block_size v)
  truncated named =
      let m : Inode = stored sb d k in
      let buf : Block = copy v.junk 0 zero_block 0 block_size in
      let (m1, v1, run, g) = Returns-done (write_round m buf 0 0 block_size 0 v) (
        write_round-Removed w.ready m outside w.free_list w.fits.directs w.budget 0 buf 0
          (omega arith) (cleared_buffer v.junk)) in
      let kept = round_kept w.ready m buf 0 0 block_size 0 run in
      let same = Ready-same g.wrote.ready kept.ready in
      let valid : k < g.wrote.sb'.num_inodes =
        omega (arith, w.valid, kept.same, ap (λ (x : Superblock). x.num_inodes) same.0) in
      let m2 : Inode = grown m.size 0 block_size m1 in
      rw (one_round buf run g valid) (
        rw (inode_write-done (ready_between w g named valid m2) k (resized m 0) valid)
          (IsDangling-end w g named valid m2))

  -- truncate to 0 of a file of one block in a volume in use, whose blocks are not shared, returns. The
  -- inode then is the one of before with the size 0, so it still names the block that it had,
  -- which is now free.
  pub truncate-IsDangling :
      (stored sb d k).size ≡ block_size
      → block_of (view sb d) (stored sb d k) 0 ≢ 0
      → Returns
          (λ _. IsDangling n k (block_of (view sb d) (stored sb d k) 0))
          (truncate (suc k) 0 v)
  unfolding truncate
  truncate-IsDangling whole named = rw (inode_read-done w.ready k w.valid) (
      subst
        (λ (s : ℕ).
          Returns (λ _. IsDangling n k (block_of (view sb d) (stored sb d k) 0))
            (truncate_to_zero (stored sb d k) s v))
        (sym whole) (truncated named))

-- ===== src/Tests/Truncated.antt =====
-- Cutting a file of one block on the small volume.
use filesystem.Bytes.{Block}
use filesystem.Layer0.{Disk}
use filesystem.Layer1.Bitmap.Marks.{view-stored_disk}
use filesystem.Layer1.Data.View.{view}
use filesystem.Layer1.FreeList.Chain.{free_blocks, valid_once}
use filesystem.Layer1.Inode.{Inode, zero_inode, inode_words}
use filesystem.Layer1.Inode.Roundtrip.{IsInode}
use filesystem.Layer1.Inode.Store.{stored, stored_disk, stored-stored_disk}
use filesystem.Layer1.Ready.{with_disk, Ready-with_disk}
use filesystem.Layer2.BlockMap.{locate, get_root}
use filesystem.Layer2.Contents.{block_of}
use filesystem.Layer2.Contents.Dangling.{IsDangling, truncate-IsDangling}
use filesystem.Layer2.Contents.Roots.{file_count}
use filesystem.Layer2.Contents.Sum.{sum}
use filesystem.Layer2.Contents.Tree.{tree_count}
use filesystem.Layer2.Contents.Writing.{IsWritable}
use filesystem.Layer2.File.{truncate}
use filesystem.Prelude.{
  ◌==◌, if◌then◌else◌, count, ℕ, ◌+◌, ◌≤◌, ◌≡◌, refl, ap, ◌≢◌, List, [], ◌∷◌, arith,
}
use filesystem.Prelude.Run.{Returns}
use filesystem.Tests.{small_sb, small_disk, vol_with, small_Ready, small_free, small_IsFreeList}

-- 4096 bytes in the data block 4.
abbrev one_block : Inode
one_block = record zero_inode {
  mode = 33188;
  size = 4096;
  direct_blocks = 4 ∷ 0 ∷ 0 ∷ 0 ∷ 0 ∷ 0 ∷ 0 ∷ 0 ∷ 0 ∷ 0 ∷ [];
}

one_block-IsInode : IsInode one_block
unfolding inode_words
one_block-IsInode = record { word_fields = ground arith; directs = refl }

abbrev one_disk : Disk
one_disk = stored_disk small_sb small_disk 2 one_block

one_stored : stored small_sb one_disk 2 ≡ one_block
one_stored = stored-stored_disk small_Ready 2 2 one_block-IsInode

one_view : view small_sb one_disk ≡ view small_sb small_disk
one_view = view-stored_disk small_Ready.geometry small_disk 2 (omega arith) one_block

one_block-count : (f : ℕ → Block) (a : ℕ) → file_count f one_block a ≡ (if 4 == a then 1 else 0)
unfolding sum tree_count get_root
one_block-count f a = omega arith

one_budget :
    (l : List ℕ)
    → l ≡ 1 ∷ 2 ∷ 3 ∷ []
    → (f : ℕ → Block) (a : ℕ) → count a l + file_count f one_block a + 0 ≤ valid_once 9 a
one_budget l e f a = rw (e, one_block-count f a) (ground arith)

one_IsWritable :
    IsWritable (with_disk (vol_with small_sb) one_disk) small_sb one_disk 12 (1 ∷ []) 2 (λ a. 0)
one_IsWritable = record {
  ready = Ready-with_disk small_Ready one_disk;
  free_list = rw one_view small_IsFreeList;
  valid = omega arith;
  fits = rw one_stored one_block-IsInode;
  budget =
      rw (one_stored, one_view)
        (one_budget (free_blocks (view small_sb small_disk) (1 ∷ [])) small_free
          (view small_sb small_disk));
}

block_named : (f : ℕ → Block) → block_of f one_block 0 ≢ 0
unfolding block_of locate get_root
block_named f e = absurd (omega (arith, e))

truncate-IsDangling_example :
    Returns
      (λ _. IsDangling 12 2 (block_of (view small_sb one_disk) (stored small_sb one_disk 2) 0))
      (truncate 3 0 (with_disk (vol_with small_sb) one_disk))
truncate-IsDangling_example =
    truncate-IsDangling one_IsWritable (ap (λ (m : Inode). m.size) one_stored)
      (rw one_stored (block_named (view small_sb one_disk)))

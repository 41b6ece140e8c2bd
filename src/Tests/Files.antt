-- ===== src/Tests/Files.antt =====
-- A file of two blocks on a small volume, and the theorems about its contents.
use filesystem.Bytes.{Block, block_size, zero_block, all_zero}
use filesystem.Fuse.{fs_read}
use filesystem.Fuse.Reading.{readable, read_result, OpenFile, fs_read-read_result}
use filesystem.Layer0.{Disk, Vol}
use filesystem.Layer1.Data.View.{view}
use filesystem.Layer1.FreeList.Chain.{free_blocks, valid_once}
use filesystem.Layer1.Inode.{Inode, zero_inode, inode_words}
use filesystem.Layer1.Inode.Roundtrip.{IsInode}
use filesystem.Layer1.Inode.Store.{stored, stored_disk, stored-stored_disk}
use filesystem.Layer1.Ready.{Ready, with_disk, Ready-with_disk}
use filesystem.Layer2.BlockMap.{Root, direct, single, double, triple, get_root, get_nth_datablock}
use filesystem.Layer2.BlockMap.Locate.{AllBelow}
use filesystem.Layer2.Contents.{levels_of, byte_at, IsTree, IsFile}
use filesystem.Layer2.Contents.Extend.{FileGrew}
use filesystem.Layer2.Contents.NewBlock.{get_nth_datablock-FileGrew}
use filesystem.Layer2.Contents.Read.{put, returned, read_i-byte_at}
use filesystem.Layer2.Contents.Roots.{file_count}
use filesystem.Layer2.Contents.Sum.{sum}
use filesystem.Layer2.Contents.Tree.{tree_count}
use filesystem.Layer2.Contents.Valid.{empty_IsTree}
use filesystem.Layer2.File.{read_i}
use filesystem.Layer2.OpenFiles.{Fs, oft_lookup}
use filesystem.Prelude.{
  ◌==◌, if◌then◌else◌, get_or, count, ℕ, zero, suc, ◌+◌, ◌-◌, ◌≤◌, min, ◌≡◌, refl, true, false,
  some, List, [], ◌∷◌, arith,
}
use filesystem.Prelude.Run.{Returns}
use filesystem.Tests.{small_sb, small_disk, vol_with, small_Ready, small_free, small_IsFreeList}

-- 5000 bytes in the data blocks 4 and 5.
abbrev pub two_blocks : Inode
two_blocks = record zero_inode {
  mode = 33188;
  size = 5000;
  direct_blocks = 4 ∷ 5 ∷ 0 ∷ 0 ∷ 0 ∷ 0 ∷ 0 ∷ 0 ∷ 0 ∷ 0 ∷ [];
}

pub two_blocks-IsInode : IsInode two_blocks
unfolding inode_words
two_blocks-IsInode = record { word_fields = ground arith; directs = refl }

-- The volume with the file as the inode 3.
abbrev pub file_disk : Disk
file_disk = stored_disk small_sb small_disk 2 two_blocks

abbrev pub file_vol : Vol
file_vol = with_disk (vol_with small_sb) file_disk

pub file_Ready : Ready file_vol small_sb file_disk 12
file_Ready = Ready-with_disk small_Ready file_disk

pub file_stored : stored small_sb file_disk 2 ≡ two_blocks
file_stored = stored-stored_disk small_Ready 2 2 two_blocks-IsInode

get_or-le : (l : List ℕ) (i b : ℕ) → AllBelow (suc b) l → get_or l i 0 ≤ b
get_or-le [] i b h = omega arith
get_or-le (x ∷ l) zero b h = omega (arith, h.0)
get_or-le (x ∷ l) (suc i) b h = get_or-le l i b h.1

file_trees :
    (f : ℕ → Block) (root : Root)
    → f 0 ≡ zero_block
    → IsTree f 9 (levels_of root) (get_root root two_blocks)
unfolding get_root
file_trees f (direct i) z = get_or-le two_blocks.direct_blocks i 9 (ground arith)
file_trees f single z = empty_IsTree f 9 1 z
file_trees f double z = empty_IsTree f 9 2 z
file_trees f triple z = empty_IsTree f 9 3 z

pub two_blocks-IsFile : IsFile (view small_sb file_disk) 9 (stored small_sb file_disk 2)
two_blocks-IsFile = rw file_stored (record {
  trees = λ root h. file_trees (view small_sb file_disk) root refl;
  size_word = omega arith;
})

read_i-byte_at_example :
    read_i 3 zero_block 4090 100 file_vol
    ≡ returned file_vol (min ((stored small_sb file_disk 2).size - 4090) 100) (
        put zero_block 0
          (λ j. byte_at (view small_sb file_disk) (stored small_sb file_disk 2) (4090 + j))
          (min ((stored small_sb file_disk 2).size - 4090) 100))
read_i-byte_at_example =
    read_i-byte_at file_Ready 2 (omega arith) two_blocks-IsFile zero_block 4090 100

-- The file has two blocks, and the blocks 1, 2 and 3 of the small volume are free.
two_blocks-count :
    (f : ℕ → Block) (a : ℕ)
    → file_count f two_blocks a ≡ (if 4 == a then 1 else 0) + (if 5 == a then 1 else 0)
unfolding sum tree_count get_root
two_blocks-count f a = omega arith

pub small_budget :
    (l : List ℕ)
    → l ≡ 1 ∷ 2 ∷ 3 ∷ []
    → (f : ℕ → Block) (a : ℕ) → count a l + file_count f two_blocks a + 0 ≤ valid_once 9 a
small_budget l e f a = rw (e, two_blocks-count f a) (ground arith)

get_nth_datablock-FileGrew_example :
    Returns
      (FileGrew 12 small_sb small_disk (1 ∷ []) two_blocks 20 (λ a. 0))
      (get_nth_datablock two_blocks 20 true (vol_with small_sb))
get_nth_datablock-FileGrew_example =
    get_nth_datablock-FileGrew small_Ready two_blocks (λ a. 0) small_IsFreeList refl
      (small_budget (free_blocks (view small_sb small_disk) (1 ∷ [])) small_free
        (view small_sb small_disk))
      20 (omega arith)

abbrev pub sevens : Block
sevens o = 7

pub sevens_nonzero : all_zero sevens 0 block_size ≡ false
unfolding all_zero
sevens_nonzero = refl

-- The file is open on the descriptor 11, to read.
abbrev reading_fs : Fs
reading_fs = record {
  vol = file_vol;
  oft_inodes = record { inum = 3; ref = 1; pending_deletion = false } ∷ [];
  oft_fds = record { fd = 11; fd_inum = 3; flags = 0 } ∷ [];
}

looked_up_reading : oft_lookup 11 reading_fs.oft_fds ≡ some (3, 0)
unfolding oft_lookup
looked_up_reading = refl

reading_OpenFile : OpenFile small_sb file_disk (oft_lookup 11 reading_fs.oft_fds)
reading_OpenFile = rw looked_up_reading (omega arith, omega arith, two_blocks-IsFile)

fs_read-read_result_example :
    fs_read zero_block 100 4090 0 11 reading_fs
    ≡ read_result small_sb file_disk zero_block 100 4090
        (readable 0)
        (oft_lookup 11 reading_fs.oft_fds)
        reading_fs
fs_read-read_result_example =
    fs_read-read_result reading_fs file_Ready zero_block 100 4090 0 11 reading_OpenFile

-- ===== src/Tests.antt =====
-- A volume of 12 blocks with two free blocks in one node, and the theorems at it.
pub mod Upper
pub mod Files
pub mod Writes
pub mod Truncated
pub mod Layers
pub mod MemDevice
pub mod Rights
use filesystem.Bytes.{Block, zero_block, u32_at, set_u32}
use filesystem.Bytes.Words.{AllWords}
use filesystem.Layer0.{Superblock, Disk, Vol}
use filesystem.Layer1.Data.{data_read, data_write}
use filesystem.Layer1.Data.View.{view, data_read-data_write}
use filesystem.Layer1.FreeList.{data_free, data_allocate}
use filesystem.Layer1.FreeList.Allocate.{Took, data_allocate-Took}
use filesystem.Layer1.FreeList.Chain.{free_blocks, valid_once, IsFreeList}
use filesystem.Layer1.FreeList.Entries.{used, entries}
use filesystem.Layer1.FreeList.Give.{Gave, data_free-Gave}
use filesystem.Layer1.Inode.{Inode, inode_words, inode_read, inode_write}
use filesystem.Layer1.Inode.Roundtrip.{IsInode}
use filesystem.Layer1.Inode.Store.{inode_read-inode_write}
use filesystem.Layer1.Mkfs.{layout}
use filesystem.Layer1.Mkfs.Layout.{layout-Geometry, layout-full}
use filesystem.Layer1.Ready.{Geometry, Ready}
use filesystem.Layer1.Super.{superblock_words, read_superblock, write_superblock}
use filesystem.Layer1.Super.Stored.{read_superblock-write_superblock}
use filesystem.Layer2.OpenFiles.Table.{opens}
use filesystem.Prelude.{
  ◌==◌, if◌then◌else◌, count, ℕ, ◌+◌, ◌≤◌, ◌<◌, ◌≡◌, refl, none, some, List, [], ◌∷◌, arith,
}
use filesystem.Prelude.Int.{pos}
use filesystem.Prelude.Run.{data_full, fail, Returns, value}

abbrev pub small_sb : Superblock
small_sb = record {
  ibitmap_block_offset = 1;
  ibitmap_size = 1;
  ilist_block_offset = 2;
  ilist_size = 1;
  data_block_offset = 3;
  data_size = 9;
  sb_total_blocks = 12;
  total_inodes = 51;
  free_list_head = 1;
  root_inode = 1;
  sb_block_size = 4096;
  inodes_per_block = 51;
  num_inodes = 51;
}

-- The same volume with no free block.
abbrev pub full_sb : Superblock
full_sb = record small_sb { free_list_head = 0 }

-- The node: the free blocks 2 and 3, and no next node.
abbrev pub small_node : Block
unfolding set_u32
small_node = set_u32 (set_u32 zero_block 4 2) 8 3

abbrev pub small_disk : Disk
small_disk m = if m == 3 then small_node else zero_block

abbrev pub vol_with : Superblock → Vol
vol_with sb = record {
  disk = some small_disk;
  total_blocks = some 12;
  cached_superblock = some sb;
  junk = zero_block;
}

pub small_Ready : Ready (vol_with small_sb) small_sb small_disk 12
small_Ready = record {
  opens = record { has_disk = refl; has_total = refl };
  cached = refl;
  geometry = ground arith;
}

full_Ready : Ready (vol_with full_sb) full_sb small_disk 12
full_Ready = record {
  opens = record { has_disk = refl; has_total = refl };
  cached = refl;
  geometry = ground arith;
}

small_entries : entries small_node ≡ 2 ∷ 3 ∷ []
unfolding u32_at set_u32 used
small_entries = refl

pub small_free : free_blocks (view small_sb small_disk) (1 ∷ []) ≡ 1 ∷ 2 ∷ 3 ∷ []
unfolding u32_at set_u32 used
small_free = refl

-- In a volume with 9 data blocks the first three can be free.
three_once : (l : List ℕ) → l ≡ 1 ∷ 2 ∷ 3 ∷ [] → (a : ℕ) → count a l ≤ valid_once 9 a
three_once l e a = rw e (ground arith)

pub small_IsFreeList : IsFreeList 9 (view small_sb small_disk) 1 (1 ∷ [])
unfolding u32_at set_u32
small_IsFreeList = record {
  chain = (refl, ground arith, refl);
  once = three_once (free_blocks (view small_sb small_disk) (1 ∷ [])) small_free;
}

data_allocate-Took_example :
    Returns
      (Took 12 small_sb small_disk (1 ∷ []) zero_block)
      (data_allocate zero_block (vol_with small_sb))
data_allocate-Took_example =
    data_allocate-Took small_Ready small_IsFreeList (ground arith) zero_block

seven_out : count 7 (free_blocks (view small_sb small_disk) (1 ∷ [])) ≡ 0
unfolding u32_at set_u32 used
seven_out = refl

data_free-Gave_example :
    Returns (λ _. Gave 12 small_sb small_disk (1 ∷ []) 7) (data_free (pos 7) (vol_with small_sb))
data_free-Gave_example =
    data_free-Gave 7 small_Ready small_IsFreeList (omega arith) (omega arith) seven_out

data_read-data_write_example :
    Returns
      (λ _ w.
        value (data_read (pos 4) w)
        ≡ (if 4 == 4 then some small_node else value (data_read (pos 4) (vol_with small_sb))))
      (data_write (pos 4) small_node (vol_with small_sb))
data_read-data_write_example =
    data_read-data_write small_Ready 4 4 small_node (omega arith) (omega arith)

-- An inode with every field set.
abbrev pub some_inode : Inode
some_inode = record {
  mode = 16895;
  links = 1;
  uid = 1000;
  gid = 100;
  size = 522;
  access_time = 4294967295;
  mod_time = 65536;
  direct_blocks = 1 ∷ 2 ∷ 3 ∷ 4 ∷ 5 ∷ 6 ∷ 7 ∷ 8 ∷ 9 ∷ 256 ∷ [];
  indirect = 11;
  double_indirect = 12;
  triple_indirect = 13;
}

pub some_inode-IsInode : IsInode some_inode
unfolding inode_words
some_inode-IsInode = record { word_fields = ground arith; directs = refl }

inode_read-inode_write_example :
    Returns
      (λ _ w.
        value (inode_read (pos 9) w)
        ≡ (if 9 == 9 then some some_inode else value (inode_read (pos 9) (vol_with small_sb))))
      (inode_write (pos 9) some_inode (vol_with small_sb))
inode_read-inode_write_example =
    inode_read-inode_write small_Ready 8 some_inode-IsInode (omega arith) 9

small_words : AllWords (superblock_words small_sb)
unfolding superblock_words
small_words = ground arith

read_superblock-write_superblock_example :
    Returns
      (λ _ w.
        (value (read_superblock w) ≡ some small_sb)
        × (value (read_superblock (record w { cached_superblock = none })) ≡ some small_sb))
      (write_superblock small_sb (vol_with full_sb))
read_superblock-write_superblock_example =
    read_superblock-write_superblock small_sb full_Ready.opens (omega arith) small_words

layout-Geometry_example : Geometry (layout 40000) 40000
layout-Geometry_example = layout-Geometry 40000 (omega arith) (omega arith)

layout-full_example :
    (0 < (layout 40000).num_inodes)
    × (0 < (layout 40000).data_size)
    × ((layout 40000).data_block_offset + (layout 40000).data_size ≡ 40000)
    × AllWords (superblock_words (layout 40000))
layout-full_example = layout-full 40000 (omega arith) (omega arith)

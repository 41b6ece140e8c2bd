-- ===== src/Layer1/Mkfs/Layout.antt =====
-- The layout that init_superblock computes.
use filesystem.Bytes.Words.{AllWords}
use filesystem.Layer1.Mkfs.{min_blocks, max_fs_size, layout}
use filesystem.Layer1.Ready.{Geometry}
use filesystem.Layer1.Super.{superblock_words}
use filesystem.Prelude.{ℕ, ◌+◌, ◌≤◌, ◌<◌, ◌≡◌, arith}

-- For every number of blocks that mkfs accepts, the areas lie behind one another on the disk, the
-- inode area holds all inodes and the bitmap has a bit for each.
pub layout-Geometry :
    (blocks : ℕ) → min_blocks ≤ blocks → blocks ≤ max_fs_size → Geometry (layout blocks) blocks
unfolding layout
layout-Geometry blocks h h' = ground arith

-- No area is empty, no block of the disk is left over, and every number fits its 32 bits.
pub layout-full :
    (blocks : ℕ)
    → min_blocks ≤ blocks
    → blocks ≤ max_fs_size
    → let sb = layout blocks in
      (0 < sb.num_inodes)
      × (0 < sb.data_size)
      × (sb.data_block_offset + sb.data_size ≡ blocks)
      × AllWords (superblock_words sb)
unfolding layout superblock_words
layout-full blocks h h' = ground arith

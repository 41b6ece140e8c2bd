-- ===== src/Layer1/Data.antt =====
-- layer1.c, data_read and data_write. Data blocks are numbered from 1, and the block 0 reads as
-- zeros.
pub mod View
use filesystem.Bytes.{Block, zero_block}
use filesystem.Layer0.{Op, write_block, read_block}
use filesystem.Layer1.Inode.{one_based}
use filesystem.Layer1.Super.{read_superblock}
use filesystem.Prelude.{ltb, ◌==◌, if◌then◌else◌, ◌+◌, ◌-◌, none, some}
use filesystem.Prelude.Int.{ℤ, pos, negsuc}
use filesystem.Prelude.Run.{invalid_block, pure, throw, ◌>>=◌, ◌>>◌}

unfoldable pub data_read : ℤ → Op Block
data_read data_block_num = do
  sb ← read_superblock
  elim data_block_num [
    | negsuc _ ↦ throw invalid_block
    | pos k ↦
        if ltb sb.data_size k
        then throw invalid_block
        else if k == 0
        then pure zero_block
        else read_block (pos (sb.data_block_offset + k - 1))
  ]

unfoldable pub data_write : ℤ → Block → Op (Unit {0})
data_write data_block_num write_buf = do
  sb ← read_superblock
  elim (one_based data_block_num sb.data_size) [
    | none ↦ throw invalid_block
    | some k ↦ write_block (pos (sb.data_block_offset + k)) write_buf
  ]

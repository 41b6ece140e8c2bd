-- ===== src/Layer0.antt =====
-- layer0.c: the disk in memory, and the globals of the three layers below the open file table.
-- The functions read and write whole blocks. Pointer arguments are addresses of buffers of the
-- caller, so the tests for NULL buffers have no counterpart. The offset of a block, `blocknum *
-- BLOCK_SIZE`, is an int in the source: the model is for disks of at most 2^31 bytes, which are 524288
-- blocks. mkfs makes at most 250000.
pub mod Blocks
use filesystem.Bytes.{Block}
use filesystem.Prelude.{leb, ◌==◌, if◌then◌else◌, ℕ, Option, none, some}
use filesystem.Prelude.Int.{ℤ, pos, negsuc}
use filesystem.Prelude.Run.{disc_uninitialized, invalid_block, Run, done, fail}

-- superblock of layer1.h. The field names are the source's, `padding` is empty.
pub record Superblock : Type 0 where
  pub ibitmap_block_offset : ℕ
  pub ibitmap_size : ℕ
  pub ilist_block_offset : ℕ
  pub ilist_size : ℕ
  pub data_block_offset : ℕ
  pub data_size : ℕ
  pub sb_total_blocks : ℕ
  pub total_inodes : ℕ
  pub free_list_head : ℕ
  pub root_inode : ℕ
  pub sb_block_size : ℕ
  pub inodes_per_block : ℕ
  pub num_inodes : ℕ

abbrev pub Disk : Type 0
Disk = ℕ → Block

-- The globals `disk`, `total_blocks` and `cached_superblock`; `none` is NULL or
-- UNINITIALIZED_BLOCKS. `junk` is what a local buffer holds before it is written.
pub record Vol : Type 0 where
  pub disk : Option Disk
  pub total_blocks : Option ℕ
  pub cached_superblock : Option Superblock
  pub junk : Block

-- A function over the globals, with its result.
abbrev pub Op : Type 0 → Type 0
Op A = Vol → Run Vol A

-- The disk and its number of blocks, unless one of them is not set.
unfoldable pub opened : Vol → Option (Disk × ℕ)
opened v = elim v.total_blocks [
  | none ↦ none
  | some n ↦ elim v.disk [ none ↦ none | some d ↦ some (d, n) ]
]

-- A block number within the disk.
unfoldable pub block_index : ℤ → ℕ → Option ℕ
block_index (negsuc _) n = none
block_index (pos k) n = if leb n k then none else some k

abbrev pub write_disk : Disk → ℕ → Block → Disk
write_disk d k b m = if m == k then b else d m

unfoldable pub write_block : ℤ → Block → Op (Unit {0})
unfolding opened block_index
write_block blocknum write_buf v = elim (opened v) [
  | none ↦ fail disc_uninitialized v
  | some (d, n) ↦ elim (block_index blocknum n) [
    | none ↦ fail invalid_block v
    | some k ↦ done tt (record v { disk = some (write_disk d k write_buf) })
  ]
]

unfoldable pub read_block : ℤ → Op Block
unfolding opened block_index
read_block blocknum v = elim (opened v) [
  | none ↦ fail disc_uninitialized v
  | some (d, n) ↦ elim (block_index blocknum n) [
    | none ↦ fail invalid_block v
    | some k ↦ done (d k) v
  ]
]

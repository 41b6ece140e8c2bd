-- ===== src/Layer1/Super.antt =====
-- layer1.c, read_superblock and write_superblock, with the copy that is kept in memory, and the
-- layout of `struct superblock`: 13 words at the start of block 0.
pub mod Cache
pub mod Stored
use filesystem.Bytes.{Block, u32_at, set_words}
use filesystem.Layer0.{Superblock, Vol, Op, write_block, read_block}
use filesystem.Prelude.{ℕ, none, some, List, [], ◌∷◌}
use filesystem.Prelude.Int.{pos}
use filesystem.Prelude.Run.{disc_uninitialized, Run, done, fail, diverge, pure, and_then}

-- SUPERBLOCK_SIZE, in blocks: the struct takes 52 bytes.
abbrev pub superblock_size : ℕ
superblock_size = 1

abbrev pub sizeof_superblock : ℕ
sizeof_superblock = 52

unfoldable pub superblock_words : Superblock → List ℕ
superblock_words sb =
    sb.ibitmap_block_offset ∷ sb.ibitmap_size ∷ sb.ilist_block_offset ∷ sb.ilist_size
    ∷ sb.data_block_offset ∷ sb.data_size ∷ sb.sb_total_blocks ∷ sb.total_inodes ∷ sb.free_list_head
    ∷ sb.root_inode ∷ sb.sb_block_size ∷ sb.inodes_per_block ∷ sb.num_inodes ∷ []

-- memcpy(sb, temp_buffer, sizeof(superblock))
unfoldable pub superblock_at : Block → Superblock
superblock_at b = record {
  ibitmap_block_offset = u32_at b 0;
  ibitmap_size = u32_at b 4;
  ilist_block_offset = u32_at b 8;
  ilist_size = u32_at b 12;
  data_block_offset = u32_at b 16;
  data_size = u32_at b 20;
  sb_total_blocks = u32_at b 24;
  total_inodes = u32_at b 28;
  free_list_head = u32_at b 32;
  root_inode = u32_at b 36;
  sb_block_size = u32_at b 40;
  inodes_per_block = u32_at b 44;
  num_inodes = u32_at b 48;
}

-- A call whose failure is reported as DISC_UNINITIALIZED, whatever its code.
abbrev pub uninitialized : {A : Type 0} → Run Vol A → Run Vol A
uninitialized (done a v) = done a v
uninitialized (fail e v) = fail disc_uninitialized v
uninitialized diverge = diverge

abbrev pub or_uninitialized : {A : Type 0} → Op A → Op A
or_uninitialized m v = uninitialized (m v)

unfoldable pub read_superblock : Op Superblock
read_superblock v = elim v.cached_superblock [
  | some sb ↦ done sb v
  | none ↦ and_then (or_uninitialized (read_block (pos 0)) v) λ b. pure (superblock_at b)
]

-- The rest of the block is what the local buffer held.
unfoldable pub write_superblock : Superblock → Op (Unit {0})
write_superblock sb v =
    or_uninitialized (write_block (pos 0) (set_words v.junk 0 (superblock_words sb)))
      (record v { cached_superblock = some sb })

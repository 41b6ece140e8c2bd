-- ===== src/Layer1/Ready.antt =====
-- A volume in use: the disk is set up, the superblock is in memory, and the areas that it names lie
-- behind one another on the disk. What the block and superblock calls do there.
use filesystem.Bytes.{set_words}
use filesystem.Layer0.{Superblock, Disk, Vol, write_disk, write_block}
use filesystem.Layer0.Blocks.{IsOpen}
use filesystem.Layer1.Bitmap.{bits_per_block}
use filesystem.Layer1.Inode.{inodes_in_block}
use filesystem.Layer1.Super.{superblock_words, read_superblock, write_superblock}
use filesystem.Layer1.Super.Cache.{read_superblock-cached}
use filesystem.Prelude.{ℕ, ◌+◌, ◌*◌, ◌≤◌, ◌<◌, ◌≡◌, refl, some, arith}
use filesystem.Prelude.Run.{done}

-- The areas of a disk of `n` blocks: superblock, inode bitmap, inodes, data.
pub record Geometry (sb : Superblock) (n : ℕ) : Type 0 where
  pub behind_superblock : 1 ≤ sb.ibitmap_block_offset
  pub behind_ibitmap : sb.ibitmap_block_offset + sb.ibitmap_size ≤ sb.ilist_block_offset
  pub behind_ilist : sb.ilist_block_offset + sb.ilist_size ≤ sb.data_block_offset
  pub data_fits : sb.data_block_offset + sb.data_size ≤ n
  pub inodes_fit : sb.num_inodes ≤ sb.ilist_size * inodes_in_block
  pub bits_fit : sb.num_inodes ≤ sb.ibitmap_size * bits_per_block
  pub small : n < 2147483648

pub record Ready (v : Vol) (sb : Superblock) (d : Disk) (n : ℕ) : Type 0 where
  pub opens : IsOpen v d n
  pub cached : v.cached_superblock ≡ some sb
  pub geometry : Geometry sb n

abbrev pub with_disk : Vol → Disk → Vol
with_disk v d = record v { disk = some d }

-- The volume after write_superblock.
abbrev pub with_superblock : Vol → Disk → Superblock → Vol
with_superblock v d sb = record v {
  cached_superblock = some sb;
  disk = some (write_disk d 0 (set_words v.junk 0 (superblock_words sb)));
}

module _ {v : Vol} {sb : Superblock} {d : Disk} {n : ℕ} (r : Ready v sb d n) where
  pub Ready-with_disk : (d' : Disk) → Ready (with_disk v d') sb d' n
  Ready-with_disk d' = record {
    opens = record { has_disk = refl; has_total = r.opens.has_total };
    cached = r.cached;
    geometry = r.geometry;
  }

  pub read_superblock-done : read_superblock v ≡ done sb v
  read_superblock-done = read_superblock-cached r.cached

  pub write_superblock-done :
      (sb' : Superblock) → 0 < n → write_superblock sb' v ≡ done tt (with_superblock v d sb')
  unfolding write_superblock write_block
  write_superblock-done sb' h = ground (arith, r.opens.has_disk, r.opens.has_total)

  pub Ready-with_superblock :
      (sb' : Superblock)
      → Geometry sb' n
      → Ready
          (with_superblock v d sb')
          sb'
          (write_disk d 0 (set_words v.junk 0 (superblock_words sb')))
          n
  Ready-with_superblock sb' g = record {
    opens = record { has_disk = refl; has_total = r.opens.has_total };
    cached = refl;
    geometry = g;
  }

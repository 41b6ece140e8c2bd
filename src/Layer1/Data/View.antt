-- ===== src/Layer1/Data/View.antt =====
-- What data_read and data_write do on a volume in use: the data area as an array of blocks.
use mathlib.Core.Path.{fun_ext}
use filesystem.Bytes.{Block, zero_block}
use filesystem.Layer0.{Superblock, Disk, Vol, write_disk}
use filesystem.Layer0.Blocks.{read_block-done, write_block-done}
use filesystem.Layer1.Data.{data_read, data_write}
use filesystem.Layer1.Inode.{one_based-some}
use filesystem.Layer1.Ready.{Ready, with_disk, Ready-with_disk, read_superblock-done}
use filesystem.Prelude.{
  ◌==◌, if◌then◌else◌, lt_or_le, ℕ, zero, suc, ◌+◌, ◌-◌, ◌≤◌, ◌<◌, ◌≡◌, ap, inl, inr, some, arith,
}
use filesystem.Prelude.Int.{pos}
use filesystem.Prelude.Run.{invalid_block, done, fail, Returns, value}

-- The contents of the data blocks by their numbers; the block 0 is all zeros.
abbrev pub view : Superblock → Disk → ℕ → Block
view sb d p = if p == 0 then zero_block else d (sb.data_block_offset + p - 1)

-- An array of blocks with one of them replaced.
abbrev pub upd : (ℕ → Block) → ℕ → Block → ℕ → Block
upd f p b q = if p == q then b else f q

-- The disk with one data block replaced.
abbrev pub write_data : Superblock → Disk → ℕ → Block → Disk
write_data sb d p b = write_disk d (sb.data_block_offset + p - 1) b

module _ {v : Vol} {sb : Superblock} {d : Disk} {n : ℕ} (r : Ready v sb d n) where
  pub data_read-done : (p : ℕ) → p ≤ sb.data_size → data_read (pos p) v ≡ done (view sb d p) v
  unfolding data_read
  data_read-done p h = ground (
    arith,
    read_superblock-done r,
    r.geometry,
    read_block-done r.opens (sb.data_block_offset + p - 1),
  )

  pub data_write-done :
      (p : ℕ) (b : Block)
      → 0 < p
      → p ≤ sb.data_size
      → data_write (pos p) b v ≡ done tt (with_disk v (write_data sb d p b))
  unfolding data_write
  data_write-done zero b h h' = absurd (omega arith)
  data_write-done (suc k) b h h' =
      let e : sb.data_block_offset + suc k - 1 ≡ sb.data_block_offset + k = omega arith in
      rw e (
        ground (
          arith,
          read_superblock-done r,
          r.geometry,
          one_based-some k sb.data_size,
          write_block-done r.opens (sb.data_block_offset + k) b,
        ))

  -- A write of a data block replaces that block.
  pub view-write_data :
      (p : ℕ) (b : Block) → 0 < p → view sb (write_data sb d p b) ≡ upd (view sb d) p b
  view-write_data p b h = fun_ext λ q. ground (arith, r.geometry)

  -- A write of the superblock replaces no data block.
  pub view-superblock :
      (sb' : Superblock) (b : Block)
      → sb'.data_block_offset ≡ sb.data_block_offset
      → view sb' (write_disk d 0 b) ≡ view sb d
  view-superblock sb' b e = fun_ext λ q. ground (arith, r.geometry)

  data_read-bad : (p : ℕ) → sb.data_size < p → data_read (pos p) v ≡ fail invalid_block v
  unfolding data_read
  data_read-bad p h = ground (arith, read_superblock-done r)

-- What data_write wrote at a valid number, data_read gives back, and what it gives at every other
-- number, valid or not, stays.
pub data_read-data_write :
    {v : Vol} {sb : Superblock} {d : Disk} {n : ℕ} (r : Ready v sb d n) (p q : ℕ) (b : Block)
    → 0 < p
    → p ≤ sb.data_size
    → Returns
        (λ _ w.
          value (data_read (pos q) w) ≡ (if p == q then some b else value (data_read (pos q) v)))
        (data_write (pos p) b v)
data_read-data_write {v} {sb} {d} r p q b h h' =
    let r' = Ready-with_disk r (write_data sb d p b) in
    rw (data_write-done r p b h h') (elim (lt_or_le sb.data_size q) [
      | inl far ↦ ground (arith, data_read-bad r q far, data_read-bad r' q far)
      | inr near ↦ ground (
        arith,
        data_read-done r q near,
        data_read-done r' q near,
        ap (λ (f : ℕ → Block). f q) (view-write_data r p b h),
      )
    ])

-- ===== src/Layer1/Bitmap/Marks.antt =====
-- The bitmap of inodes in use on a disk, and what a change of one bit does to it.
use mathlib.Core.Path.{fun_ext}
use filesystem.Bytes.{Block, block_size, set_byte}
use filesystem.Layer0.{Superblock, Disk, write_disk}
use filesystem.Layer1.Bitmap.{bits_per_block}
use filesystem.Layer1.Bitmap.Bits.{bit_set}
use filesystem.Layer1.Data.View.{view}
use filesystem.Layer1.Inode.{Inode, inodes_in_block}
use filesystem.Layer1.Inode.Store.{stored, stored_disk}
use filesystem.Layer1.Ready.{Geometry}
use filesystem.Prelude.{
  ◌==◌, if◌then◌else◌, eq_or_ne, ℕ, ◌+◌, ◌*◌, ◌/◌, ◌%◌, ◌<◌, ◌≡◌, refl, ap, inl, inr, Bool, arith,
}

-- The block of the bitmap and the byte in it that hold the bit of an index.
abbrev pub bit_block : Superblock → ℕ → ℕ
bit_block sb k = sb.ibitmap_block_offset + k / bits_per_block

abbrev pub bit_byte : ℕ → ℕ
bit_byte k = k % bits_per_block / 8

-- Whether the bitmap marks the inode of an index from 0, which is the number less 1.
abbrev pub in_use : Superblock → Disk → ℕ → Bool
in_use sb d k = bit_set (d (bit_block sb k) (bit_byte k)) (k % 8)

-- The bitmap holds bytes.
abbrev pub HasBytes : Superblock → Disk → Type 0
HasBytes sb d = (k : ℕ) → k < sb.num_inodes → d (bit_block sb k) (bit_byte k) < 256

-- The disk with one byte of the bitmap replaced.
abbrev pub mark_disk : Superblock → Disk → (k byte : ℕ) → Disk
mark_disk sb d k byte =
    write_disk d (bit_block sb k) (set_byte (d (bit_block sb k)) (bit_byte k) byte)

-- A number from 0 to 32767 in a block of the bitmap, as an index.
module _ (cur z i : ℕ) (inside : z < block_size) (bit : i < 8) where
  pub index_block : (cur * bits_per_block + z * 8 + i) / bits_per_block ≡ cur
  index_block = omega arith

  pub index_byte : bit_byte (cur * bits_per_block + z * 8 + i) ≡ z
  index_byte = omega arith

  pub index_bit : (cur * bits_per_block + z * 8 + i) % 8 ≡ i
  index_bit = omega arith

  pub in_use-index :
      (sb : Superblock) (d : Disk)
      → in_use sb d (cur * bits_per_block + z * 8 + i)
        ≡ bit_set (d (sb.ibitmap_block_offset + cur) z) i
  in_use-index sb d = rw (index_block, index_byte, index_bit) refl

module _ {sb : Superblock} {n : ℕ} (g : Geometry sb n) (d : Disk) (k : ℕ)
    (valid : k < sb.num_inodes) where
  -- A byte of the bitmap is no inode and no data.
  pub bit_block-lt : bit_block sb k < sb.ilist_block_offset
  bit_block-lt = omega (arith, g.behind_ibitmap, g.bits_fit)

  pub view-mark_disk : (byte : ℕ) → view sb (mark_disk sb d k byte) ≡ view sb d
  view-mark_disk byte = fun_ext λ q. ground (arith, bit_block-lt, g.behind_ilist)

  pub stored-mark_disk : (byte j : ℕ) → stored sb (mark_disk sb d k byte) j ≡ stored sb d j
  stored-mark_disk byte j = ground (arith, bit_block-lt)

  -- A bit that is written has its new value, and the bits of the other inodes stay.
  pub in_use-mark_disk :
      (byte j : ℕ) (new : Bool)
      → ((i : ℕ)
          → i < 8
          → bit_set byte i
            ≡ (if k % 8 == i then new else bit_set (d (bit_block sb k) (bit_byte k)) i))
      → in_use sb (mark_disk sb d k byte) j ≡ (if k == j then new else in_use sb d j)
  unfolding set_byte
  in_use-mark_disk byte j new e = elim (eq_or_ne (bit_block sb j) (bit_block sb k)) [
    | inr ne ↦ ground arith
    | inl same ↦ elim (eq_or_ne (bit_byte j) (bit_byte k)) [
      | inr ne ↦ grind arith
      | inl same' ↦ grind (arith, e (j % 8) (omega arith))
    ]
  ]

  pub HasBytes-mark_disk :
      (byte : ℕ) → byte < 256 → HasBytes sb d → HasBytes sb (mark_disk sb d k byte)
  unfolding set_byte
  HasBytes-mark_disk byte h bytes = λ j l. ground (arith, bytes j l)

  -- An inode that is stored is no bitmap and no data.
  inode_block-lt : sb.ilist_block_offset + k / inodes_in_block < sb.data_block_offset
  inode_block-lt = omega (arith, g.behind_ilist, g.inodes_fit)

  pub view-stored_disk : (m : Inode) → view sb (stored_disk sb d k m) ≡ view sb d
  view-stored_disk m = fun_ext λ q. ground (arith, inode_block-lt)

module _ {sb : Superblock} {n : ℕ} (g : Geometry sb n) (d : Disk) (k j : ℕ)
    (valid : j < sb.num_inodes) (m : Inode) where
  bitmap_same : stored_disk sb d k m (bit_block sb j) ≡ d (bit_block sb j)
  bitmap_same = ground (arith, bit_block-lt g d j valid)

  pub in_use-stored_disk : in_use sb (stored_disk sb d k m) j ≡ in_use sb d j
  in_use-stored_disk = ap (λ (b : Block). bit_set (b (bit_byte j)) (j % 8)) bitmap_same

  pub byte-stored_disk :
      stored_disk sb d k m (bit_block sb j) (bit_byte j) ≡ d (bit_block sb j) (bit_byte j)
  byte-stored_disk = ap (λ (b : Block). b (bit_byte j)) bitmap_same

-- ===== src/Layer1/Bitmap.antt =====
-- layer1.c, inode_create and inode_free: the bitmap of inodes in use, most significant bit first.
pub mod Bits
pub mod Scan
pub mod Marks
pub mod Create
pub mod Release
use filesystem.Bytes.{Block, block_size, set_byte}
use filesystem.Layer0.{Superblock, Op, write_block, read_block}
use filesystem.Layer1.Inode.{Inode, one_based, filled, inode_write}
use filesystem.Layer1.Super.{read_superblock}
use filesystem.Prelude.{
  ltb, ◌==◌, if◌then◌else◌, ℕ, zero, suc, ◌+◌, ◌*◌, ◌/◌, ◌%◌, ◌^◌, bit_and, bit_or, bit_xor, none,
  some,
}
use filesystem.Prelude.Int.{ℤ, pos}
use filesystem.Prelude.Run.{bad_inode, ilist_full, ok, err, pure, throw, get, ◌>>=◌, ◌>>◌, attempt}

-- BITS_PER_BLOCK
abbrev pub bits_per_block : ℕ
bits_per_block = 32768

-- What a part of the search for a free bit comes to: a byte and a bit in it, the end of the ilist
-- (`over`), or no free bit in this part.
pub data Search : Type 0 where
  found : ℕ → ℕ → Search
  over miss : Search

-- 0x80 >> bit
abbrev pub bit_mask : ℕ → ℕ
bit_mask bit = 128 / 2 ^ bit

-- The loop over the bits of one byte, from `bit`, with the rounds that are left. `base` is the
-- number of inodes before this byte.
unfoldable pub scan_bits : (num_inodes base byte_offset byte bit rounds : ℕ) → Search
scan_bits num_inodes base byte_offset byte bit zero = miss
scan_bits num_inodes base byte_offset byte bit (suc rounds) =
    let rest = scan_bits num_inodes base byte_offset byte (bit + 1) rounds in
    if ltb num_inodes (base + bit + 1)
    then over
    else if bit_and (byte * 2 ^ bit) 128 == 0
    then found byte_offset bit
    else rest

-- The loop over the bytes of one block of the bitmap; `base` is the number of inodes before it.
unfoldable pub scan_bytes : (num_inodes base : ℕ) → Block → (byte_offset rounds : ℕ) → Search
unfolding scan_bits
scan_bytes num_inodes base b byte_offset zero = miss
scan_bytes num_inodes base b byte_offset (suc rounds) =
    let rest = scan_bytes num_inodes base b (byte_offset + 1) rounds in
    if b byte_offset == 255
    then rest
    else elim (scan_bits num_inodes (base + byte_offset * 8) byte_offset (b byte_offset) 0 8) [
      | found y i ↦ found y i
      | over ↦ over
      | miss ↦ rest
    ]

-- The loop over the blocks of the bitmap, from `cur_ibitmap_block`. A read that fails leaves the
-- buffer as it was.
unfoldable pub create_from :
    Superblock → Inode → (ibitmap_buffer : Block) → (cur_ibitmap_block rounds : ℕ) → Op ℕ
create_from sb new_node buffer cur zero = throw ilist_full
create_from sb new_node buffer cur (suc rounds) = do
  let place = pos (sb.ibitmap_block_offset + cur)
  r ← attempt (read_block place)
  let b : Block = elim r [ ok b ↦ b | err _ ↦ buffer ]
  elim (scan_bytes sb.num_inodes (cur * bits_per_block) b 0 block_size) [
    | over ↦ throw ilist_full
    | miss ↦ create_from sb new_node b (cur + 1) rounds
    | found y i ↦ do
      let inode_number : ℕ = cur * bits_per_block + y * 8 + i + 1
      attempt (write_block place (set_byte b y (bit_or (b y) (bit_mask i))))
      inode_write (pos inode_number) new_node
      pure inode_number
  ]

-- The number goes through `inode_num`.
unfoldable pub inode_create : Inode → Op ℕ
unfolding create_from
inode_create new_node = do
  sb ← read_superblock
  v ← get
  create_from sb new_node v.junk 0 sb.ibitmap_size

-- buf[byte] &= buf[byte] ^ mask
abbrev pub clear_bit : ℕ → ℕ → ℕ
clear_bit byte bit = bit_and byte (bit_xor byte (bit_mask bit))

unfoldable pub inode_free : ℤ → Op (Unit {0})
inode_free inode_num = do
  sb ← read_superblock
  elim (one_based inode_num sb.num_inodes) [
    | none ↦ throw bad_inode
    | some k ↦ do
      let bit_in_block : ℕ = k % bits_per_block
      let place = pos (sb.ibitmap_block_offset + k / bits_per_block)
      buf ← filled (read_block place)
      write_block place
          (set_byte buf (bit_in_block / 8) (clear_bit (buf (bit_in_block / 8)) (bit_in_block % 8)))
  ]

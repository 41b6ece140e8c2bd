-- ===== src/Layer1/Mkfs.antt =====
-- layer1.c, mkfs and what only it and mkdir call: init_superblock, init_freelist, init_ibitmap and
-- create_dir_base.
pub mod Layout
pub mod Nodes
pub mod FirstList
use filesystem.Bytes.{Block, block_size, zero_block, set_u32, copy, store_str}
use filesystem.Layer0.{Superblock, Disk, Op, write_block}
use filesystem.Layer1.Bitmap.{bits_per_block, inode_create, inode_free}
use filesystem.Layer1.Data.{data_write}
use filesystem.Layer1.FreeList.{addr_per_node, set_next, set_addr, data_allocate}
use filesystem.Layer1.Inode.{
  Inode, sizeof_inode, inodes_in_block, invalid_inode, zero_inode, inode_at, inode_write,
}
use filesystem.Layer1.Super.{superblock_size, or_uninitialized, read_superblock, write_superblock}
use filesystem.Prelude.{
  ltb, leb, ◌==◌, if◌then◌else◌, set, ℕ, zero, suc, ◌+◌, ◌-◌, ◌*◌, ◌/◌, min, max, bit_and, bit_or,
  bit_xor, true, false, Option, none, some, List, [], ◌∷◌,
}
use filesystem.Prelude.Int.{ℤ, pos, negsuc}
use filesystem.Prelude.Run.{
  totalblocks_invalid, fs_too_small, blocksize_too_small, bad_uid, unexpected_error, Result, ok,
  err, fail, pure, throw, get, ◌>>=◌, ◌>>◌, attempt,
}

-- MIN_BLOCKS, MAX_FS_SIZE, MIN_IBITMAP + MIN_INODES
abbrev pub min_blocks : ℕ
min_blocks = 4

abbrev pub max_fs_size : ℕ
max_fs_size = 250000

abbrev pub min_iblocks : ℕ
min_iblocks = 2

-- ceil(n / d) of positive numbers
unfoldable pub ceil_div : ℕ → ℕ → ℕ
ceil_div n d = (n + d - 1) / d

-- ceil(blocks * INODES_PERCENT), with INODES_PERCENT 0.1. The double product rounds up to the same
-- number for every count of blocks up to MAX_FS_SIZE.
abbrev pub iblocks_of : ℕ → ℕ
iblocks_of blocks = max min_iblocks (ceil_div blocks 10)

-- ceil(total_iblocks / (BITS_PER_BLOCK / 51.0 + 1)), the fraction cleared. The double quotient rounds
-- up to the same number for every count that iblocks_of gives.
abbrev pub ibitmap_of : ℕ → ℕ
ibitmap_of total_iblocks =
    ceil_div (total_iblocks * inodes_in_block) (bits_per_block + inodes_in_block)

-- The superblock that init_superblock writes.
unfoldable pub layout : ℕ → Superblock
unfolding ceil_div
layout blocks =
    let total_iblocks : ℕ = iblocks_of blocks in
    let ibitmap_blocks : ℕ = ibitmap_of total_iblocks in
    let inode_blocks : ℕ = total_iblocks - ibitmap_blocks in
    record {
      ibitmap_block_offset = superblock_size;
      ibitmap_size = ibitmap_blocks;
      ilist_block_offset = superblock_size + ibitmap_blocks;
      ilist_size = inode_blocks;
      data_block_offset = superblock_size + ibitmap_blocks + inode_blocks;
      data_size = blocks - superblock_size - total_iblocks;
      sb_total_blocks = blocks;
      total_inodes = inode_blocks * inodes_in_block;
      free_list_head = 1;
      root_inode = 1;
      sb_block_size = block_size;
      inodes_per_block = inodes_in_block;
      num_inodes = inode_blocks * inodes_in_block;
    }

unfoldable pub init_superblock : ℕ → Op (Unit {0})
init_superblock blocks = write_superblock (layout blocks)

-- The inner loop of init_freelist: cur.addr[j] = node_loc + j + 1, for the rounds that are left.
unfoldable pub fill_node : (num_data_blocks node_loc : ℕ) → Block → (j rounds : ℕ) → Block
fill_node num loc cur j zero = cur
fill_node num loc cur j (suc rounds) = elim (leb (loc + j + 1) num) [
  | true ↦ fill_node num loc (set_addr cur j (loc + j + 1)) (j + 1) rounds
  | false ↦ cur
]

abbrev pub blocks_per_node : ℕ
blocks_per_node = addr_per_node + 1

-- The node of round `i`.
unfoldable pub node_of : (num_data_blocks i : ℕ) → Block
unfolding fill_node
node_of num i =
    let loc : ℕ = i * blocks_per_node + 1 in
    let cur : Block = fill_node num loc zero_block 0 addr_per_node in
    let next_loc : ℕ = (i + 1) * blocks_per_node + 1 in
    if leb next_loc num then set_next cur next_loc else cur

-- The outer loop of init_freelist, from `i`.
unfoldable pub write_nodes : (num_data_blocks i rounds : ℕ) → Op (Unit {0})
unfolding node_of
write_nodes num i zero = pure tt
write_nodes num i (suc rounds) = do
  or_uninitialized (data_write (pos (i * blocks_per_node + 1)) (node_of num i))
  write_nodes num (i + 1) rounds

unfoldable pub init_freelist : Op (Unit {0})
unfolding write_nodes ceil_div
init_freelist = do
  sb ← read_superblock
  write_nodes sb.data_size 0 (ceil_div sb.data_size blocks_per_node)

-- The loop of init_ibitmap, from block `cur` of the bitmap. The status of a write is dropped.
unfoldable pub zero_ibitmap : (offset cur rounds : ℕ) → Op (Unit {0})
zero_ibitmap offset cur zero = pure tt
zero_ibitmap offset cur (suc rounds) = do
  attempt (write_block (pos (offset + cur)) zero_block)
  zero_ibitmap offset (cur + 1) rounds

unfoldable pub init_ibitmap : Op (Unit {0})
unfolding zero_ibitmap
init_ibitmap = do sb ← read_superblock; zero_ibitmap sb.ibitmap_block_offset 0 sb.ibitmap_size

-- S_IFDIR, S_IFREG
abbrev pub s_ifdir : ℕ
s_ifdir = 0x4000

abbrev pub s_ifreg : ℕ
s_ifreg = 0x8000

-- FILEBUF_SIZE and sizeof(dir_ent) of layer2.h
abbrev pub filebuf_size : ℕ
filebuf_size = 257

abbrev pub sizeof_dir_ent : ℕ
sizeof_dir_ent = 261

-- A dir_ent whose name is copied in by strcpy, over what the local variable held.
abbrev pub dir_ent : Block → List ℕ → ℕ → Block
dir_ent junk name inode_num = set_u32 (store_str junk 0 name) filebuf_size inode_num

-- "." and ".."
abbrev pub dot : List ℕ
dot = b'.' ∷ []

abbrev pub dot_dot : List ℕ
dot_dot = b'.' ∷ b'.' ∷ []

-- The directory block of create_dir_base.
unfoldable pub base_dirblock : (junk : Block) → (my_inode parent_inum : ℕ) → Block
unfolding copy set_u32 store_str
base_dirblock junk my_inode parent_inum =
    let parent : ℕ = if parent_inum == invalid_inode then my_inode else parent_inum in
    let d : Block = copy junk 0 (dir_ent junk dot my_inode) 0 sizeof_dir_ent in
    copy d sizeof_dir_ent (dir_ent junk dot_dot parent) 0 sizeof_dir_ent

-- The mode of a new directory: S_IFDIR set and S_IFREG cleared.
abbrev pub dir_mode : ℕ → ℕ
dir_mode mode = bit_and (bit_or s_ifdir mode) (bit_xor 0xffff s_ifreg)

abbrev pub new_dir : (mode uid gid data_num : ℕ) → Inode
new_dir mode uid gid data_num = record zero_inode {
  mode = dir_mode mode;
  uid = uid;
  gid = gid;
  size = 2 * sizeof_dir_ent;
  direct_blocks = set zero_inode.direct_blocks 0 data_num;
}

-- The number goes through `inode_num`. When no data block is left the inode is freed again.
unfoldable pub create_dir_base : (mode uid gid parent_inum : ℕ) → Op ℕ
unfolding base_dirblock
create_dir_base mode uid gid parent_inum = do
  v ← get
  my_inode ← inode_create (inode_at v.junk 0)
  r ← attempt (data_allocate (base_dirblock v.junk my_inode parent_inum))
  elim r [
    | err e ↦ do attempt (inode_free (pos my_inode)); throw e
    | ok data_num ↦ do
      attempt (inode_write (pos my_inode) (new_dir mode uid gid data_num))
      pure my_inode
  ]

-- S_IRWXU | S_IRWXG | S_IRWXO
abbrev pub all_permissions : ℕ
all_permissions = 0o777

-- What mkfs does once the disk is there. No status is looked at; the number of the root inode stays
-- 0 where none was made.
unfoldable pub format : (blocks root_uid root_gid : ℕ) → Op (Unit {0})
unfolding create_dir_base
format blocks root_uid root_gid = do
  attempt (init_superblock blocks)
  attempt init_freelist
  attempt init_ibitmap
  r ← attempt (create_dir_base all_permissions root_uid root_gid invalid_inode)
  sb ← read_superblock
  attempt (write_superblock (record sb { root_inode = elim r [ ok n ↦ n | err _ ↦ 0 ] }))
  pure tt

-- The number of blocks of a new disk, or why there is none.
unfoldable pub mkfs_blocks : (blocks root_uid root_gid : ℤ) → Result ℕ
mkfs_blocks (negsuc _) uid gid = err totalblocks_invalid
mkfs_blocks (pos blocks) uid gid =
    if ltb blocks min_blocks
    then err fs_too_small
    else if ltb block_size sizeof_inode
    then err blocksize_too_small
    else elim uid [
      | negsuc _ ↦ err bad_uid
      | pos _ ↦ elim gid [ negsuc _ ↦ err bad_uid | pos _ ↦ ok (min blocks max_fs_size) ]
    ]

-- A number that was tested not to be negative.
abbrev pub magnitude : ℤ → ℕ
magnitude (pos n) = n
magnitude (negsuc n) = n

-- `mem` is what malloc returns: NULL, or memory with some contents.
unfoldable pub mkfs : (mem : Option Disk) → (blocks root_uid root_gid : ℤ) → Op (Unit {0})
mkfs mem blocks root_uid root_gid v = elim (mkfs_blocks blocks root_uid root_gid) [
  | err e ↦ fail e v
  | ok n ↦ elim mem [
    | none ↦ fail unexpected_error (record v { disk = none; total_blocks = some n })
    | some d ↦
        format n (magnitude root_uid) (magnitude root_gid)
          (record v { disk = some d; total_blocks = some n })
  ]
]

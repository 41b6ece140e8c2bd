-- ===== src/Layer2/Contents.antt =====
-- A file as an array of bytes, without the loops of layer2.c: the block that a block number of the file
-- stands for, and the byte at a position. A pointer that is 0 stands for zeros.
pub mod Nth
pub mod Read
pub mod Sum
pub mod Tree
pub mod Join
pub mod Grow
pub mod Fresh
pub mod Allocation
pub mod Create
pub mod Roots
pub mod Extend
pub mod NewBlock
pub mod Leaf
pub mod FileLeaf
pub mod WriteRound
pub mod Valid
pub mod Created
pub mod PartRound
pub mod Inodes
pub mod Writing
pub mod WriteStep
pub mod WriteEnds
pub mod WriteAll
pub mod WriteLoop
pub mod ReadBack
pub mod Cut
pub mod Shrink
pub mod ShrinkStep
pub mod Inner
pub mod ClearEntry
pub mod CutTree
pub mod SamePlace
pub mod CutRoot
pub mod CutAll
pub mod FieldCut
pub mod Remove
pub mod ZeroRound
pub mod Dangling
pub mod FullRound
use filesystem.Bytes.{Block, block_size}
use filesystem.Layer1.Inode.{Inode}
use filesystem.Layer2.BlockMap.{
  addresses_per_block, int_pow, Root, direct, single, double, triple, locate, get_root, address,
}
use filesystem.Layer2.BlockMap.Locate.{is_field}
use filesystem.Prelude.{ℕ, zero, suc, ◌/◌, ◌%◌, ◌≤◌, ◌<◌, ◌≡◌, true, none, some}

-- The block that a tree of indirect blocks under `p` holds at an offset, over the contents `f` of the
-- data blocks.
abbrev pub lookup : (f : ℕ → Block) (levels p offset : ℕ) → ℕ
lookup f zero p offset = p
lookup f (suc i) p offset =
    lookup f i (address (f p) (offset / int_pow addresses_per_block i))
      (offset % int_pow addresses_per_block i)

abbrev pub levels_of : Root → ℕ
levels_of (direct i) = 0
levels_of single = 1
levels_of double = 2
levels_of triple = 3

-- The data block of the file's block `n`.
unfoldable pub block_of : (ℕ → Block) → Inode → (n : ℕ) → ℕ
block_of f m n = elim (locate n) [
  | none ↦ 0
  | some (root, levels, offset) ↦ lookup f levels (get_root root m) offset
]

-- The byte of the file at a position.
abbrev pub byte_at : (ℕ → Block) → Inode → (p : ℕ) → ℕ
byte_at f m p = f (block_of f m (p / block_size)) (p % block_size)

-- Every pointer of a tree of indirect blocks is 0 or the number of a data block.
abbrev pub IsTree : (f : ℕ → Block) (data_size levels p : ℕ) → Type 0
IsTree f data_size zero p = p ≤ data_size
IsTree f data_size (suc i) p =
    (p ≤ data_size) × ((j : ℕ) → j < addresses_per_block → IsTree f data_size i (address (f p) j))

-- An inode whose pointers all are of data blocks, and whose size fits an int, to which read_i narrows
-- the number of bytes.
pub record IsFile (f : ℕ → Block) (data_size : ℕ) (m : Inode) : Type 0 where
  pub trees : (r : Root) → is_field r ≡ true → IsTree f data_size (levels_of r) (get_root r m)
  pub size_word : m.size < 2147483648

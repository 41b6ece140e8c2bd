-- ===== src/Layer1/FreeList.antt =====
-- layer1.c, data_free and data_allocate: the free data blocks as a chain of nodes, each a data
-- block that holds the number of the next node and the numbers of up to 1023 free blocks.
pub mod Entries
pub mod Chain
pub mod Length
pub mod Take
pub mod Allocate
pub mod Free
pub mod Walk
pub mod Give
use filesystem.Bytes.{Block, zero_block, u32_at, set_u32}
use filesystem.Layer0.{Superblock, Op}
use filesystem.Layer1.Data.{data_read, data_write}
use filesystem.Layer1.Inode.{one_based, filled}
use filesystem.Layer1.Super.{read_superblock, write_superblock}
use filesystem.Prelude.{
  ◌==◌, if◌then◌else◌, ℕ, zero, suc, ◌+◌, ◌*◌, Bool, true, false, Option, none, some,
}
use filesystem.Prelude.Int.{ℤ, pos}
use filesystem.Prelude.Run.{
  invalid_block, data_full, ok, err, diverge, pure, throw, get, ◌>>=◌, ◌>>◌, attempt,
}

-- ADDR_PER_NODE
abbrev pub addr_per_node : ℕ
addr_per_node = 1023

abbrev pub invalid_data : ℕ
invalid_data = 0

-- freelist_node.next and freelist_node.addr[i]
abbrev pub next_of : Block → ℕ
next_of b = u32_at b 0

abbrev pub set_next : Block → ℕ → Block
set_next b n = set_u32 b 0 n

abbrev pub addr : Block → ℕ → ℕ
addr b i = u32_at b (4 + 4 * i)

abbrev pub set_addr : Block → ℕ → ℕ → Block
set_addr b i n = set_u32 b (4 + 4 * i) n

-- The first entry from `i` that is INVALID_DATA.
unfoldable pub first_empty : Block → (i rounds : ℕ) → Option ℕ
first_empty b i zero = none
first_empty b i (suc rounds) = elim (addr b i == invalid_data) [
  | true ↦ some i
  | false ↦ first_empty b (i + 1) rounds
]

-- The first entry from `i` that is not INVALID_DATA.
unfoldable pub first_used : Block → (i rounds : ℕ) → Option ℕ
first_used b i zero = none
first_used b i (suc rounds) = elim (addr b i == invalid_data) [
  | true ↦ first_used b (i + 1) rounds
  | false ↦ some i
]

-- The while loop of data_free: the walk to a node with an empty entry, which gets the block. A read
-- that fails leaves `cur_node` as it was. False: the list ended without such a node.
unfoldable pub put_in_node :
    (fuel : ℕ) → (cur_loc : ℕ) → (cur_node : Block) → (data_block_num : ℕ) → Op Bool
put_in_node zero cur_loc cur_node num = λ _. diverge
put_in_node (suc fuel) cur_loc cur_node num = elim (cur_loc == invalid_data) [
  | true ↦ pure false
  | false ↦ do
    r ← attempt (data_read (pos cur_loc))
    let b : Block = elim r [ ok b ↦ b | err _ ↦ cur_node ]
    elim (first_empty b 0 addr_per_node) [
      | some i ↦ do attempt (data_write (pos cur_loc) (set_addr b i num)); pure true
      | none ↦ put_in_node fuel (next_of b) b num
    ]
]

-- The block becomes the new head of the list.
unfoldable pub new_head : Superblock → ℕ → Op (Unit {0})
new_head sb num = do
  attempt (data_write (pos num) (set_next zero_block sb.free_list_head))
  attempt (write_superblock (record sb { free_list_head = num }))
  pure tt

unfoldable pub data_free : ℤ → Op (Unit {0})
data_free data_block_num = do
  sb ← read_superblock
  v ← get
  elim (one_based data_block_num sb.data_size) [
    | none ↦ throw invalid_block
    | some k ↦ do
      placed ← put_in_node (sb.data_size + 1) sb.free_list_head v.junk (suc k)
      if placed then pure tt else new_head sb (suc k)
  ]

-- The number goes through `data_block_num`.
unfoldable pub data_allocate : Block → Op ℕ
data_allocate new_data = do
  sb ← read_superblock
  if sb.free_list_head == invalid_data then throw data_full else do
    cur ← filled (data_read (pos sb.free_list_head))
    elim (first_used cur 0 addr_per_node) [
      | some i ↦ do
        attempt (data_write (pos sb.free_list_head) (set_addr cur i invalid_data))
        data_write (pos (addr cur i)) new_data
        pure (addr cur i)
      | none ↦ do
        attempt (write_superblock (record sb { free_list_head = next_of cur }))
        data_write (pos sb.free_list_head) new_data
        pure sb.free_list_head
    ]

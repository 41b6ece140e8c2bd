-- ===== src/Layer2/BlockMap.antt =====
-- layer2.c, get_nth_datablock and rm_nth_datablock: the tree of data blocks of a file. The inode is
-- the caller's copy, which they update; the caller writes it back.
pub mod Locate
use filesystem.Bytes.{Block, block_size, zero_block, u32_at, set_u32, all_zero}
use filesystem.Layer0.{Op}
use filesystem.Layer1.Data.{data_read, data_write}
use filesystem.Layer1.FreeList.{data_free, data_allocate}
use filesystem.Layer1.Inode.{Inode, num_direct}
use filesystem.Prelude.{
  ltb, ◌==◌, if◌then◌else◌, get_or, set, ℕ, zero, suc, ◌+◌, ◌-◌, ◌*◌, ◌/◌, ◌%◌, Bool, true, false,
  ◌&&◌, not, Option, none, some, List, [], ◌∷◌,
}
use filesystem.Prelude.Int.{pos}
use filesystem.Prelude.Run.{invalid_block, Result, ok, err, pure, throw, ◌>>=◌, ◌>>◌, attempt}

-- ADDRESSES_PER_BLOCK
abbrev pub addresses_per_block : ℕ
addresses_per_block = 1024

unfoldable pub int_pow : ℕ → ℕ → ℕ
int_pow x zero = 1
int_pow x (suc y) = int_pow x y * x

-- from_pointer: the field of the inode that a block is reached through.
pub data Root : Type 0 where
  direct : ℕ → Root
  single double triple : Root

abbrev pub single_indirect : ℕ
single_indirect = num_direct + addresses_per_block

abbrev pub double_limit : ℕ
double_limit = single_indirect + addresses_per_block * addresses_per_block

abbrev pub triple_limit : ℕ
triple_limit = double_limit + addresses_per_block * addresses_per_block * addresses_per_block

-- The field, the number of levels below it (i + 1 of the source) and the offset within it.
unfoldable pub locate : ℕ → Option (Root × ℕ × ℕ)
locate n =
    if ltb n num_direct
    then some (direct n, 0, n)
    else if ltb n single_indirect
    then some (single, 1, n - num_direct)
    else if ltb n double_limit
    then some (double, 2, n - single_indirect)
    else if ltb n triple_limit
    then some (triple, 3, n - double_limit)
    else none

-- *from_pointer
unfoldable pub get_root : Root → Inode → ℕ
get_root (direct i) n = get_or n.direct_blocks i 0
get_root single n = n.indirect
get_root double n = n.double_indirect
get_root triple n = n.triple_indirect

unfoldable pub set_root : Root → Inode → ℕ → Inode
set_root (direct i) n a = record n { direct_blocks = set n.direct_blocks i a }
set_root single n a = record n { indirect = a }
set_root double n a = record n { double_indirect = a }
set_root triple n a = record n { triple_indirect = a }

-- address_block.address[i]
abbrev pub address : Block → ℕ → ℕ
address b i = u32_at b (4 * i)

abbrev pub set_address : Block → ℕ → ℕ → Block
set_address b i a = set_u32 b (4 * i) a

-- What a call leaves in `inod` and `created`, and its result.
pub record Nth : Type 0 where
  pub inode : Inode
  pub created : Bool
  pub block : Result ℕ

-- The walk down the indirect blocks, for the levels that are left.
unfoldable pub descend :
    (create : Bool) (inod : Inode) (created : Bool) (levels next_addr offset : ℕ) → Op Nth
descend create inod created zero next offset =
    pure (record { inode = inod; created = created; block = ok next })
descend create inod created (suc i) next offset = elim (next == 0 && not create) [
  | true ↦ pure (record { inode = inod; created = created; block = ok 0 })
  | false ↦ do
    r ← attempt (data_read (pos next))
    elim r [
      | err e ↦ pure (record { inode = inod; created = created; block = err e })
      | ok b ↦
          let index : ℕ = offset / int_pow addresses_per_block i in
          let rest : ℕ = offset % int_pow addresses_per_block i in
          elim (address b index == 0 && create) [
            | false ↦ descend create inod created i (address b index) rest
            | true ↦ do
              a ← attempt (data_allocate zero_block)
              elim a [
                | err e ↦ pure (record { inode = inod; created = created; block = err e })
                | ok new_block ↦ do
                  let b' = set_address b index new_block
                  w ← attempt (data_write (pos next) b')
                  elim w [
                    | err e ↦ pure (record { inode = inod; created = created; block = err e })
                    | ok _ ↦ descend create inod true i (address b' index) rest
                  ]
              ]
          ]
    ]
]

-- `created` starts as FALSE.
unfoldable pub get_nth_datablock : Inode → (n : ℕ) → (create : Bool) → Op Nth
get_nth_datablock inod n create = elim (locate n) [
  | none ↦ pure (record { inode = inod; created = false; block = err invalid_block })
  | some (root, levels, offset) ↦ elim (get_root root inod == 0 && create) [
    | false ↦ descend create inod false levels (get_root root inod) offset
    | true ↦ do
      a ← attempt (data_allocate zero_block)
      elim a [
        | err e ↦ pure (record { inode = inod; created = false; block = err e })
        | ok new_block ↦ descend create (set_root root inod new_block) true levels new_block offset
      ]
  ]
]

-- A level of the walk of rm_nth_datablock: block_addrs[j], b[j] and next_index[j].
pub record Level : Type 0 where
  pub block_addr : ℕ
  pub block : Block
  pub index : ℕ

-- The walk down, which stops at a 0. The deepest level comes first.
unfoldable pub walk_down : (levels next_addr offset : ℕ) → List Level → Op (List Level)
walk_down zero next offset acc = pure acc
walk_down (suc j) next offset acc = elim (next == 0) [
  | true ↦ pure acc
  | false ↦ do
    b ← data_read (pos next)
    let index : ℕ = offset / int_pow addresses_per_block j
    walk_down j (address b index) (offset % int_pow addresses_per_block j)
        (record { block_addr = next; block = b; index = index } ∷ acc)
]

-- Frees the block that an entry names, and clears the entry.
unfoldable pub clear_entry : Level → Op Block
clear_entry l = if address l.block l.index == 0 then pure l.block else do
  data_free (pos (address l.block l.index))
  let b = set_address l.block l.index 0
  attempt (data_write (pos l.block_addr) b)
  pure b

-- The loop upwards: true when every block on the way became empty.
unfoldable pub free_up : List Level → Op Bool
free_up [] = pure true
free_up (l ∷ ls) = do
  b ← clear_entry l
  elim (all_zero b 0 block_size) [ true ↦ free_up ls | false ↦ pure false ]

-- The inode that the call leaves; where it fails, `inod` is not changed.
unfoldable pub rm_nth_datablock : Inode → ℕ → Op Inode
rm_nth_datablock inod n = elim (locate n) [
  | none ↦ throw invalid_block
  | some (root, levels, offset) ↦ do
    path ← walk_down levels (get_root root inod) offset []
    emptied ← free_up path
    elim (emptied && not (get_root root inod == 0)) [
      | true ↦ do data_free (pos (get_root root inod)); pure (set_root root inod 0)
      | false ↦ pure inod
    ]
]

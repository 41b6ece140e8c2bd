-- ===== src/Layer2/BlockMap/Locate.antt =====
-- Which entries a block number of a file stands for.
use filesystem.Layer1.Inode.{num_direct}
use filesystem.Layer2.BlockMap.{
  addresses_per_block, int_pow, Root, direct, single, double, triple, triple_limit, locate,
}
use filesystem.Prelude.{
  ltb, ℕ, zero, suc, ◌+◌, ◌*◌, ◌/◌, ◌%◌, ◌≤◌, ◌<◌, ◌≡◌, Bool, true, Option, none, some, List, [],
  ◌∷◌, arith,
}

-- The entries that get_nth_datablock and rm_nth_datablock follow, one in the indirect block of every
-- level: next_index for the offset that is left.
unfoldable pub indices : (levels offset : ℕ) → List ℕ
unfolding int_pow
indices zero offset = []
indices (suc i) offset =
    offset / int_pow addresses_per_block i ∷ indices i (offset % int_pow addresses_per_block i)

-- The block that a field of the inode and the entries below it lead to, counted without a division:
-- the blocks of the fields one after another.
unfoldable pub block_at : Root → List ℕ → ℕ
block_at (direct i) [] = i
block_at single (a ∷ []) = 10 + a
block_at double (a ∷ b ∷ []) = 10 + 1024 + (a * 1024 + b)
block_at triple (a ∷ b ∷ c ∷ []) = 10 + 1024 + 1048576 + (a * 1048576 + b * 1024 + c)
block_at _ _ = 0

abbrev pub AllBelow : (bound : ℕ) → List ℕ → Type 0
AllBelow bound [] = Unit {0}
AllBelow bound (i ∷ is) = (i < bound) × AllBelow bound is

abbrev pub is_field : Root → Bool
is_field (direct i) = ltb i num_direct
is_field _ = true

-- What locate can give for the block `n`: nothing from the limit on, and below it a field and entries
-- within their blocks that lead to `n`.
abbrev pub Located : ℕ → Option (Root × ℕ × ℕ) → Type 0
Located n none = triple_limit ≤ n
Located n (some (root, levels, offset)) =
    (n < triple_limit)
    × (is_field root ≡ true)
    × AllBelow addresses_per_block (indices levels offset)
    × (block_at root (indices levels offset) ≡ n)

-- Every block number below the limit of the triple indirect block is found, and no other: the field of
-- the inode and the entries of the indirect blocks are within bounds, and lead to that block number, so
-- that no other has the same ones.
pub locate-Located : (n : ℕ) → Located n (locate n)
unfolding locate indices int_pow block_at
locate-Located n = ground arith

-- ===== src/Layer2/Contents/Inner.antt =====
-- A tree of indirect blocks on the way to an offset, and the tree under the entry there.
use filesystem.Layer0.{Superblock, Disk}
use filesystem.Layer1.Data.View.{view}
use filesystem.Layer1.FreeList.Chain.{free_blocks, valid_once}
use filesystem.Layer2.BlockMap.{addresses_per_block, address}
use filesystem.Layer2.BlockMap.Locate.{indices, AllBelow}
use filesystem.Layer2.Contents.Fresh.{Budget}
use filesystem.Layer2.Contents.Grow.{outside_of, entry_at}
use filesystem.Layer2.Contents.Join.{others, tree_count-split}
use filesystem.Layer2.Contents.Tree.{just, tree_count}
use filesystem.Prelude.{count, ℕ, suc, ◌+◌, ◌≤◌, ◌<◌, ◌≡◌, ◌≢◌, List, arith}

-- A tree with a root that is not 0, on the way to an offset.
pub record Inner (sb : Superblock) (d : Disk) (ps : List ℕ) (i p offset : ℕ) (outside : ℕ → ℕ)
    : Type 0 where
  pub nonzero : p ≢ 0
  pub below : AllBelow addresses_per_block (indices (suc i) offset)
  pub budget : Budget (view sb d) sb.data_size ps (suc i) p outside

module _ {sb : Superblock} {d : Disk} {ps : List ℕ} {i p offset : ℕ} {outside : ℕ → ℕ}
    (t : Inner sb d ps i p offset outside) where
  abbrev pub child : ℕ
  child = address (view sb d p) (entry_at i offset)

  pub index-lt : entry_at i offset < addresses_per_block
  unfolding indices
  index-lt = t.below.0

  -- The uses before, with the tree under the entry apart.
  pub uses_before :
      (a : ℕ)
      → count a (free_blocks (view sb d) ps)
          + just p a
          + tree_count (view sb d) i child a
          + others (view sb d) i (view sb d p) (entry_at i offset) a
          + outside a
        ≤ valid_once sb.data_size a
  uses_before a =
      omega (
        arith,
        t.budget a,
        tree_count-split (view sb d) i p (entry_at i offset) a t.nonzero index-lt,
      )

  -- A block of the tree under the entry is nowhere else in the tree.
  pub apart :
      (a : ℕ)
      → 0 < tree_count (view sb d) i child a
      → just p a + others (view sb d) i (view sb d p) (entry_at i offset) a ≡ 0
  apart a h = ground (arith, h, uses_before a)

  pub Budget-child :
      Budget
        (view sb d)
        sb.data_size
        ps
        i
        child
        (outside_of (view sb d) i p (entry_at i offset) outside)
  Budget-child a = omega (arith, uses_before a)

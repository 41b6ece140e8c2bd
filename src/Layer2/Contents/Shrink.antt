-- ===== src/Layer2/Contents/Shrink.antt =====
-- What the removal of a block from a tree of indirect blocks leaves: from a tree under one entry to the
-- tree above it.
use native.Mathlib.Nat.{div-add-mod}
use filesystem.Bytes.{zero_block}
use filesystem.Layer0.{Superblock, Disk, Vol}
use filesystem.Layer1.Data.View.{view}
use filesystem.Layer1.FreeList.Chain.{free_blocks, IsFreeList}
use filesystem.Layer1.Ready.{Ready}
use filesystem.Layer2.BlockMap.{addresses_per_block, int_pow, address}
use filesystem.Layer2.BlockMap.Locate.{indices, AllBelow}
use filesystem.Layer2.Contents.{lookup}
use filesystem.Layer2.Contents.Grow.{entry_at, rest_at}
use filesystem.Layer2.Contents.Join.{others}
use filesystem.Layer2.Contents.Tree.{just, tree_count}
use filesystem.Prelude.{
  ◌==◌, if◌then◌else◌, count, ℕ, suc, ◌+◌, ◌*◌, ◌/◌, ◌%◌, ◌<◌, ◌≡◌, sym, ap, ◌∙◌, ◌≢◌, Bool, true,
  List,
}

-- What `cut` leaves of a tree: no block is lost or used twice, the tree has no block at the offset and holds
-- else what it held, and blocks in use elsewhere stay. Where it says that all entries of the root are
-- 0, the tree is no more than its root.
pub record Shrank (n : ℕ) (sb : Superblock) (d : Disk) (ps : List ℕ) (levels p offset : ℕ)
    (outside : ℕ → ℕ) (e : Bool) (v' : Vol) : Type 0 where
  pub sb' : Superblock
  pub d' : Disk
  pub ps' : List ℕ
  pub ready : Ready v' sb' d' n
  pub same_size : sb'.data_size ≡ sb.data_size
  pub free_list : IsFreeList sb'.data_size (view sb' d') sb'.free_list_head ps'
  pub conserved :
      (a : ℕ)
      → count a (free_blocks (view sb' d') ps') + tree_count (view sb' d') levels p a
        ≡ count a (free_blocks (view sb d) ps) + tree_count (view sb d) levels p a
  pub others_same :
      (o : ℕ)
      → AllBelow addresses_per_block (indices levels o)
      → o ≢ offset
      → view sb' d' (lookup (view sb' d') levels p o) ≡ view sb d (lookup (view sb d) levels p o)
  pub gone : levels ≢ 0 → lookup (view sb' d') levels p offset ≡ 0
  pub freed :
      levels ≢ 0
      → lookup (view sb d) levels p offset ≢ 0
      → tree_count (view sb' d') levels p (lookup (view sb d) levels p offset) ≡ 0
  pub frame : (a : ℕ) → 0 < outside a → view sb' d' a ≡ view sb d a
  pub no_contents :
      e ≡ true
      → levels ≢ 0
      → (o : ℕ) → AllBelow addresses_per_block (indices levels o)
      → view sb' d' (lookup (view sb' d') levels p o) ≡ zero_block
  pub only_root :
      e ≡ true → (a : ℕ) → tree_count (view sb' d') levels p a ≡ tree_count (view sb' d') 0 p a
  pub leaf : levels ≡ 0 → e ≡ true

-- The state in which an entry of `p` was set to 0 and the block that it named is free, when the state
-- before was `sb`, `d`, `ps`.
pub record Cleared (sb : Superblock) (d : Disk) (ps : List ℕ) (i p offset : ℕ) (outside : ℕ → ℕ)
    (sb2 : Superblock) (d2 : Disk) (ps2 : List ℕ) : Type 0 where
  pub nonzero : p ≢ 0
  pub below : AllBelow addresses_per_block (indices (suc i) offset)
  pub entries_now :
      (k : ℕ)
      → address (view sb2 d2 p) k ≡ (if k == entry_at i offset then 0 else address (view sb d p) k)
  pub untouched :
      (a : ℕ)
      → 0 < outside a + others (view sb d) i (view sb d p) (entry_at i offset) a
      → view sb2 d2 a ≡ view sb d a
  pub counts :
      (a : ℕ)
      → count a (free_blocks (view sb2 d2) ps2)
        ≡ count a (free_blocks (view sb d) ps)
          + tree_count (view sb d) i (address (view sb d p) (entry_at i offset)) a
  pub apart :
      (a : ℕ)
      → 0 < tree_count (view sb d) i (address (view sb d p) (entry_at i offset)) a
      → just p a + others (view sb d) i (view sb d p) (entry_at i offset) a ≡ 0
  pub nothing_else :
      i ≢ 0
      → (o : ℕ) → AllBelow addresses_per_block (indices i o)
      → o ≢ rest_at i offset
      → view sb d (lookup (view sb d) i (address (view sb d p) (entry_at i offset)) o) ≡ zero_block

-- An offset is its entry and the rest.
pub entry_rest_eq :
    (i o offset : ℕ)
    → entry_at i o ≡ entry_at i offset
    → rest_at i o ≡ rest_at i offset
    → o ≡ offset
entry_rest_eq i o offset e e' =
    let size : ℕ = int_pow addresses_per_block i in
    sym (div-add-mod o size)
    ∙ ap (λ (x : ℕ). size * x + o % size) e
    ∙ ap (λ (x : ℕ). size * (offset / size) + x) e'
    ∙ div-add-mod offset size

-- ===== src/Layer2/Contents/Grow.antt =====
-- What the creation of a block in a tree of indirect blocks leaves: from a tree under one entry to the
-- tree above it.
use mathlib.Core.Path.{subst}
use filesystem.Bytes.{Block}
use filesystem.Layer0.{Superblock, Disk, Vol}
use filesystem.Layer1.Data.View.{view}
use filesystem.Layer1.FreeList.{invalid_data}
use filesystem.Layer1.FreeList.Chain.{free_blocks, IsFreeList}
use filesystem.Layer1.Ready.{Ready}
use filesystem.Layer2.BlockMap.{addresses_per_block, int_pow, address}
use filesystem.Layer2.BlockMap.Locate.{indices, AllBelow}
use filesystem.Layer2.Contents.{lookup}
use filesystem.Layer2.Contents.Join.{others, tree_count-split, tree_count-join, contents-join}
use filesystem.Layer2.Contents.Tree.{just, tree_count}
use filesystem.Prelude.{
  eq_or_ne, count, ℕ, suc, ◌+◌, ◌/◌, ◌%◌, ◌<◌, ◌≡◌, refl, sym, ap, ◌∙◌, ◌≢◌, ◌⊎◌, inl, inr, List,
  arith,
}
use filesystem.Prelude.Run.{data_full, Result, ok, err}

-- What get_nth_datablock leaves of a tree when it creates the block at an offset: no block is lost or
-- used twice, the tree holds what it held, a new block zeros, and blocks in use elsewhere stay. `outside`
-- counts the uses elsewhere, `q` is the result.
pub record Grew (n : ℕ) (sb : Superblock) (d : Disk) (ps : List ℕ) (levels p offset : ℕ)
    (outside : ℕ → ℕ) (q : Result ℕ) (v' : Vol) : Type 0 where
  pub sb' : Superblock
  pub d' : Disk
  pub ps' : List ℕ
  pub ready : Ready v' sb' d' n
  pub same_size : sb'.data_size ≡ sb.data_size
  pub free_list : IsFreeList sb'.data_size (view sb' d') sb'.free_list_head ps'
  pub conserved :
      (a : ℕ)
      → count a (free_blocks (view sb' d') ps') + tree_count (view sb' d') levels p a
        ≡ count a (free_blocks (view sb d) ps) + tree_count (view sb d) levels p a
  pub contents :
      (o : ℕ)
      → AllBelow addresses_per_block (indices levels o)
      → view sb' d' (lookup (view sb' d') levels p o) ≡ view sb d (lookup (view sb d) levels p o)
  pub frame : (a : ℕ) → 0 < outside a → view sb' d' a ≡ view sb d a
  pub ended :
      ((q ≡ err data_full) × (sb'.free_list_head ≡ invalid_data))
      ⊎ ((q ≡ ok (lookup (view sb' d') levels p offset))
          × (lookup (view sb' d') levels p offset ≢ 0))

-- The uses of a block outside of the tree under one entry.
abbrev pub outside_of : (f : ℕ → Block) (i p j : ℕ) (outside : ℕ → ℕ) → ℕ → ℕ
outside_of f i p j outside a = outside a + just p a + others f i (f p) j a

-- The entry that an offset goes through, and the offset below it.
abbrev pub entry_at : (i offset : ℕ) → ℕ
entry_at i offset = offset / int_pow addresses_per_block i

abbrev pub rest_at : (i offset : ℕ) → ℕ
rest_at i offset = offset % int_pow addresses_per_block i

-- The state in which the tree under an entry grows, when the state before was `sb`, `d`, `ps`: the
-- entry names `c`, and no other entry, no use elsewhere and no contents differ.
pub record Above (sb : Superblock) (d : Disk) (ps : List ℕ) (i p offset : ℕ) (outside : ℕ → ℕ)
    (sb2 : Superblock) (d2 : Disk) (ps2 : List ℕ) (c : ℕ) : Type 0 where
  pub nonzero : p ≢ 0
  pub below : AllBelow addresses_per_block (indices (suc i) offset)
  pub size_kept : sb2.data_size ≡ sb.data_size
  pub named : address (view sb2 d2 p) (entry_at i offset) ≡ c
  pub kept :
      (k : ℕ)
      → k < addresses_per_block
      → k ≢ entry_at i offset
      → address (view sb2 d2 p) k ≡ address (view sb d p) k
  pub untouched :
      (a : ℕ)
      → 0 < outside a + others (view sb d) i (view sb d p) (entry_at i offset) a
      → view sb2 d2 a ≡ view sb d a
  pub counts :
      (a : ℕ)
      → count a (free_blocks (view sb2 d2) ps2) + tree_count (view sb2 d2) i c a
        ≡ count a (free_blocks (view sb d) ps)
          + tree_count (view sb d) i (address (view sb d p) (entry_at i offset)) a
  pub held :
      (o : ℕ)
      → AllBelow addresses_per_block (indices i o)
      → view sb2 d2 (lookup (view sb2 d2) i c o)
        ≡ view sb d (lookup (view sb d) i (address (view sb d p) (entry_at i offset)) o)

module _ {n : ℕ} {sb : Superblock} {d : Disk} {ps : List ℕ} {i p offset : ℕ} {outside : ℕ → ℕ}
    {sb2 : Superblock} {d2 : Disk} {ps2 : List ℕ} {c : ℕ} {q : Result ℕ} {v' : Vol}
    (h : Above sb d ps i p offset outside sb2 d2 ps2 c)
    (g : Grew n sb2 d2 ps2 i c
      (rest_at i offset)
      (outside_of (view sb d) i p (entry_at i offset) outside)
      q
      v') where
  entry-lt : entry_at i offset < addresses_per_block
  unfolding indices
  entry-lt = h.below.0

  root_kept : view g.sb' g.d' p ≡ view sb2 d2 p
  root_kept = g.frame p (ground arith)

  entry_kept : address (view g.sb' g.d' p) (entry_at i offset) ≡ c
  entry_kept = ap (λ (b : Block). address b (entry_at i offset)) root_kept ∙ h.named

  others_kept :
      (k : ℕ)
      → k < addresses_per_block
      → k ≢ entry_at i offset
      → address (view g.sb' g.d' p) k ≡ address (view sb d p) k
  others_kept k l other = ap (λ (b : Block). address b k) root_kept ∙ h.kept k l other

  frame_kept :
      (a : ℕ)
      → 0 < others (view sb d) i (view sb d p) (entry_at i offset) a
      → view g.sb' g.d' a ≡ view sb d a
  frame_kept a l = g.frame a (omega (arith, l)) ∙ h.untouched a (omega (arith, l))

  conserved_above :
      (a : ℕ)
      → count a (free_blocks (view g.sb' g.d') g.ps') + tree_count (view g.sb' g.d') (suc i) p a
        ≡ count a (free_blocks (view sb d) ps) + tree_count (view sb d) (suc i) p a
  conserved_above a =
      let f : ℕ → Block = view sb d in
      let f' : ℕ → Block = view g.sb' g.d' in
      let j : ℕ = entry_at i offset in
      omega (
        arith,
        tree_count-join f f' i p j h.nonzero entry-lt others_kept frame_kept a,
        ap (λ (x : ℕ). tree_count f' i x a) entry_kept,
        tree_count-split f i p j a h.nonzero entry-lt,
        g.conserved a,
        h.counts a,
      )

  -- The contents behind the entry.
  contents_entry :
      (o : ℕ)
      → AllBelow addresses_per_block (indices i o)
      → view g.sb' g.d'
          (lookup (view g.sb' g.d') i (address (view g.sb' g.d' p) (entry_at i offset)) o)
        ≡ view sb d (lookup (view sb d) i (address (view sb d p) (entry_at i offset)) o)
  contents_entry o b =
      ap (λ (x : ℕ). view g.sb' g.d' (lookup (view g.sb' g.d') i x o)) entry_kept
      ∙ g.contents o b
      ∙ h.held o b

  contents_above :
      (o : ℕ)
      → AllBelow addresses_per_block (indices (suc i) o)
      → view g.sb' g.d' (lookup (view g.sb' g.d') (suc i) p o)
        ≡ view sb d (lookup (view sb d) (suc i) p o)
  unfolding indices
  contents_above o b = elim (eq_or_ne (entry_at i o) (entry_at i offset)) [
    | inr other ↦
        contents-join (view sb d) (view g.sb' g.d') i p (entry_at i offset) h.nonzero entry-lt
          others_kept frame_kept o refl refl b other
    | inl e ↦
        subst
          (λ (k : ℕ).
            view g.sb' g.d'
              (lookup (view g.sb' g.d') i (address (view g.sb' g.d' p) k) (rest_at i o))
            ≡ view sb d (lookup (view sb d) i (address (view sb d p) k) (rest_at i o)))
          (sym e) (contents_entry (rest_at i o) b.1)
  ]

  found_above :
      lookup (view g.sb' g.d') (suc i) p offset ≡ lookup (view g.sb' g.d') i c (rest_at i offset)
  found_above = ap (λ (x : ℕ). lookup (view g.sb' g.d') i x (rest_at i offset)) entry_kept

  pub Grew-Above : Grew n sb d ps (suc i) p offset outside q v'
  Grew-Above = record {
    sb' = g.sb';
    d' = g.d';
    ps' = g.ps';
    ready = g.ready;
    same_size = g.same_size ∙ h.size_kept;
    free_list = g.free_list;
    conserved = conserved_above;
    contents = contents_above;
    frame = λ a l. g.frame a (omega (arith, l)) ∙ h.untouched a (omega (arith, l));
    ended = rw found_above g.ended;
  }

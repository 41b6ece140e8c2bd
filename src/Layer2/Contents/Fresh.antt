-- ===== src/Layer2/Contents/Fresh.antt =====
-- A new block under an entry of an indirect block: what data_allocate and data_write leave of the tree.
use filesystem.Bytes.{Block, zero_block}
use filesystem.Bytes.Words.{u32_at-set_u32_self, u32_at-set_u32_ne}
use filesystem.Layer0.{Superblock, Disk, Vol}
use filesystem.Layer1.Data.View.{view, upd, write_data, view-write_data}
use filesystem.Layer1.FreeList.Allocate.{Took}
use filesystem.Layer1.FreeList.Chain.{
  free_blocks, valid_once, IsFreeList, IsChain-upd, free_blocks-upd,
}
use filesystem.Layer2.BlockMap.{addresses_per_block, address, set_address}
use filesystem.Layer2.BlockMap.Locate.{indices, AllBelow}
use filesystem.Layer2.Contents.{lookup}
use filesystem.Layer2.Contents.Grow.{outside_of, entry_at, Above}
use filesystem.Layer2.Contents.Join.{others, tree_count-split}
use filesystem.Layer2.Contents.Nth.{lookup-zero}
use filesystem.Layer2.Contents.Tree.{
  just, tree_count, tree_count-zero, tree_count-fresh, contents-fresh,
}
use filesystem.Prelude.{
  ◌==◌, if◌then◌else◌, eq_or_ne, count, ℕ, suc, ◌+◌, ◌*◌, ◌≤◌, ◌<◌, ◌≡◌, refl, sym, ap, ◌∙◌, ◌≢◌,
  inl, inr, List, arith,
}

-- No block is free, in the tree or in use elsewhere more than once, and all are data blocks.
abbrev pub Budget :
    (f : ℕ → Block) (size : ℕ) (ps : List ℕ) (levels p : ℕ) (outside : ℕ → ℕ) → Type 0
Budget f size ps levels p outside =
    (a : ℕ) → count a (free_blocks f ps) + tree_count f levels p a + outside a ≤ valid_once size a

-- The block with one entry set.
pub address-set_address :
    (b : Block) (j w k : ℕ)
    → w < 4294967296
    → address (set_address b j w) k ≡ (if k == j then w else address b k)
address-set_address b j w k h = elim (eq_or_ne k j) [
  | inl e ↦ ground (arith, u32_at-set_u32_self b (4 * j) w h)
  | inr ne ↦ ground (arith, u32_at-set_u32_ne b (4 * j) w (4 * k))
]

-- A tree in which an entry of the root is empty, on the way to an offset.
pub record Empty (sb : Superblock) (d : Disk) (ps : List ℕ) (i p offset : ℕ) (outside : ℕ → ℕ)
    : Type 0 where
  pub root_nonzero : p ≢ 0
  pub path_below : AllBelow addresses_per_block (indices (suc i) offset)
  pub budget : Budget (view sb d) sb.data_size ps (suc i) p outside
  pub no_entry : address (view sb d p) (entry_at i offset) ≡ 0
  pub size_fits : sb.data_size < 2147483648

module _ {sb : Superblock} {d : Disk} {n : ℕ} {ps : List ℕ} {i p offset : ℕ} {outside : ℕ → ℕ}
    (e : Empty sb d ps i p offset outside) {w : ℕ} {v1 : Vol}
    (t : Took n sb d ps zero_block w v1) where
  index-lt : entry_at i offset < addresses_per_block
  unfolding indices
  index-lt = e.path_below.0

  -- The uses before, with the empty entry apart.
  uses :
      (a : ℕ)
      → count a (free_blocks (view sb d) ps)
          + just p a
          + others (view sb d) i (view sb d p) (entry_at i offset) a
          + outside a
        ≤ valid_once sb.data_size a
  uses a = omega (
    arith,
    e.budget a,
    tree_count-split (view sb d) i p (entry_at i offset) a e.root_nonzero index-lt,
  )

  pub new_valid : (0 < w) × (w ≤ sb.data_size) × (w ≢ p)
  new_valid = ground (arith, uses w, t.effect.taken w)

  pub root_valid : (0 < p) × (p ≤ sb.data_size) × (count p (free_blocks (view sb d) ps) ≡ 0)
  root_valid = ground (arith, uses p)

  abbrev pub linked : Block
  linked = set_address (view sb d p) (entry_at i offset) w

  abbrev pub linked_disk : Disk
  linked_disk = write_data t.sb' t.d' p linked

  pub new_entry : address linked (entry_at i offset) ≡ w
  new_entry =
      address-set_address (view sb d p) (entry_at i offset) w (entry_at i offset)
        (omega (arith, new_valid, e.size_fits))
      ∙ ground arith

  contents_linked : view t.sb' linked_disk ≡ upd (view t.sb' t.d') p linked
  contents_linked = view-write_data t.ready p linked root_valid.0

  at_root : view t.sb' linked_disk p ≡ linked
  at_root = ap (λ (f : ℕ → Block). f p) contents_linked ∙ ground arith

  at_new : view t.sb' linked_disk w ≡ zero_block
  at_new = ap (λ (f : ℕ → Block). f w) contents_linked ∙ ground (arith, new_valid, t.effect.holds)

  elsewhere :
      (a : ℕ)
      → a ≢ p
      → count a (free_blocks (view sb d) ps) ≡ 0
      → view t.sb' linked_disk a ≡ view sb d a
  elsewhere a h h' = ap (λ (f : ℕ → Block). f a) contents_linked ∙ ground (arith, t.effect.others a)

  entry_linked :
      (k : ℕ)
      → address (view t.sb' linked_disk p) k
        ≡ (if k == entry_at i offset then w else address (view sb d p) k)
  entry_linked k =
      ap (λ (x : Block). address x k) at_root
      ∙ address-set_address (view sb d p) (entry_at i offset) w k
          (omega (arith, new_valid, e.size_fits))

  root_out : count p (free_blocks (view t.sb' t.d') t.ps') ≡ 0
  root_out = omega (arith, t.effect.taken p, root_valid)

  still_free : free_blocks (view t.sb' linked_disk) t.ps' ≡ free_blocks (view t.sb' t.d') t.ps'
  still_free =
      ap (λ (f : ℕ → Block). free_blocks f t.ps') contents_linked
      ∙ free_blocks-upd (view t.sb' t.d') p linked t.ps'
          (omega (arith, t.effect.taken p, root_valid))

  pub free_linked : IsFreeList t.sb'.data_size (view t.sb' linked_disk) t.sb'.free_list_head t.ps'
  free_linked = record {
    chain = rw contents_linked (
        IsChain-upd (view t.sb' t.d') p linked t.sb'.free_list_head t.ps' root_out
          t.effect.free_list.chain);
    once = λ a. rw (still_free, t.same_size) (t.effect.free_list.once a);
  }

  pub Above-new : Above sb d ps i p offset outside t.sb' linked_disk t.ps' w
  Above-new = record {
    nonzero = e.root_nonzero;
    below = e.path_below;
    size_kept = t.same_size;
    named = entry_linked (entry_at i offset) ∙ ground arith;
    kept = λ k l other. entry_linked k ∙ ground arith;
    untouched = λ a h. elsewhere a (ground (arith, uses a)) (ground (arith, uses a));
    counts = λ a.
        rw (still_free, e.no_entry)
          (omega (
            arith,
            t.effect.taken a,
            tree_count-fresh (view t.sb' linked_disk) w (omega (arith, new_valid)) at_new i a,
            tree_count-zero (view sb d) i a,
          ));
    held = λ o l.
        contents-fresh (view t.sb' linked_disk) w (omega (arith, new_valid)) at_new i o refl
        ∙ sym (
            ap (λ (q : ℕ). view sb d (lookup (view sb d) i q o)) e.no_entry
            ∙ ap (view sb d) (lookup-zero (view sb d) i o refl));
  }

  pub Budget-new :
      Budget
        (view t.sb' linked_disk)
        t.sb'.data_size
        t.ps'
        i
        w
        (outside_of (view sb d) i p (entry_at i offset) outside)
  Budget-new a =
      rw (still_free, t.same_size)
        (omega (
          arith,
          uses a,
          t.effect.taken a,
          tree_count-fresh (view t.sb' linked_disk) w (omega (arith, new_valid)) at_new i a,
        ))

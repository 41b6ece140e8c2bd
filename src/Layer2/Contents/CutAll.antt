-- ===== src/Layer2/Contents/CutAll.antt =====
-- The removal of a block from a tree of indirect blocks on a volume in use, over all levels.
use filesystem.Bytes.{Block, block_size, all_zero}
use filesystem.Layer0.{Superblock, Disk, Vol}
use filesystem.Layer1.Data.View.{view, data_read-done}
use filesystem.Layer1.FreeList.Chain.{IsFreeList}
use filesystem.Layer1.Ready.{Ready}
use filesystem.Layer2.BlockMap.{addresses_per_block, address, clear_entry}
use filesystem.Layer2.BlockMap.Locate.{indices, AllBelow}
use filesystem.Layer2.Contents.ClearEntry.{clear_entry-ClearedEntry}
use filesystem.Layer2.Contents.Cut.{cut, clear_at}
use filesystem.Layer2.Contents.CutTree.{Shrank-same, all_zero-address, Shrank-under}
use filesystem.Layer2.Contents.Fresh.{Budget}
use filesystem.Layer2.Contents.Grow.{outside_of, entry_at, rest_at}
use filesystem.Layer2.Contents.Inner.{Inner, child, uses_before, Budget-child}
use filesystem.Layer2.Contents.Shrink.{Shrank}
use filesystem.Layer2.Contents.ShrinkStep.{Shrank-Cleared}
use filesystem.Prelude.{
  ◌==◌, Bool-cases, ℕ, zero, suc, refl, ap, ◌∙◌, inl, inr, Bool, true, false, List, arith,
}
use filesystem.Prelude.Run.{Returns, Returns-done}

module _ {n : ℕ} {sb : Superblock} {d : Disk} {ps : List ℕ} {i p offset : ℕ} {outside : ℕ → ℕ}
    (t : Inner sb d ps i p offset outside) where
  -- The loop upwards at one level.
  clear_at-Shrank :
      (e : Bool) {v1 : Vol}
      → Shrank n sb d ps i
          (child t)
          (rest_at i offset)
          (outside_of (view sb d) i p (entry_at i offset) outside)
          e
          v1
      → Returns (Shrank n sb d ps (suc i) p offset outside) (
          clear_at (record { block_addr = p; block = view sb d p; index = entry_at i offset }) e v1)
  clear_at-Shrank false g = Shrank-under t g
  clear_at-Shrank true {v1} g =
      let (b', v2, run, c) =
        Returns-done
          (clear_entry (record { block_addr = p; block = view sb d p; index = entry_at i offset })
            v1)
          (clear_entry-ClearedEntry t g) in
      rw run (
        Shrank-Cleared c.ready c.same_size c.free_list c.cleared (all_zero b' 0 block_size)
          (λ e k l. ap (λ (b : Block). address b k) c.block_now ∙ all_zero-address b' k e l))

pub cut-Shrank :
    (levels p offset : ℕ) (outside : ℕ → ℕ) {v : Vol} {sb : Superblock} {d : Disk} {n : ℕ}
    {ps : List ℕ} (r : Ready v sb d n)
    → IsFreeList sb.data_size (view sb d) sb.free_list_head ps
    → AllBelow addresses_per_block (indices levels offset)
    → Budget (view sb d) sb.data_size ps levels p outside
    → Returns (Shrank n sb d ps levels p offset outside) (cut levels p offset v)
unfolding cut indices
cut-Shrank zero p offset outside r l b budget =
    Shrank-same r l zero p offset outside (λ ne. absurd (ne refl))
cut-Shrank (suc i) p offset outside {v} {sb} {d} {n} {ps} r l b budget =
    elim (Bool-cases (p == 0)) [
      | inl e ↦ rw (cut, e) (Shrank-same r l (suc i) p offset outside (λ _. ground (arith, e)))
      | inr e ↦
          let t : Inner sb d ps i p offset outside = record {
            nonzero = ground (arith, e);
            below = b;
            budget = budget;
          } in
          let (e1, v1, run, g) = Returns-done (cut i (child t) (rest_at i offset) v) (
            cut-Shrank i (child t) (rest_at i offset)
              (outside_of (view sb d) i p (entry_at i offset) outside) r l b.1 (Budget-child t)) in
          rw (cut, e, data_read-done r p (ground (arith, uses_before t p)), run)
            (clear_at-Shrank t e1 g)
    ]

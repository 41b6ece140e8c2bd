-- ===== src/Layer2/Contents/FieldCut.antt =====
-- The field of the inode after the removal of a block from the tree under it.
use filesystem.Layer0.{Superblock, Disk, Vol}
use filesystem.Layer1.Data.View.{view}
use filesystem.Layer1.FreeList.Chain.{free_blocks, valid_once}
use filesystem.Layer1.FreeList.Give.{Gave}
use filesystem.Layer1.Inode.{Inode, num_direct}
use filesystem.Layer2.BlockMap.{get_root, set_root}
use filesystem.Layer2.Contents.{lookup, levels_of}
use filesystem.Layer2.Contents.CutRoot.{CutRoot}
use filesystem.Layer2.Contents.Extend.{At}
use filesystem.Layer2.Contents.NewBlock.{FileBudget, set_root-SameFields, beside}
use filesystem.Layer2.Contents.Nth.{lookup-zero}
use filesystem.Layer2.Contents.Roots.{root_of, get_root-set_root, other_roots, file_count-split}
use filesystem.Layer2.Contents.Shrink.{Shrank}
use filesystem.Layer2.Contents.Tree.{tree_count, tree_count-zero, tree_count-leaf, tree_count-root}
use filesystem.Prelude.{
  eq_or_ne, length, count, ℕ, ◌+◌, ◌≤◌, ◌≡◌, refl, sym, ap, ◌∙◌, ◌≢◌, ◌⊎◌, inl, inr, Bool, true,
  List, arith,
}

-- How many indirect blocks lie above a block number.
abbrev depth : {k : ℕ} → At k → ℕ
depth at = levels_of (root_of at.code)

module _ {n : ℕ} {sb : Superblock} {d : Disk} {ps : List ℕ} (m : Inode) {k : ℕ} (at : At k)
    (outside : ℕ → ℕ) {emptied : Bool} {v1 : Vol}
    (g : Shrank n sb d ps
      (levels_of (root_of at.code))
      (get_root (root_of at.code) m)
      at.offset
      (beside (view sb d) m at.code outside)
      emptied
      v1) where
  -- The field stays as it was.
  pub CutRoot-kept :
      (depth at ≡ 0 → get_root (root_of at.code) m ≡ 0) → CutRoot n sb d ps m at outside m v1
  CutRoot-kept no_block = record {
    sb' = g.sb';
    d' = g.d';
    ps' = g.ps';
    ready = g.ready;
    same_size = g.same_size;
    free_list = g.free_list;
    fields = (refl, refl);
    roots_kept = λ c h other. refl;
    untouched = λ a h. g.frame a h;
    counts = λ a. g.conserved a;
    gone = λ o h. elim (eq_or_ne (depth at) 0) [
      | inl e ↦
          ap (λ (x : ℕ). lookup (view g.sb' g.d') (depth at) x o) (no_block e)
          ∙ lookup-zero (view g.sb' g.d') (depth at) o refl
      | inr inner ↦
          ap (lookup (view g.sb' g.d') (depth at) (get_root (root_of at.code) m))
            (at_offset inner h)
          ∙ g.gone inner
    ];
    freed = λ ne. elim (eq_or_ne (depth at) 0) [
      | inl e ↦ absurd (
          ne (
            ap (λ (x : ℕ). lookup (view sb d) (depth at) x at.offset) (no_block e)
            ∙ lookup-zero (view sb d) (depth at) at.offset refl))
      | inr inner ↦ g.freed inner ne
    ];
    held = λ o b inner ne. g.others_same o b ne;
  }
    where
      at_offset : {o : ℕ} → depth at ≢ 0 → (depth at ≡ 0) ⊎ (o ≡ at.offset) → o ≡ at.offset
      at_offset inner (inl e) = absurd (inner e)
      at_offset inner (inr e) = e

  module _ (b : FileBudget (view sb d) sb.data_size ps m outside) (whole : emptied ≡ true)
      (named : get_root (root_of at.code) m ≢ 0) where
    -- The uses of a block before, with the field apart.
    uses_before :
        (a : ℕ)
        → count a (free_blocks (view sb d) ps)
            + tree_count (view sb d) (depth at) (get_root (root_of at.code) m) a
            + other_roots (view sb d) m at.code a
            + outside a
          ≤ valid_once sb.data_size a
    uses_before a = omega (arith, b a, file_count-split (view sb d) m at.code a at.code_fits)

    pub root_place :
        (get_root (root_of at.code) m ≤ sb.data_size)
        × (count (get_root (root_of at.code) m) (free_blocks (view g.sb' g.d') g.ps') ≡ 0)
    root_place =
        let p : ℕ = get_root (root_of at.code) m in
        ground (
          arith,
          uses_before p,
          g.conserved p,
          tree_count-root (view g.sb' g.d') (depth at) p named,
          tree_count-root (view sb d) (depth at) p named,
        )

    -- The block that the field named is given back.
    module _ (directs : length m.direct_blocks ≡ num_direct) {v2 : Vol}
        (q : Gave n g.sb' g.d' g.ps' (get_root (root_of at.code) m) v2) where
      no_root : get_root (root_of at.code) (set_root (root_of at.code) m 0) ≡ 0
      no_root =
          get_root-set_root m at.code at.code 0 directs at.code_fits at.code_fits ∙ ground arith

      no_block_now :
          (o : ℕ)
          → lookup
              (view q.sb' q.d')
              (depth at)
              (get_root (root_of at.code) (set_root (root_of at.code) m 0))
              o
            ≡ 0
      no_block_now o =
          ap (λ (x : ℕ). lookup (view q.sb' q.d') (depth at) x o) no_root
          ∙ lookup-zero (view q.sb' q.d') (depth at) o refl

      pub CutRoot-freed : CutRoot n sb d ps m at outside (set_root (root_of at.code) m 0) v2
      CutRoot-freed = record {
        sb' = q.sb';
        d' = q.d';
        ps' = q.ps';
        ready = q.ready;
        same_size = q.same_size ∙ g.same_size;
        free_list = rw q.same_size q.effect.free_list;
        fields = set_root-SameFields (root_of at.code) m 0;
        roots_kept =
            λ c h other. get_root-set_root m c at.code 0 directs h at.code_fits ∙ ground arith;
        untouched = λ a h.
            let p : ℕ = get_root (root_of at.code) m in
            ground (
              arith,
              uses_before a,
              g.conserved a,
              tree_count-root (view g.sb' g.d') (depth at) p named,
              tree_count-root (view sb d) (depth at) p named,
              q.effect.others a,
              g.frame a h,
            );
        counts = λ a. rw no_root (
            omega (
              arith,
              q.effect.given a,
              g.conserved a,
              g.only_root whole a,
              tree_count-zero (view q.sb' q.d') (depth at) a,
              tree_count-leaf (view g.sb' g.d') (get_root (root_of at.code) m) a named,
            ));
        gone = λ o h. no_block_now o;
        freed = λ _. rw no_root (tree_count-zero (view q.sb' q.d') (depth at) _);
        held = λ o b inner ne.
            ap (view q.sb' q.d') (no_block_now o)
            ∙ sym (sym (g.others_same o b ne) ∙ g.no_contents whole inner o b);
      }

-- ===== src/Layer2/Contents/CutRoot.antt =====
-- A file after the block at a block number was removed from the tree under one of its fields.
use mathlib.Core.Path.{subst}
use filesystem.Bytes.{Block, zero_block}
use filesystem.Layer0.{Superblock, Disk, Vol}
use filesystem.Layer1.Data.View.{view}
use filesystem.Layer1.FreeList.Chain.{free_blocks, IsFreeList}
use filesystem.Layer1.Inode.{Inode}
use filesystem.Layer1.Ready.{Ready}
use filesystem.Layer2.BlockMap.{addresses_per_block, triple_limit, get_root}
use filesystem.Layer2.BlockMap.Locate.{indices, AllBelow}
use filesystem.Layer2.Contents.{lookup, levels_of, block_of}
use filesystem.Layer2.Contents.Extend.{At, At-below, block_of-At}
use filesystem.Layer2.Contents.NewBlock.{FileBudget}
use filesystem.Layer2.Contents.Roots.{
  num_roots, root_of, SameFields, root_count, other_roots, file_count-split, root_agrees,
  file_count-join,
}
use filesystem.Layer2.Contents.SamePlace.{same_place, code_differs, same_number}
use filesystem.Layer2.Contents.Tree.{tree_count, lookup-counted, contents-same}
use filesystem.Layer2.Contents.WriteRound.{FileWrote}
use filesystem.Prelude.{
  ◌==◌, if◌then◌else◌, eq_or_ne, count, ℕ, ◌+◌, ◌<◌, ◌≡◌, refl, sym, ap, ◌∙◌, ◌≢◌, ◌⊎◌, inl, inr,
  List, arith,
}

-- The state after the removal, when the state before was `sb`, `d`, `ps` with the inode `m`.
pub record CutRoot (n : ℕ) (sb : Superblock) (d : Disk) (ps : List ℕ) (m : Inode) {k : ℕ}
    (at : At k) (outside : ℕ → ℕ) (m' : Inode) (v' : Vol) : Type 0 where
  pub sb' : Superblock
  pub d' : Disk
  pub ps' : List ℕ
  pub ready : Ready v' sb' d' n
  pub same_size : sb'.data_size ≡ sb.data_size
  pub free_list : IsFreeList sb'.data_size (view sb' d') sb'.free_list_head ps'
  pub fields : SameFields m m'
  pub roots_kept :
      (c : ℕ) → c < num_roots → c ≢ at.code → get_root (root_of c) m' ≡ get_root (root_of c) m
  pub untouched :
      (a : ℕ) → 0 < outside a + other_roots (view sb d) m at.code a → view sb' d' a ≡ view sb d a
  pub counts :
      (a : ℕ)
      → count a (free_blocks (view sb' d') ps')
          + tree_count (view sb' d') (levels_of (root_of at.code)) (get_root (root_of at.code) m') a
        ≡ count a (free_blocks (view sb d) ps) + root_count (view sb d) m a at.code
  pub gone :
      (o : ℕ)
      → (levels_of (root_of at.code) ≡ 0) ⊎ (o ≡ at.offset)
      → lookup (view sb' d') (levels_of (root_of at.code)) (get_root (root_of at.code) m') o ≡ 0
  pub freed :
      lookup (view sb d) (levels_of (root_of at.code)) (get_root (root_of at.code) m) at.offset ≢ 0
      → tree_count (view sb' d') (levels_of (root_of at.code)) (get_root (root_of at.code) m') (
          lookup (view sb d) (levels_of (root_of at.code)) (get_root (root_of at.code) m) at.offset)
        ≡ 0
  pub held :
      (o : ℕ)
      → AllBelow addresses_per_block (indices (levels_of (root_of at.code)) o)
      → levels_of (root_of at.code) ≢ 0
      → o ≢ at.offset
      → view sb' d'
          (lookup (view sb' d') (levels_of (root_of at.code)) (get_root (root_of at.code) m') o)
        ≡ view sb d
            (lookup (view sb d) (levels_of (root_of at.code)) (get_root (root_of at.code) m) o)

-- What rm_nth_datablock leaves of a file: it reads as if zeros were written to the block, and the block
-- number leads to no block. The block that it led to is then a free one.
pub record Removed (n : ℕ) (sb : Superblock) (d : Disk) (ps : List ℕ) (m : Inode) (k : ℕ)
    (outside : ℕ → ℕ) (m' : Inode) (v' : Vol) : Type 0 where
  pub wrote : FileWrote n sb d ps m k outside zero_block m' v'
  pub no_block : block_of (view wrote.sb' wrote.d') m' k ≡ 0
  pub given_back :
      block_of (view sb d) m k ≢ 0
      → count (block_of (view sb d) m k) (free_blocks (view wrote.sb' wrote.d') wrote.ps') ≡ 1

module _ {n : ℕ} {sb : Superblock} {d : Disk} {ps : List ℕ} {m : Inode} {k : ℕ} (at : At k)
    {outside : ℕ → ℕ} {m' : Inode} {v' : Vol} (g : CutRoot n sb d ps m at outside m' v') where
  frame_kept : (a : ℕ) → 0 < other_roots (view sb d) m at.code a → view g.sb' g.d' a ≡ view sb d a
  frame_kept a h = g.untouched a (omega (arith, h))

  contents_other :
      (i : ℕ) (a : At i)
      → a.code ≢ at.code
      → view g.sb' g.d' (block_of (view g.sb' g.d') m' i) ≡ view sb d (block_of (view sb d) m i)
  contents_other i a other =
      rw (block_of-At (view g.sb' g.d') m' a, block_of-At (view sb d) m a)
        (ap
            (λ (x : ℕ).
              view g.sb' g.d' (lookup (view g.sb' g.d') (levels_of (root_of a.code)) x a.offset))
            (g.roots_kept a.code a.code_fits other)
          ∙ contents-same (view sb d) (view g.sb' g.d') (levels_of (root_of a.code))
              (get_root (root_of a.code) m) a.offset refl refl a.within_blocks
              (root_agrees (view sb d) (view g.sb' g.d') m m' at.code at.code_fits g.roots_kept
                frame_kept a.code a.code_fits other))

  -- The block under the same field.
  contents_here :
      (i : ℕ) (a : At i)
      → a.code ≡ at.code
      → (i ≡ k → view g.sb' g.d' (block_of (view g.sb' g.d') m' i) ≡ zero_block)
        × (i ≢ k
            → view g.sb' g.d' (block_of (view g.sb' g.d') m' i)
              ≡ view sb d (block_of (view sb d) m i))
  contents_here i a e =
      let now : ℕ → ℕ → Block = λ c o.
        view g.sb' g.d'
          (lookup (view g.sb' g.d') (levels_of (root_of c)) (get_root (root_of c) m') o) in
      let before : ℕ → ℕ → Block =
        λ c o. view sb d (lookup (view sb d) (levels_of (root_of c)) (get_root (root_of c) m) o) in
      rw (block_of-At (view g.sb' g.d') m' a, block_of-At (view sb d) m a)
        (
          λ same.
              ap (λ (c : ℕ). now c a.offset) e
              ∙ ap (view g.sb' g.d') (g.gone a.offset (inr (same_place a at same).1)),
          λ ne.
              ap (λ (c : ℕ). now c a.offset) e
              ∙ g.held a.offset
                  (subst
                    (λ (c : ℕ).
                      AllBelow addresses_per_block (indices (levels_of (root_of c)) a.offset))
                    e a.within_blocks)
                  (λ z. ne (same_number a at e (inl z))) (λ z. ne (same_number a at e (inr z)))
              ∙ ap (λ (c : ℕ). before c a.offset) (sym e),
        )

  contents_file :
      (i : ℕ)
      → i < triple_limit
      → view g.sb' g.d' (block_of (view g.sb' g.d') m' i)
        ≡ (if i == k then zero_block else view sb d (block_of (view sb d) m i))
  contents_file i l =
      let a : At i = At-below i l in
      elim (eq_or_ne a.code at.code) [
        | inr other ↦ contents_other i a other ∙ ground (arith, code_differs a at other)
        | inl e ↦ elim (eq_or_ne i k) [
          | inl same ↦ (contents_here i a e).0 same ∙ ground (arith, same)
          | inr ne ↦ (contents_here i a e).1 ne ∙ ground (arith, ne)
        ]
      ]

  block_of-CutRoot : block_of (view g.sb' g.d') m' k ≡ 0
  block_of-CutRoot = block_of-At (view g.sb' g.d') m' at ∙ g.gone at.offset (inr refl)

  FileWrote-CutRoot : FileWrote n sb d ps m k outside zero_block m' v'
  FileWrote-CutRoot = record {
    sb' = g.sb';
    d' = g.d';
    ps' = g.ps';
    ready = g.ready;
    same_size = g.same_size;
    free_list = g.free_list;
    conserved = λ a. omega (
      arith,
      file_count-join (view sb d) (view g.sb' g.d') m m' at.code at.code_fits g.roots_kept
          frame_kept a,
      file_count-split (view sb d) m at.code a at.code_fits,
      g.counts a,
    );
    contents = contents_file;
    frame = λ a h. g.untouched a (omega (arith, h));
    fields = g.fields;
  }

  module _ (b : FileBudget (view sb d) sb.data_size ps m outside) where
    given_back-CutRoot :
        block_of (view sb d) m k ≢ 0
        → count (block_of (view sb d) m k) (free_blocks (view g.sb' g.d') g.ps') ≡ 1
    given_back-CutRoot = rw (block_of-At (view sb d) m at) λ ne.
        let f : ℕ → Block = view sb d in
        let p : ℕ = get_root (root_of at.code) m in
        let a : ℕ = lookup f (levels_of (root_of at.code)) p at.offset in
        ground (
          arith,
          b a,
          file_count-split f m at.code a at.code_fits,
          lookup-counted f (levels_of (root_of at.code)) p at.offset refl at.within_blocks ne,
          g.counts a,
          g.freed ne,
        )

    pub Removed-CutRoot : Removed n sb d ps m k outside m' v'
    unfolding FileWrote-CutRoot
    Removed-CutRoot = record {
      wrote = FileWrote-CutRoot;
      no_block = block_of-CutRoot;
      given_back = given_back-CutRoot;
    }

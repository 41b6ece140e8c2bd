-- ===== src/Layer2/Contents/CutTree.antt =====
-- The removal of a block from a tree of indirect blocks, over all levels.
use mathlib.Core.Path.{subst}
use filesystem.Bytes.{Block, block_size, u32_at, all_zero}
use filesystem.Layer0.{Superblock, Disk, Vol}
use filesystem.Layer1.Data.View.{view}
use filesystem.Layer1.FreeList.Chain.{IsFreeList}
use filesystem.Layer1.Ready.{Ready}
use filesystem.Layer2.BlockMap.{addresses_per_block, address}
use filesystem.Layer2.BlockMap.Locate.{indices, AllBelow}
use filesystem.Layer2.Contents.{lookup}
use filesystem.Layer2.Contents.Grow.{outside_of, entry_at, rest_at}
use filesystem.Layer2.Contents.Inner.{Inner, child, index-lt, apart}
use filesystem.Layer2.Contents.Join.{others, tree_count-split, tree_count-join, contents-join}
use filesystem.Layer2.Contents.Nth.{lookup-zero}
use filesystem.Layer2.Contents.Shrink.{Shrank, entry_rest_eq}
use filesystem.Layer2.Contents.Tree.{tree_count, tree_count-zero, lookup-counted}
use filesystem.Prelude.{
  eq_or_ne, ℕ, zero, suc, ◌+◌, ◌*◌, ◌≤◌, ◌<◌, ◌≡◌, refl, sym, ap, ◌∙◌, ◌≢◌, inl, inr, true, false,
  List, arith,
}

pub Shrank-same :
    {v : Vol} {sb : Superblock} {d : Disk} {n : ℕ} {ps : List ℕ} (r : Ready v sb d n)
    → IsFreeList sb.data_size (view sb d) sb.free_list_head ps
    → (levels p offset : ℕ) (outside : ℕ → ℕ) → (levels ≢ 0 → p ≡ 0)
    → Shrank n sb d ps levels p offset outside true v
Shrank-same {sb} {d} {ps} r l levels p offset outside empty =
    let f : ℕ → Block = view sb d in
    let nothing : levels ≢ 0 → (o : ℕ) → lookup f levels p o ≡ 0 =
      λ inner o. ap (λ (x : ℕ). lookup f levels x o) (empty inner) ∙ lookup-zero f levels o refl in
    record {
      sb' = sb;
      d' = d;
      ps' = ps;
      ready = r;
      same_size = refl;
      free_list = l;
      conserved = λ a. refl;
      others_same = λ o b ne. refl;
      gone = λ inner. nothing inner offset;
      freed = λ inner ne. absurd (ne (nothing inner offset));
      frame = λ a h. refl;
      no_contents = λ _ inner o b. ap f (nothing inner o);
      only_root = λ _ a. elim (eq_or_ne levels 0) [
        | inl e ↦ ap (λ (x : ℕ). tree_count f x p a) e
        | inr inner ↦
            subst (λ (x : ℕ). tree_count f levels x a ≡ tree_count f 0 x a) (sym (empty inner))
              (tree_count-zero f levels a ∙ sym (tree_count-zero f 0 a))
      ];
      leaf = λ _. refl;
    }

-- All entries of a block of zeros are 0.
all_zero-true :
    (b : Block) (from n j : ℕ) → all_zero b from n ≡ true → from ≤ j → j < from + n → b j ≡ 0
unfolding all_zero
all_zero-true b from zero j e h h' = absurd (omega arith)
all_zero-true b from (suc n) j e h h' = elim (eq_or_ne from j) [
  | inl same ↦ ground (arith, e, ap b same)
  | inr other ↦ ground (arith, e, all_zero-true b (from + 1) n j)
]

pub all_zero-address :
    (b : Block) (k : ℕ) → all_zero b 0 block_size ≡ true → k < addresses_per_block → address b k ≡ 0
unfolding u32_at
all_zero-address b k e h =
    let at : (j : ℕ) → j < block_size → b j ≡ 0 =
      λ j l. all_zero-true b 0 block_size j e (omega arith) (omega arith) in
    omega (
      arith,
      at (4 * k) (omega arith),
      at (4 * k + 1) (omega arith),
      at (4 * k + 2) (omega arith),
      at (4 * k + 3) (omega arith),
    )

module _ {n : ℕ} {sb : Superblock} {d : Disk} {ps : List ℕ} {i p offset : ℕ} {outside : ℕ → ℕ}
    (t : Inner sb d ps i p offset outside) {v1 : Vol}
    (g : Shrank n sb d ps i
      (child t)
      (rest_at i offset)
      (outside_of (view sb d) i p (entry_at i offset) outside)
      false
      v1) where
  root_same : view g.sb' g.d' p ≡ view sb d p
  root_same = g.frame p (ground arith)

  inner : i ≢ 0
  inner e = cc (g.leaf e)

  entries_same : (k : ℕ) → address (view g.sb' g.d' p) k ≡ address (view sb d p) k
  entries_same k = ap (λ (b : Block). address b k) root_same

  frame_kept :
      (a : ℕ)
      → 0 < others (view sb d) i (view sb d p) (entry_at i offset) a
      → view g.sb' g.d' a ≡ view sb d a
  frame_kept a h = g.frame a (omega (arith, h))

  others_above :
      (o : ℕ)
      → AllBelow addresses_per_block (indices (suc i) o)
      → o ≢ offset
      → view g.sb' g.d' (lookup (view g.sb' g.d') (suc i) p o)
        ≡ view sb d (lookup (view sb d) (suc i) p o)
  unfolding indices
  others_above o b ne = elim (eq_or_ne (entry_at i o) (entry_at i offset)) [
    | inr other ↦
        contents-join (view sb d) (view g.sb' g.d') i p (entry_at i offset) t.nonzero (index-lt t)
          (λ k l ne. entries_same k) frame_kept o refl refl b other
    | inl e ↦
        ap (λ (x : ℕ). view g.sb' g.d' (lookup (view g.sb' g.d') i x (rest_at i o)))
          (entries_same (entry_at i o))
        ∙ subst
            (λ (k : ℕ).
              view g.sb' g.d' (lookup (view g.sb' g.d') i (address (view sb d p) k) (rest_at i o))
              ≡ view sb d (lookup (view sb d) i (address (view sb d p) k) (rest_at i o)))
            (sym e) (g.others_same (rest_at i o) b.1 (λ q. ne (entry_rest_eq i o offset e q)))
  ]

  freed_above :
      lookup (view sb d) (suc i) p offset ≢ 0
      → tree_count (view g.sb' g.d') (suc i) p (lookup (view sb d) (suc i) p offset) ≡ 0
  unfolding indices
  freed_above ne =
      let j : ℕ = entry_at i offset in
      let a : ℕ = lookup (view sb d) i (child t) (rest_at i offset) in
      omega (
        arith,
        tree_count-join (view sb d) (view g.sb' g.d') i p j t.nonzero (index-lt t)
            (λ k l ne. entries_same k) frame_kept a,
        ap (λ (x : ℕ). tree_count (view g.sb' g.d') i x a) (entries_same j),
        g.freed inner ne,
        apart t a (lookup-counted (view sb d) i (child t) (rest_at i offset) refl t.below.1 ne),
      )

  -- The loop upwards stops.
  pub Shrank-under : Shrank n sb d ps (suc i) p offset outside false v1
  Shrank-under = record {
    sb' = g.sb';
    d' = g.d';
    ps' = g.ps';
    ready = g.ready;
    same_size = g.same_size;
    free_list = g.free_list;
    conserved = λ a.
        let j : ℕ = entry_at i offset in
        omega (
          arith,
          tree_count-join (view sb d) (view g.sb' g.d') i p j t.nonzero (index-lt t)
              (λ k l ne. entries_same k) frame_kept a,
          ap (λ (x : ℕ). tree_count (view g.sb' g.d') i x a) (entries_same j),
          tree_count-split (view sb d) i p j a t.nonzero (index-lt t),
          g.conserved a,
        );
    others_same = others_above;
    gone = λ _.
        ap (λ (x : ℕ). lookup (view g.sb' g.d') i x (rest_at i offset))
          (entries_same (entry_at i offset))
        ∙ g.gone inner;
    freed = λ _. freed_above;
    frame = λ a h. g.frame a (omega (arith, h));
    no_contents = λ e. absurd (cc);
    only_root = λ e. absurd (cc);
    leaf = λ e. absurd (omega (arith, e));
  }

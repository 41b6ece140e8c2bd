-- ===== src/Layer2/Contents/ShrinkStep.antt =====
-- From the tree under a cleared entry to the tree above it.
-- tree above it.
use mathlib.Core.Path.{subst}
use filesystem.Bytes.{Block, zero_block}
use filesystem.Layer0.{Superblock, Disk, Vol}
use filesystem.Layer1.Data.View.{view}
use filesystem.Layer1.FreeList.Chain.{free_blocks, IsFreeList}
use filesystem.Layer1.Ready.{Ready}
use filesystem.Layer2.BlockMap.{addresses_per_block, int_pow, address}
use filesystem.Layer2.BlockMap.Locate.{indices, AllBelow}
use filesystem.Layer2.Contents.{lookup}
use filesystem.Layer2.Contents.Grow.{entry_at, rest_at}
use filesystem.Layer2.Contents.Join.{others, tree_count-split, tree_count-join, contents-join}
use filesystem.Layer2.Contents.Nth.{lookup-zero}
use filesystem.Layer2.Contents.Shrink.{Shrank, Cleared, entry_rest_eq}
use filesystem.Layer2.Contents.Sum.{sum-zero}
use filesystem.Layer2.Contents.Tree.{
  tree_count, children, tree_count-zero, tree_count-leaf, tree_count-suc, lookup-counted,
}
use filesystem.Prelude.{
  eq_or_ne, count, ℕ, suc, ◌+◌, ◌<◌, ◌≡◌, refl, sym, ap, ◌∙◌, ◌≢◌, inl, inr, Bool, true, List,
  arith,
}

rest_at-zero : (o : ℕ) → rest_at 0 o ≡ 0
unfolding int_pow
rest_at-zero o = omega arith

module _ {n : ℕ} {sb : Superblock} {d : Disk} {ps : List ℕ} {i p offset : ℕ} {outside : ℕ → ℕ}
    {sb2 : Superblock} {d2 : Disk} {ps2 : List ℕ} {v2 : Vol} (r : Ready v2 sb2 d2 n)
    (size_kept : sb2.data_size ≡ sb.data_size)
    (l : IsFreeList sb2.data_size (view sb2 d2) sb2.free_list_head ps2)
    (h : Cleared sb d ps i p offset outside sb2 d2 ps2) where
  entry-lt : entry_at i offset < addresses_per_block
  unfolding indices
  entry-lt = h.below.0

  entry_now : address (view sb2 d2 p) (entry_at i offset) ≡ 0
  entry_now = h.entries_now (entry_at i offset) ∙ ground arith

  others_now :
      (k : ℕ)
      → k < addresses_per_block
      → k ≢ entry_at i offset
      → address (view sb2 d2 p) k ≡ address (view sb d p) k
  others_now k l' other = h.entries_now k ∙ ground arith

  frame_now :
      (a : ℕ)
      → 0 < others (view sb d) i (view sb d p) (entry_at i offset) a
      → view sb2 d2 a ≡ view sb d a
  frame_now a l' = h.untouched a (omega (arith, l'))

  -- A tree under an entry that is 0 has no block, and so holds zeros.
  no_block :
      (k o : ℕ)
      → address (view sb2 d2 p) k ≡ 0
      → lookup (view sb2 d2) i (address (view sb2 d2 p) k) o ≡ 0
  no_block k o e = ap (λ (x : ℕ). lookup (view sb2 d2) i x o) e ∙ lookup-zero (view sb2 d2) i o refl

  zero_entry :
      (k o : ℕ)
      → address (view sb2 d2 p) k ≡ 0
      → view sb2 d2 (lookup (view sb2 d2) i (address (view sb2 d2 p) k) o) ≡ zero_block
  zero_entry k o e = ap (view sb2 d2) (no_block k o e)

  zero_before :
      (o : ℕ)
      → entry_at i o ≡ entry_at i offset
      → AllBelow addresses_per_block (indices i (rest_at i o))
      → o ≢ offset
      → view sb d (lookup (view sb d) i (address (view sb d p) (entry_at i offset)) (rest_at i o))
        ≡ zero_block
  zero_before o e b ne = elim (eq_or_ne i 0) [
    | inl leaf ↦ absurd (
        ne (
          entry_rest_eq i o offset e (
            subst (λ (x : ℕ). rest_at x o ≡ rest_at x offset) (sym leaf)
              (rest_at-zero o ∙ sym (rest_at-zero offset)))))
    | inr inner ↦ h.nothing_else inner (rest_at i o) b (λ q. ne (entry_rest_eq i o offset e q))
  ]

  others_above :
      (o : ℕ)
      → AllBelow addresses_per_block (indices (suc i) o)
      → o ≢ offset
      → view sb2 d2 (lookup (view sb2 d2) (suc i) p o) ≡ view sb d (lookup (view sb d) (suc i) p o)
  unfolding indices
  others_above o b ne = elim (eq_or_ne (entry_at i o) (entry_at i offset)) [
    | inr other ↦
        contents-join (view sb d) (view sb2 d2) i p (entry_at i offset) h.nonzero entry-lt
          others_now frame_now o refl refl b other
    | inl e ↦
        zero_entry (entry_at i o) (rest_at i o) (ap (address (view sb2 d2 p)) e ∙ entry_now)
        ∙ sym (
            ap (λ (k : ℕ). view sb d (lookup (view sb d) i (address (view sb d p) k) (rest_at i o)))
              e
            ∙ zero_before o e b.1 ne)
  ]

  conserved_above :
      (a : ℕ)
      → count a (free_blocks (view sb2 d2) ps2) + tree_count (view sb2 d2) (suc i) p a
        ≡ count a (free_blocks (view sb d) ps) + tree_count (view sb d) (suc i) p a
  conserved_above a =
      let f : ℕ → Block = view sb d in
      let f2 : ℕ → Block = view sb2 d2 in
      let j : ℕ = entry_at i offset in
      omega (
        arith,
        tree_count-join f f2 i p j h.nonzero entry-lt others_now frame_now a,
        ap (λ (x : ℕ). tree_count f2 i x a) entry_now,
        tree_count-zero f2 i a,
        tree_count-split f i p j a h.nonzero entry-lt,
        h.counts a,
      )

  freed_above :
      lookup (view sb d) (suc i) p offset ≢ 0
      → tree_count (view sb2 d2) (suc i) p (lookup (view sb d) (suc i) p offset) ≡ 0
  unfolding indices
  freed_above ne =
      let f : ℕ → Block = view sb d in
      let f2 : ℕ → Block = view sb2 d2 in
      let j : ℕ = entry_at i offset in
      let a : ℕ = lookup f i (address (f p) j) (rest_at i offset) in
      omega (
        arith,
        tree_count-join f f2 i p j h.nonzero entry-lt others_now frame_now a,
        ap (λ (x : ℕ). tree_count f2 i x a) entry_now,
        tree_count-zero f2 i a,
        h.apart a (lookup-counted f i (address (f p) j) (rest_at i offset) refl h.below.1 ne),
      )

  module _ (empty : (k : ℕ) → k < addresses_per_block → address (view sb2 d2 p) k ≡ 0) where
    contents_empty :
        (o : ℕ)
        → AllBelow addresses_per_block (indices (suc i) o)
        → view sb2 d2 (lookup (view sb2 d2) (suc i) p o) ≡ zero_block
    unfolding indices
    contents_empty o b = zero_entry (entry_at i o) (rest_at i o) (empty (entry_at i o) b.0)

    count_empty : (a : ℕ) → tree_count (view sb2 d2) (suc i) p a ≡ tree_count (view sb2 d2) 0 p a
    count_empty a =
        let f2 : ℕ → Block = view sb2 d2 in
        omega (
          arith,
          tree_count-suc f2 i p a h.nonzero,
          tree_count-leaf f2 p a h.nonzero,
          sum-zero (children f2 i (f2 p) a) addresses_per_block
              (λ k l'. ap (λ (q : ℕ). tree_count f2 i q a) (empty k l') ∙ tree_count-zero f2 i a),
        )

  pub Shrank-Cleared :
      (e : Bool)
      → (e ≡ true → (k : ℕ) → k < addresses_per_block → address (view sb2 d2 p) k ≡ 0)
      → Shrank n sb d ps (suc i) p offset outside e v2
  Shrank-Cleared e empty = record {
    sb' = sb2;
    d' = d2;
    ps' = ps2;
    ready = r;
    same_size = size_kept;
    free_list = l;
    conserved = conserved_above;
    others_same = others_above;
    gone = λ _. no_block (entry_at i offset) (rest_at i offset) entry_now;
    freed = λ _. freed_above;
    frame = λ a l'. h.untouched a (omega (arith, l'));
    no_contents = λ q _ o b. contents_empty (empty q) o b;
    only_root = λ q a. count_empty (empty q) a;
    leaf = λ q. absurd (omega (arith, q));
  }

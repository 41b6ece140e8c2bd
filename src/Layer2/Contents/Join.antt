-- ===== src/Layer2/Contents/Join.antt =====
-- A tree of indirect blocks after one entry of its root, and the tree under it, have changed.
use filesystem.Bytes.{Block, zero_block}
use filesystem.Layer2.BlockMap.{addresses_per_block, int_pow, address}
use filesystem.Layer2.BlockMap.Locate.{indices, AllBelow}
use filesystem.Layer2.Contents.{lookup}
use filesystem.Layer2.Contents.Sum.{sum-same, sum_but, sum-split, le-sum_but}
use filesystem.Layer2.Contents.Tree.{
  just, tree_count, children, tree_count-suc, Agree, tree_count-same, contents-same,
}
use filesystem.Prelude.{eq_or_ne, ℕ, suc, ◌+◌, ◌/◌, ◌%◌, ◌<◌, ◌≡◌, ap, ◌∙◌, ◌≢◌, inl, inr, arith}

-- How often a block stands in the trees under the other entries.
abbrev pub others : (f : ℕ → Block) (i : ℕ) (b : Block) (j a : ℕ) → ℕ
others f i b j a = sum_but (children f i b a) j addresses_per_block

-- The root, the tree under one entry, and the others.
pub tree_count-split :
    (f : ℕ → Block) (i p j a : ℕ)
    → p ≢ 0
    → j < addresses_per_block
    → tree_count f (suc i) p a
      ≡ just p a + tree_count f i (address (f p) j) a + others f i (f p) j a
tree_count-split f i p j a ne l =
    omega
      (arith, tree_count-suc f i p a ne, sum-split (children f i (f p) a) j addresses_per_block l)

module _ (f f' : ℕ → Block) (i p j : ℕ) (ne : p ≢ 0) (within : j < addresses_per_block)
    (entries_same : (k : ℕ) → k < addresses_per_block → k ≢ j → address (f' p) k ≡ address (f p) k)
    (frame : (a : ℕ) → 0 < others f i (f p) j a → f' a ≡ f a) where
  other_agrees : (k : ℕ) → k < addresses_per_block → k ≢ j → Agree f f' i (address (f p) k)
  other_agrees k l other a c =
      frame a (omega (arith, le-sum_but (children f i (f p) a) k j addresses_per_block l other))

  others-same : (a : ℕ) → others f' i (f' p) j a ≡ others f i (f p) j a
  others-same a = sum-same _ _ addresses_per_block λ k l. elim (eq_or_ne k j) [
    | inl e ↦ ground arith
    | inr other ↦ ground (
      arith,
      entries_same k l other,
      ap (λ (q : ℕ). tree_count f' i q a) (entries_same k l other),
      tree_count-same f f' i (address (f p) k) a (other_agrees k l other),
    )
  ]

  pub tree_count-join :
      (a : ℕ)
      → tree_count f' (suc i) p a
        ≡ just p a + tree_count f' i (address (f' p) j) a + others f i (f p) j a
  tree_count-join a = omega (arith, tree_count-split f' i p j a ne within, others-same a)

  -- Behind the other entries nothing changes.
  pub contents-join :
      (o : ℕ)
      → f 0 ≡ zero_block
      → f' 0 ≡ zero_block
      → AllBelow addresses_per_block (indices (suc i) o)
      → o / int_pow addresses_per_block i ≢ j
      → f' (lookup f' (suc i) p o) ≡ f (lookup f (suc i) p o)
  unfolding indices
  contents-join o z z' b other =
      let k : ℕ = o / int_pow addresses_per_block i in
      let rest : ℕ = o % int_pow addresses_per_block i in
      ap (λ (q : ℕ). f' (lookup f' i q rest)) (entries_same k b.0 other)
      ∙ contents-same f f' i (address (f p) k) rest z z' b.1 (other_agrees k b.0 other)

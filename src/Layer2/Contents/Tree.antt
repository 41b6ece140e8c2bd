-- ===== src/Layer2/Contents/Tree.antt =====
-- The blocks of a tree of indirect blocks, counted: which data blocks it is made of, and that nothing
-- else matters to what is found in it.
use mathlib.Core.Path.{subst}
use filesystem.Bytes.{Block, zero_block, u32_at}
use filesystem.Layer2.BlockMap.{addresses_per_block, int_pow, address}
use filesystem.Layer2.BlockMap.Locate.{indices, AllBelow}
use filesystem.Layer2.Contents.{lookup}
use filesystem.Layer2.Contents.Nth.{lookup-zero}
use filesystem.Layer2.Contents.Sum.{sum, sum-same, sum-zero, le-sum}
use filesystem.Prelude.{
  ◌==◌, if◌then◌else◌, eq_or_ne, ℕ, zero, suc, ◌+◌, ◌/◌, ◌%◌, ◌≤◌, ◌<◌, ◌≡◌, refl, sym, ap, ◌∙◌,
  ◌≢◌, inl, inr, arith,
}

-- 1 for one number.
abbrev pub just : (p a : ℕ) → ℕ
just p a = if p == a then 1 else 0

-- How often the block `a` stands in the tree of `levels` indirect blocks under `p`.
unfoldable pub tree_count : (f : ℕ → Block) (levels p a : ℕ) → ℕ
tree_count f zero p a = if p == 0 then 0 else just p a
tree_count f (suc i) p a =
    if p == 0
    then 0
    else just p a + sum (λ j. tree_count f i (address (f p) j) a) addresses_per_block

-- The children of a block.
abbrev pub children : (f : ℕ → Block) (levels : ℕ) (b : Block) (a j : ℕ) → ℕ
children f i b a j = tree_count f i (address b j) a

pub tree_count-zero : (f : ℕ → Block) (levels a : ℕ) → tree_count f levels 0 a ≡ 0
unfolding tree_count
tree_count-zero f zero a = refl
tree_count-zero f (suc i) a = refl

pub tree_count-leaf : (f : ℕ → Block) (p a : ℕ) → p ≢ 0 → tree_count f zero p a ≡ just p a
unfolding tree_count
tree_count-leaf f p a h = ground arith

pub tree_count-suc :
    (f : ℕ → Block) (i p a : ℕ)
    → p ≢ 0
    → tree_count f (suc i) p a ≡ just p a + sum (children f i (f p) a) addresses_per_block
unfolding tree_count
tree_count-suc f i p a h = ground arith

-- The root of a tree is one of its blocks.
pub tree_count-root : (f : ℕ → Block) (levels p : ℕ) → p ≢ 0 → 0 < tree_count f levels p p
tree_count-root f zero p h = ground (arith, tree_count-leaf f p p h)
tree_count-root f (suc i) p h = ground (arith, tree_count-suc f i p p h)

pub tree_count-child :
    (f : ℕ → Block) (i p j a : ℕ)
    → p ≢ 0
    → j < addresses_per_block
    → tree_count f i (address (f p) j) a ≤ tree_count f (suc i) p a
tree_count-child f i p j a h l =
    omega (arith, tree_count-suc f i p a h, le-sum (children f i (f p) a) j addresses_per_block l)

-- A block that is found in a tree is one of its blocks.
pub lookup-counted :
    (f : ℕ → Block) (levels p o : ℕ)
    → f 0 ≡ zero_block
    → AllBelow addresses_per_block (indices levels o)
    → lookup f levels p o ≢ 0
    → 0 < tree_count f levels p (lookup f levels p o)
unfolding indices
lookup-counted f zero p o z b h = tree_count-root f zero p h
lookup-counted f (suc i) p o z b h = elim (eq_or_ne p 0) [
  | inl e ↦
      absurd (h (subst (λ (q : ℕ). lookup f (suc i) q o ≡ 0) (sym e) (lookup-zero f (suc i) o z)))
  | inr ne ↦
      let j : ℕ = o / int_pow addresses_per_block i in
      let rest : ℕ = o % int_pow addresses_per_block i in
      let q : ℕ = lookup f i (address (f p) j) rest in
      omega (
        arith,
        lookup-counted f i (address (f p) j) rest z b.1 h,
        tree_count-child f i p j q ne b.0,
      )
]

module _ (f g : ℕ → Block) where
  -- Where the blocks of a tree are the same, so is the tree.
  abbrev pub Agree : (levels p : ℕ) → Type 0
  Agree levels p = (a : ℕ) → 0 < tree_count f levels p a → g a ≡ f a

  child_agrees :
      (i p j : ℕ) → p ≢ 0 → j < addresses_per_block → Agree (suc i) p → Agree i (address (f p) j)
  child_agrees i p j ne l h a c = h a (omega (arith, tree_count-child f i p j a ne l))

  root_agrees : (levels p : ℕ) → p ≢ 0 → Agree levels p → g p ≡ f p
  root_agrees levels p ne h = h p (tree_count-root f levels p ne)

  pub tree_count-same :
      (levels p a : ℕ) → Agree levels p → tree_count g levels p a ≡ tree_count f levels p a
  unfolding tree_count
  tree_count-same zero p a h = refl
  tree_count-same (suc i) p a h = elim (eq_or_ne p 0) [
    | inl e ↦ rw e (tree_count-zero g (suc i) a ∙ sym (tree_count-zero f (suc i) a))
    | inr ne ↦
        rw (tree_count-suc g i p a ne, tree_count-suc f i p a ne, root_agrees (suc i) p ne h)
          (ap (λ (n : ℕ). just p a + n)
            (sum-same (children g i (f p) a) (children f i (f p) a) addresses_per_block
              (λ j l. tree_count-same i (address (f p) j) a (child_agrees i p j ne l h))))
  ]

  -- What is found in it is the same, and holds the same.
  pub lookup-same :
      (levels p o : ℕ)
      → f 0 ≡ zero_block
      → g 0 ≡ zero_block
      → AllBelow addresses_per_block (indices levels o)
      → Agree levels p
      → lookup g levels p o ≡ lookup f levels p o
  unfolding indices
  lookup-same zero p o z z' b h = refl
  lookup-same (suc i) p o z z' b h = elim (eq_or_ne p 0) [
    | inl e ↦ rw e (lookup-zero g (suc i) o z' ∙ sym (lookup-zero f (suc i) o z))
    | inr ne ↦
        rw (root_agrees (suc i) p ne h) (lookup-same i _ _ z z' b.1 (child_agrees i p _ ne b.0 h))
  ]

  pub contents-same :
      (levels p o : ℕ)
      → f 0 ≡ zero_block
      → g 0 ≡ zero_block
      → AllBelow addresses_per_block (indices levels o)
      → Agree levels p
      → g (lookup g levels p o) ≡ f (lookup f levels p o)
  contents-same levels p o z z' b h =
      ap g (lookup-same levels p o z z' b h) ∙ elim (eq_or_ne (lookup f levels p o) 0) [
        | inl e ↦ rw (e, z) z'
        | inr ne ↦ h (lookup f levels p o) (lookup-counted f levels p o z b ne)
      ]

-- A block of zeros is a tree of one block, and all that is found in it is 0.
module _ (f : ℕ → Block) (w : ℕ) (ne : w ≢ 0) (zeros : f w ≡ zero_block) where
  empty_entry : (j : ℕ) → address (f w) j ≡ 0
  unfolding u32_at
  empty_entry j = rw zeros refl

  pub tree_count-fresh : (levels a : ℕ) → tree_count f levels w a ≡ just w a
  tree_count-fresh zero a = tree_count-leaf f w a ne
  tree_count-fresh (suc i) a = omega (
    arith,
    tree_count-suc f i w a ne,
    sum-zero (children f i (f w) a) addresses_per_block
        (λ j l. ap (λ (q : ℕ). tree_count f i q a) (empty_entry j) ∙ tree_count-zero f i a),
  )

  pub contents-fresh : (levels o : ℕ) → f 0 ≡ zero_block → f (lookup f levels w o) ≡ zero_block
  contents-fresh zero o z = zeros
  contents-fresh (suc i) o z =
      ap (λ (q : ℕ). f (lookup f i q (o % int_pow addresses_per_block i)))
        (empty_entry (o / int_pow addresses_per_block i))
      ∙ ap f (lookup-zero f i (o % int_pow addresses_per_block i) z)
      ∙ z

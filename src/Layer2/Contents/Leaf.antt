-- ===== src/Layer2/Contents/Leaf.antt =====
-- A write to one block of a file changes that block of the file and no other: no block of a file is
-- used twice.
use mathlib.Core.Path.{subst}
use filesystem.Bytes.{Block, zero_block}
use filesystem.Layer1.Data.View.{upd}
use filesystem.Layer2.BlockMap.{addresses_per_block, int_pow, address}
use filesystem.Layer2.BlockMap.Locate.{indices, AllBelow}
use filesystem.Layer2.Contents.{lookup}
use filesystem.Layer2.Contents.Join.{tree_count-split}
use filesystem.Layer2.Contents.Nth.{lookup-zero}
use filesystem.Layer2.Contents.Sum.{sum-same, le-sum_but}
use filesystem.Layer2.Contents.Tree.{
  just, tree_count, children, tree_count-leaf, tree_count-suc, lookup-counted, Agree,
  tree_count-same, lookup-same,
}
use filesystem.Prelude.{
  eq_or_ne, ℕ, zero, suc, ◌+◌, ◌/◌, ◌%◌, ◌≤◌, ◌<◌, ◌≡◌, refl, sym, ap, ◌∙◌, ◌≢◌, inl, inr, List,
  ◌∷◌, arith,
}

module _ (f : ℕ → Block) (q : ℕ) (b : Block) (zero_same : f 0 ≡ zero_block) (ne : q ≢ 0) where
  pub upd_zero : upd f q b 0 ≡ zero_block
  upd_zero = ground (arith, zero_same)

  -- A tree without the block is the same.
  pub Agree-upd : (levels p : ℕ) → tree_count f levels p q ≡ 0 → Agree f (upd f q b) levels p
  Agree-upd levels p h a l = elim (eq_or_ne q a) [
    | inl e ↦
        absurd (subst (λ (x : ℕ). 0 < tree_count f levels p x → ⊥) e (λ c. omega (arith, h, c)) l)
    | inr other ↦ ground arith
  ]

  pub not_found :
      (levels p o : ℕ)
      → AllBelow addresses_per_block (indices levels o)
      → tree_count f levels p q ≡ 0
      → lookup f levels p o ≢ q
  not_found levels p o below h e =
      let counted : 0 < tree_count f levels p q =
        subst (λ (x : ℕ). 0 < tree_count f levels p x) e
          (lookup-counted f levels p o zero_same below (λ z. ne (sym e ∙ z))) in
      omega (arith, h, counted)

  -- In a tree that has the block once, every lookup is the same, and another path does not find it.
  pub lookup-upd :
      (levels p o : ℕ)
      → lookup f levels p o ≡ q
      → tree_count f levels p q ≤ 1
      → AllBelow addresses_per_block (indices levels o)
      → (o' : ℕ) → AllBelow addresses_per_block (indices levels o')
      → (lookup (upd f q b) levels p o' ≡ lookup f levels p o')
        × (lookup f levels p o' ≡ q → indices levels o' ≡ indices levels o)
  unfolding indices
  lookup-upd zero p o e once below o' below' = (refl, λ h. refl)
  lookup-upd (suc i) p o e once below o' below' =
      let j : ℕ = o / int_pow addresses_per_block i in
      let j' : ℕ = o' / int_pow addresses_per_block i in
      let rest : ℕ = o % int_pow addresses_per_block i in
      let rest' : ℕ = o' % int_pow addresses_per_block i in
      let p_ne : p ≢ 0 = λ z. ne (
        sym e
        ∙ subst (λ (x : ℕ). lookup f (suc i) x o ≡ 0) (sym z)
            (lookup-zero f (suc i) o zero_same)) in
      let counted : 0 < tree_count f i (address (f p) j) q =
        subst (λ (x : ℕ). 0 < tree_count f i (address (f p) j) x) e
          (lookup-counted f i (address (f p) j) rest zero_same below.1 (λ z. ne (sym e ∙ z))) in
      let split = tree_count-split f i p j q p_ne below.0 in
      let root_other : p ≢ q = ground (arith, split, counted) in
      let root_same : upd f q b p ≡ f p = ground (arith, root_other) in
      rw root_same (elim (eq_or_ne j' j) [
        | inl same ↦
            let ih =
              lookup-upd i (address (f p) j) rest e (omega (arith, split, once)) below.1 rest'
                below'.1 in
            subst
              (λ (x : ℕ).
                (lookup (upd f q b) i (address (f p) x) rest' ≡ lookup f i (address (f p) x) rest')
                × (lookup f i (address (f p) x) rest' ≡ q
                    → (x ∷ indices i rest') ≡ (j ∷ indices i rest)))
              (sym same) (ih.0, λ h. ap (λ (l : List ℕ). j ∷ l) (ih.1 h))
        | inr other ↦
            let without : tree_count f i (address (f p) j') q ≡ 0 = omega (
              arith,
              split,
              once,
              counted,
              le-sum_but (children f i (f p) q) j' j addresses_per_block below'.0 other,
            ) in
            (
              lookup-same f (upd f q b) i (address (f p) j') rest' zero_same upd_zero below'.1
                  (Agree-upd i (address (f p) j') without),
              λ h. absurd (not_found i (address (f p) j') rest' below'.1 without h),
            )
      ])

  -- The write changes no count in a tree that has the block once, as what an offset leads to.
  pub tree_count-upd :
      (levels p o : ℕ)
      → lookup f levels p o ≡ q
      → tree_count f levels p q ≤ 1
      → AllBelow addresses_per_block (indices levels o)
      → (a : ℕ) → tree_count (upd f q b) levels p a ≡ tree_count f levels p a
  unfolding indices
  tree_count-upd zero p o e once below a =
      let p_ne : p ≢ 0 = λ z. ne (sym e ∙ z) in
      tree_count-leaf (upd f q b) p a p_ne ∙ sym (tree_count-leaf f p a p_ne)
  tree_count-upd (suc i) p o e once below a =
      let j : ℕ = o / int_pow addresses_per_block i in
      let rest : ℕ = o % int_pow addresses_per_block i in
      let p_ne : p ≢ 0 = λ z. ne (
        sym e
        ∙ subst (λ (x : ℕ). lookup f (suc i) x o ≡ 0) (sym z)
            (lookup-zero f (suc i) o zero_same)) in
      let counted : 0 < tree_count f i (address (f p) j) q =
        subst (λ (x : ℕ). 0 < tree_count f i (address (f p) j) x) e
          (lookup-counted f i (address (f p) j) rest zero_same below.1 (λ z. ne (sym e ∙ z))) in
      let split = tree_count-split f i p j q p_ne below.0 in
      let root_other : p ≢ q = ground (arith, split, counted) in
      let root_same : upd f q b p ≡ f p = ground (arith, root_other) in
      rw (tree_count-suc (upd f q b) i p a p_ne, tree_count-suc f i p a p_ne, root_same)
        (ap (λ (s : ℕ). just p a + s)
          (sum-same (children (upd f q b) i (f p) a) (children f i (f p) a) addresses_per_block
            λ j' l. elim (eq_or_ne j' j) [
              | inl same ↦
                  subst (λ (x : ℕ). children (upd f q b) i (f p) a x ≡ children f i (f p) a x)
                    (sym same)
                    (tree_count-upd i (address (f p) j) rest e (omega (arith, split, once)) below.1
                      a)
              | inr other ↦ tree_count-same f (upd f q b) i (address (f p) j') a (
                  Agree-upd i (address (f p) j') (
                    omega (
                      arith,
                      split,
                      once,
                      counted,
                      le-sum_but (children f i (f p) q) j' j addresses_per_block l other,
                    )))
            ]))

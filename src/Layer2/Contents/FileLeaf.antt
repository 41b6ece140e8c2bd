-- ===== src/Layer2/Contents/FileLeaf.antt =====
-- A write to the data block of one block number of a file, for the whole file.
use mathlib.Core.Path.{subst}
use filesystem.Bytes.{Block, zero_block}
use filesystem.Layer1.Data.View.{upd}
use filesystem.Layer1.Inode.{Inode}
use filesystem.Layer2.BlockMap.{addresses_per_block, triple_limit, get_root}
use filesystem.Layer2.BlockMap.Locate.{indices, block_at, AllBelow, Located, locate-Located}
use filesystem.Layer2.Contents.{lookup, levels_of, block_of}
use filesystem.Layer2.Contents.Extend.{At, At-below, block_of-At}
use filesystem.Layer2.Contents.Leaf.{upd_zero, Agree-upd, not_found, lookup-upd, tree_count-upd}
use filesystem.Layer2.Contents.Roots.{num_roots, root_of, root_count, file_count, file_count-split}
use filesystem.Layer2.Contents.Sum.{sum-same, le-sum_but}
use filesystem.Layer2.Contents.Tree.{tree_count, lookup-counted, tree_count-same, lookup-same}
use filesystem.Prelude.{
  ◌==◌, if◌then◌else◌, eq_or_ne, ℕ, ◌≤◌, ◌<◌, ◌≡◌, sym, ap, ◌∙◌, ◌≢◌, inl, inr, some, arith,
}

-- The field and the entries of a block number lead back to it.
block_at-At :
    {i : ℕ} (a : At i)
    → block_at (root_of a.code) (indices (levels_of (root_of a.code)) a.offset) ≡ i
block_at-At {i} a =
    let l : Located i (some (root_of a.code, levels_of (root_of a.code), a.offset)) =
      subst (Located i) a.located (locate-Located i) in
    l.3

module _ (f : ℕ → Block) (q : ℕ) (b : Block) (zero_same : f 0 ≡ zero_block) (ne : q ≢ 0) where
  -- In a file that has the block once, at the block number `k`, it is so for the whole file.
  module _ (m : Inode) {k : ℕ} (at : At k) (e : block_of f m k ≡ q) where
    found_at : lookup f (levels_of (root_of at.code)) (get_root (root_of at.code) m) at.offset ≡ q
    found_at = sym (block_of-At f m at) ∙ e

    pub field_counted : 0 < root_count f m q at.code
    field_counted =
        subst
          (λ (x : ℕ).
            0 < tree_count f (levels_of (root_of at.code)) (get_root (root_of at.code) m) x)
          found_at
          (lookup-counted f (levels_of (root_of at.code)) (get_root (root_of at.code) m) at.offset
            zero_same at.within_blocks (λ z. ne (sym found_at ∙ z)))

    same_block :
        (i : ℕ) (a : At i)
        → a.code ≡ at.code
        → indices (levels_of (root_of a.code)) a.offset
          ≡ indices (levels_of (root_of at.code)) at.offset
        → i ≡ k
    same_block i a c is =
        sym (block_at-At a)
        ∙ ap (λ (x : ℕ). block_at (root_of x) (indices (levels_of (root_of a.code)) a.offset)) c
        ∙ ap (block_at (root_of at.code)) is
        ∙ block_at-At at

    module _ (once : file_count f m q ≤ 1) where
      block_of-upd :
          (i : ℕ) (a : At i)
          → (block_of (upd f q b) m i ≡ block_of f m i) × (block_of f m i ≡ q → i ≡ k)
      block_of-upd i a =
          let split = file_count-split f m at.code q at.code_fits in
          elim (eq_or_ne a.code at.code) [
            | inl same ↦
                let both =
                  subst
                    (λ (x : ℕ).
                      AllBelow addresses_per_block (indices (levels_of (root_of x)) a.offset)
                      → (lookup (upd f q b) (levels_of (root_of x)) (get_root (root_of x) m)
                            a.offset
                          ≡ lookup f (levels_of (root_of x)) (get_root (root_of x) m) a.offset)
                        × (lookup f (levels_of (root_of x)) (get_root (root_of x) m) a.offset ≡ q
                            → indices (levels_of (root_of x)) a.offset
                              ≡ indices (levels_of (root_of at.code)) at.offset))
                    (sym same)
                    (lookup-upd f q b zero_same ne (levels_of (root_of at.code))
                      (get_root (root_of at.code) m) at.offset found_at (omega (arith, split, once))
                      at.within_blocks a.offset)
                    a.within_blocks in
                rw (block_of-At (upd f q b) m a, block_of-At f m a)
                  (both.0, λ h. same_block i a same (both.1 h))
            | inr other ↦
                let without : root_count f m q a.code ≡ 0 = omega (
                  arith,
                  split,
                  once,
                  field_counted,
                  le-sum_but (root_count f m q) a.code at.code num_roots a.code_fits other,
                ) in
                rw (block_of-At (upd f q b) m a, block_of-At f m a)
                  (
                    lookup-same f (upd f q b) (levels_of (root_of a.code))
                        (get_root (root_of a.code) m) a.offset zero_same
                        (upd_zero f q b zero_same ne) a.within_blocks
                        (Agree-upd f q b zero_same ne (levels_of (root_of a.code))
                          (get_root (root_of a.code) m) without),
                    λ h. absurd (
                        not_found f q b zero_same ne (levels_of (root_of a.code))
                          (get_root (root_of a.code) m) a.offset a.within_blocks without h),
                  )
          ]

      pub file_count-upd : (a : ℕ) → file_count (upd f q b) m a ≡ file_count f m a
      file_count-upd a =
          let split = file_count-split f m at.code q at.code_fits in
          sum-same (root_count (upd f q b) m a) (root_count f m a) num_roots λ c l.
            elim (eq_or_ne c at.code) [
              | inl same ↦
                  subst (λ (x : ℕ). root_count (upd f q b) m a x ≡ root_count f m a x) (sym same)
                    (tree_count-upd f q b zero_same ne (levels_of (root_of at.code))
                      (get_root (root_of at.code) m) at.offset found_at (omega (arith, split, once))
                      at.within_blocks a)
              | inr other ↦
                  tree_count-same f (upd f q b) (levels_of (root_of c)) (get_root (root_of c) m) a (
                    Agree-upd f q b zero_same ne (levels_of (root_of c)) (get_root (root_of c) m) (
                      omega (
                        arith,
                        split,
                        once,
                        field_counted,
                        le-sum_but (root_count f m q) c at.code num_roots l other,
                      )))
            ]

      -- The contents of the file after the write.
      pub contents-upd :
          (i : ℕ)
          → i < triple_limit
          → upd f q b (block_of (upd f q b) m i) ≡ (if i == k then b else f (block_of f m i))
      contents-upd i l =
          let both = block_of-upd i (At-below i l) in
          rw (both.0) (elim (eq_or_ne i k) [
            | inl same ↦ ground (arith, ap (block_of f m) same, e)
            | inr other ↦
                let apart : block_of f m i ≢ q = λ h. other (both.1 h) in ground (arith, apart)
          ])

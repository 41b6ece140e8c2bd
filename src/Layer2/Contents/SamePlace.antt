-- ===== src/Layer2/Contents/SamePlace.antt =====
-- Where two block numbers of a file lie.
use mathlib.Core.Path.{subst}
use filesystem.Layer2.BlockMap.{Root, locate}
use filesystem.Layer2.Contents.{levels_of}
use filesystem.Layer2.Contents.Extend.{At}
use filesystem.Layer2.Contents.Roots.{num_roots, root_of}
use filesystem.Prelude.{ℕ, ◌<◌, ◌≡◌, sym, ap, ◌∙◌, ◌≢◌, ◌⊎◌, Option, none, some, arith}

-- Two block numbers with the same field are the same if they have the same offset, or if the field
-- names the block itself; and the same block number has the same offset.
locate_same :
    (i k : ℕ) (root : Root) (levels o o' : ℕ)
    → locate i ≡ some (root, levels, o)
    → locate k ≡ some (root, levels, o')
    → (levels ≡ 0) ⊎ (o ≡ o')
    → i ≡ k
unfolding locate
locate_same i k root levels o o' e e' h = ground (arith, e, e', h)

root_of_inj : (c j : ℕ) → c < num_roots → j < num_roots → root_of c ≡ root_of j → c ≡ j
root_of_inj c j h h' e = ground (arith, e)

module _ {i k : ℕ} (a : At i) (at : At k) where
  pub same_place : i ≡ k → (root_of a.code ≡ root_of at.code) × (a.offset ≡ at.offset)
  same_place e =
      let there : locate k ≡ some (root_of a.code, levels_of (root_of a.code), a.offset) =
        subst (λ (x : ℕ). locate x ≡ some (root_of a.code, levels_of (root_of a.code), a.offset)) e
          a.located in
      let both = sym there ∙ at.located in
      (
        ap (λ (x : Option (Root × ℕ × ℕ)). elim x [ none ↦ root_of a.code | some (q, l, o) ↦ q ])
            both,
        ap (λ (x : Option (Root × ℕ × ℕ)). elim x [ none ↦ a.offset | some (q, l, o) ↦ o ]) both,
      )

  pub code_differs : a.code ≢ at.code → i ≢ k
  code_differs ne e = ne (root_of_inj a.code at.code a.code_fits at.code_fits (same_place e).0)

  pub same_number :
      a.code ≡ at.code → (levels_of (root_of at.code) ≡ 0) ⊎ (a.offset ≡ at.offset) → i ≡ k
  same_number e h =
      locate_same i k (root_of at.code) (levels_of (root_of at.code)) a.offset at.offset
        (subst (λ (c : ℕ). locate i ≡ some (root_of c, levels_of (root_of c), a.offset)) e
          a.located)
        at.located h

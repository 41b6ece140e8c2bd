-- ===== src/Layer2/Contents/Valid.antt =====
-- A file of which no block is free, twice in the file or in use elsewhere has valid pointers only.
use mathlib.Core.Path.{subst}
use filesystem.Bytes.{Block, zero_block, u32_at}
use filesystem.Layer1.Inode.{Inode}
use filesystem.Layer2.BlockMap.{Root, get_root, address}
use filesystem.Layer2.Contents.{levels_of, IsTree, IsFile}
use filesystem.Layer2.Contents.NewBlock.{FileBudget}
use filesystem.Layer2.Contents.Nth.{IsTree-root}
use filesystem.Layer2.Contents.Roots.{
  num_roots, root_of, code_of, code_of-lt, root_of-code_of, file_count-split,
}
use filesystem.Layer2.Contents.Tree.{tree_count, tree_count-root, tree_count-child}
use filesystem.Prelude.{eq_or_ne, ℕ, zero, suc, ◌≤◌, ◌<◌, ◌≡◌, sym, inl, inr, List, arith}

-- A tree under the pointer 0 is empty.
pub empty_IsTree : (f : ℕ → Block) (size levels : ℕ) → f 0 ≡ zero_block → IsTree f size levels 0
unfolding u32_at
empty_IsTree f size zero z = omega arith
empty_IsTree f size (suc i) z = (omega arith, λ j h. rw z (empty_IsTree f size i z))

counted-IsTree :
    (f : ℕ → Block) (size levels p : ℕ)
    → f 0 ≡ zero_block
    → ((a : ℕ) → 0 < tree_count f levels p a → a ≤ size)
    → IsTree f size levels p
counted-IsTree f size zero p z h = elim (eq_or_ne p 0) [
  | inl e ↦ omega arith
  | inr ne ↦ h p (tree_count-root f zero p ne)
]
counted-IsTree f size (suc i) p z h = elim (eq_or_ne p 0) [
  | inl e ↦ subst (IsTree f size (suc i)) (sym e) (empty_IsTree f size (suc i) z)
  | inr ne ↦ (
    h p (tree_count-root f (suc i) p ne),
    λ j l.
        counted-IsTree f size i (address (f p) j) z
          (λ a c. h a (omega (arith, tree_count-child f i p j a ne l))),
  )
]

-- The trees under the fields.
module _ (f : ℕ → Block) (size : ℕ) (ps : List ℕ) (m : Inode) (outside : ℕ → ℕ)
    (z : f 0 ≡ zero_block) (b : FileBudget f size ps m outside) where
  pub root-IsTree :
      (c : ℕ) → c < num_roots → IsTree f size (levels_of (root_of c)) (get_root (root_of c) m)
  root-IsTree c l =
      counted-IsTree f size (levels_of (root_of c)) (get_root (root_of c) m) z
        λ a h. ground (arith, h, b a, file_count-split f m c a l)

  pub root_pointer-le : (c : ℕ) → c < num_roots → get_root (root_of c) m ≤ size
  root_pointer-le c l = IsTree-root f size (levels_of (root_of c)) _ (root-IsTree c l)

  pub FileBudget-IsFile : m.size < 2147483648 → IsFile f size m
  FileBudget-IsFile h = record {
    trees = λ r e.
        subst (λ (x : Root). IsTree f size (levels_of x) (get_root x m)) (root_of-code_of r e)
          (root-IsTree (code_of r) (code_of-lt r e));
    size_word = h;
  }

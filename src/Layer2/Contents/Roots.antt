-- ===== src/Layer2/Contents/Roots.antt =====
-- The fields of an inode that name blocks, by numbers, and the blocks of a whole file.
use filesystem.Bytes.{Block}
use filesystem.Layer1.Inode.{Inode, num_direct}
use filesystem.Layer2.BlockMap.{Root, direct, single, double, triple, get_root, set_root}
use filesystem.Layer2.BlockMap.Locate.{is_field}
use filesystem.Layer2.Contents.{levels_of}
use filesystem.Layer2.Contents.Sum.{sum, sum-same, sum_but, sum-split, le-sum_but}
use filesystem.Layer2.Contents.Tree.{tree_count, Agree, tree_count-same}
use filesystem.Prelude.{
  ltb, ◌==◌, if◌then◌else◌, eq_or_ne, length, get_or, set, ℕ, zero, suc, ◌+◌, ◌<◌, ◌≡◌, refl, ap,
  ◌≢◌, inl, inr, true, List, [], ◌∷◌, arith,
}

-- The fields: the direct blocks, then the indirect ones.
abbrev pub num_roots : ℕ
num_roots = 13

abbrev pub root_of : ℕ → Root
root_of c =
    if ltb c num_direct
    then direct c
    else if c == 10
    then single
    else if c == 11
    then double
    else triple

abbrev pub code_of : Root → ℕ
code_of (direct i) = i
code_of single = 10
code_of double = 11
code_of triple = 12

pub code_of-lt : (r : Root) → is_field r ≡ true → code_of r < num_roots
code_of-lt (direct i) h = ground (arith, h)
code_of-lt single h = omega arith
code_of-lt double h = omega arith
code_of-lt triple h = omega arith

pub root_of-code_of : (r : Root) → is_field r ≡ true → root_of (code_of r) ≡ r
root_of-code_of (direct i) h = ground (arith, h)
root_of-code_of single h = refl
root_of-code_of double h = refl
root_of-code_of triple h = refl

get_or-set :
    (l : List ℕ) (i k w : ℕ)
    → i < length l
    → get_or (set l i w) k 0 ≡ (if k == i then w else get_or l k 0)
get_or-set [] i k w h = absurd (omega (arith, h))
get_or-set (x ∷ l) zero zero w h = refl
get_or-set (x ∷ l) zero (suc k) w h = ground arith
get_or-set (x ∷ l) (suc i) zero w h = ground arith
get_or-set (x ∷ l) (suc i) (suc k) w h = ground (arith, get_or-set l i k w)

pub length-set : (l : List ℕ) (i w : ℕ) → length (set l i w) ≡ length l
length-set [] i w = refl
length-set (x ∷ l) zero w = refl
length-set (x ∷ l) (suc i) w = omega (arith, length-set l i w)

-- An assignment to one field.
pub get_root-set_root :
    (m : Inode) (c j w : ℕ)
    → length m.direct_blocks ≡ num_direct
    → c < num_roots
    → j < num_roots
    → get_root (root_of c) (set_root (root_of j) m w)
      ≡ (if c == j then w else get_root (root_of c) m)
unfolding get_root set_root
get_root-set_root m c j w l h h' = ground (arith, get_or-set m.direct_blocks j c w)

-- An inode with the pointers of another, and an inode that differs in the pointers only.
abbrev pub with_pointers : Inode → Inode → Inode
with_pointers m p = record m {
  direct_blocks = p.direct_blocks;
  indirect = p.indirect;
  double_indirect = p.double_indirect;
  triple_indirect = p.triple_indirect;
}

abbrev pub SameFields : Inode → Inode → Type 0
SameFields m m' = (m' ≡ with_pointers m m') × (length m'.direct_blocks ≡ length m.direct_blocks)

-- How often a block stands in the tree under a field, and in the whole file.
abbrev pub root_count : (f : ℕ → Block) (m : Inode) (a c : ℕ) → ℕ
root_count f m a c = tree_count f (levels_of (root_of c)) (get_root (root_of c) m) a

abbrev pub file_count : (f : ℕ → Block) (m : Inode) (a : ℕ) → ℕ
file_count f m a = sum (root_count f m a) num_roots

-- The other fields of a file.
abbrev pub other_roots : (f : ℕ → Block) (m : Inode) (j a : ℕ) → ℕ
other_roots f m j a = sum_but (root_count f m a) j num_roots

pub file_count-split :
    (f : ℕ → Block) (m : Inode) (j a : ℕ)
    → j < num_roots
    → file_count f m a ≡ root_count f m a j + other_roots f m j a
file_count-split f m j a h = sum-split (root_count f m a) j num_roots h

module _ (f f' : ℕ → Block) (m m' : Inode) (j : ℕ) (within : j < num_roots)
    (roots_same : (c : ℕ)
      → c < num_roots
      → c ≢ j
      → get_root (root_of c) m' ≡ get_root (root_of c) m)
    (frame : (a : ℕ) → 0 < other_roots f m j a → f' a ≡ f a) where
  pub root_agrees :
      (c : ℕ) → c < num_roots → c ≢ j → Agree f f' (levels_of (root_of c)) (get_root (root_of c) m)
  root_agrees c h other a l =
      frame a (omega (arith, le-sum_but (root_count f m a) c j num_roots h other))

  others_equal : (a : ℕ) → other_roots f' m' j a ≡ other_roots f m j a
  others_equal a = sum-same _ _ num_roots λ c h. elim (eq_or_ne c j) [
    | inl e ↦ ground arith
    | inr other ↦ ground (
      arith,
      ap (λ (q : ℕ). tree_count f' (levels_of (root_of c)) q a) (roots_same c h other),
      tree_count-same f f' (levels_of (root_of c)) (get_root (root_of c) m) a
          (root_agrees c h other),
    )
  ]

  pub file_count-join :
      (a : ℕ)
      → file_count f' m' a
        ≡ tree_count f' (levels_of (root_of j)) (get_root (root_of j) m') a + other_roots f m j a
  file_count-join a = omega (arith, file_count-split f' m' j a within, others_equal a)

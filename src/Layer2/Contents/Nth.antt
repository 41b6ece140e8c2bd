-- ===== src/Layer2/Contents/Nth.antt =====
-- get_nth_datablock finds the block of a file, where it is not asked to create it.
use mathlib.Core.Path.{subst}
use filesystem.Bytes.{Block, zero_block, u32_at}
use filesystem.Layer0.{Superblock, Disk, Vol, Op}
use filesystem.Layer1.Data.View.{view, data_read-done}
use filesystem.Layer1.Inode.{Inode}
use filesystem.Layer1.Ready.{Ready}
use filesystem.Layer2.BlockMap.{
  addresses_per_block, int_pow, Root, triple_limit, locate, get_root, address, Nth, descend,
  get_nth_datablock,
}
use filesystem.Layer2.BlockMap.Locate.{indices, AllBelow, is_field, Located, locate-Located}
use filesystem.Layer2.Contents.{lookup, levels_of, block_of, IsTree, IsFile}
use filesystem.Prelude.{
  ◌==◌, Option-cases, ℕ, zero, suc, ◌/◌, ◌%◌, ◌≤◌, ◌<◌, ◌≡◌, refl, sym, ap, ◌∙◌, ◌≢◌, inl, inr,
  Bool, true, false, ◌&&◌, none, some, arith,
}
use filesystem.Prelude.Run.{ok, done}

pub IsTree-root : (f : ℕ → Block) (size levels p : ℕ) → IsTree f size levels p → p ≤ size
IsTree-root f size zero p h = h
IsTree-root f size (suc i) p h = h.0

lookup-le :
    (f : ℕ → Block) (size levels p offset : ℕ)
    → IsTree f size levels p
    → AllBelow addresses_per_block (indices levels offset)
    → lookup f levels p offset ≤ size
unfolding indices
lookup-le f size zero p offset h b = h
lookup-le f size (suc i) p offset h b = lookup-le f size i _ _ (h.1 _ b.0) b.1

-- The block 0 holds nothing but zeros, so that a tree under it is empty.
pub lookup-zero :
    (f : ℕ → Block) (levels offset : ℕ) → f 0 ≡ zero_block → lookup f levels 0 offset ≡ 0
unfolding u32_at
lookup-zero f zero offset z = refl
lookup-zero f (suc i) offset z = rw z (lookup-zero f i _ z)

-- Nothing is created where it is not asked for.
pub not_created : {A : Type 0} (b : Bool) (m k : A) → elim (b && false) [ true ↦ m | false ↦ k ] ≡ k
not_created true m k = refl
not_created false m k = refl

module _ {v : Vol} {sb : Superblock} {d : Disk} {n : ℕ} (r : Ready v sb d n) where
  descend-lookup :
      (m : Inode) (levels p offset : ℕ)
      → IsTree (view sb d) sb.data_size levels p
      → AllBelow addresses_per_block (indices levels offset)
      → descend false m false levels p offset v
        ≡ done
            (record { inode = m; created = false; block = ok (lookup (view sb d) levels p offset) })
            v
  unfolding descend indices
  descend-lookup m zero p offset h b = refl
  descend-lookup m (suc i) zero offset h b =
      ap (λ (q : ℕ). done (record { inode = m; created = false; block = ok q }) v)
        (sym (lookup-zero (view sb d) (suc i) offset refl))
  descend-lookup m (suc i) (suc p) offset h b =
      let index : ℕ = offset / int_pow addresses_per_block i in
      let rest : ℕ = offset % int_pow addresses_per_block i in
      ground (
        arith,
        data_read-done r (suc p) h.0,
        descend-lookup m i (address (view sb d (suc p)) index) rest (h.1 index b.0) b.1,
      )

-- The levels that locate gives are those of the field, and the entries are within the blocks.
pub locate-levels :
    (n : ℕ) {root : Root} {levels offset : ℕ}
    → locate n ≡ some (root, levels, offset)
    → levels ≡ levels_of root
unfolding locate
locate-levels n h = ground arith

pub locate-in :
    (n : ℕ) {root : Root} {levels offset : ℕ}
    → locate n ≡ some (root, levels, offset)
    → (is_field root ≡ true) × AllBelow addresses_per_block (indices levels offset)
locate-in n {root} {levels} {offset} h =
    let l : Located n (some (root, levels, offset)) = subst (Located n) h (locate-Located n) in
    (l.1, l.2)

pub locate-some : (n : ℕ) → n < triple_limit → locate n ≢ none
unfolding locate
locate-some n h e = ground arith

module _ {v : Vol} {sb : Superblock} {d : Disk} {n : ℕ} (r : Ready v sb d n) {m : Inode}
    (file : IsFile (view sb d) sb.data_size m) where
  nth_at :
      (k : ℕ) {root : Root} {levels offset : ℕ}
      → locate k ≡ some (root, levels, offset)
      → (get_nth_datablock m k false v
          ≡ done (record { inode = m; created = false; block = ok (block_of (view sb d) m k) }) v)
        × (block_of (view sb d) m k ≤ sb.data_size)
  unfolding get_nth_datablock block_of
  nth_at k {root} {levels} {offset} e =
      let h : IsTree (view sb d) sb.data_size levels (get_root root m) =
        subst (λ l. IsTree (view sb d) sb.data_size l (get_root root m)) (sym (locate-levels k e))
          (file.trees root (locate-in k e).0) in
      rw (get_nth_datablock, block_of, e)
        (
          ap (λ (w : Op Nth). w v) (not_created (get_root root m == 0) _ _)
              ∙ descend-lookup r m levels (get_root root m) offset h (locate-in k e).1,
          lookup-le (view sb d) sb.data_size levels (get_root root m) offset h (locate-in k e).1,
        )

  -- get_nth_datablock
  pub get_nth_datablock-block_of :
      (k : ℕ)
      → k < triple_limit
      → (get_nth_datablock m k false v
          ≡ done (record { inode = m; created = false; block = ok (block_of (view sb d) m k) }) v)
        × (block_of (view sb d) m k ≤ sb.data_size)
  get_nth_datablock-block_of k h = elim (Option-cases (locate k)) [
    | inl e ↦ absurd (locate-some k h e)
    | inr ((root, levels, offset), e) ↦ nth_at k e
  ]

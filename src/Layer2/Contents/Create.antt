-- ===== src/Layer2/Contents/Create.antt =====
-- get_nth_datablock where it creates the block: the walk down the indirect blocks.
use filesystem.Bytes.{Block}
use filesystem.Layer0.{Superblock, Disk, Vol, Op}
use filesystem.Layer1.Data.{data_write}
use filesystem.Layer1.Data.View.{view, data_read-done, data_write-done}
use filesystem.Layer1.FreeList.{invalid_data}
use filesystem.Layer1.FreeList.Chain.{IsFreeList}
use filesystem.Layer1.Inode.{Inode}
use filesystem.Layer1.Ready.{Ready, Ready-with_disk}
use filesystem.Layer2.BlockMap.{addresses_per_block, address, set_address, Nth, descend}
use filesystem.Layer2.BlockMap.Locate.{indices, AllBelow}
use filesystem.Layer2.Contents.{lookup}
use filesystem.Layer2.Contents.Allocation.{data_allocate-Allocation, alloc_then}
use filesystem.Layer2.Contents.Fresh.{
  Budget, Empty, new_valid, root_valid, linked, linked_disk, new_entry, free_linked, Above-new,
  Budget-new,
}
use filesystem.Layer2.Contents.Grow.{Grew, outside_of, entry_at, rest_at, Above, Grew-Above}
use filesystem.Layer2.Contents.Join.{tree_count-split}
use filesystem.Layer2.Contents.Tree.{tree_count-root}
use filesystem.Prelude.{
  ◌==◌, ℕ, zero, suc, ◌≤◌, ◌<◌, ◌≡◌, refl, ◌≢◌, ◌⊎◌, inl, inr, Bool, true, false, ◌&&◌, List, arith,
}
use filesystem.Prelude.Int.{pos}
use filesystem.Prelude.Run.{
  data_full, Result, ok, err, Run, done, fail, diverge, pure, ◌>>=◌, attempt, Returns,
}

module _ {A : Type 0} (P : A → Vol → Type 0) (v : Vol) where
  -- The branches of the walk, where it is asked to create the block.
  on_create :
      (b : Bool) (m k : Op A)
      → Returns P (k v)
      → Returns P ((elim (b && false) as (λ _. Op A) [ true ↦ m | false ↦ k ]) v)
  on_create true m k h = h
  on_create false m k h = h

  pub if_missing :
      (b : Bool) (m k : Op A)
      → (b ≡ false → Returns P (k v))
      → (b ≡ true → Returns P (m v))
      → Returns P ((elim (b && true) as (λ _. Op A) [ false ↦ k | true ↦ m ]) v)
  if_missing true m k hk hm = hm refl
  if_missing false m k hk hm = hk refl

-- What the walk of get_nth_datablock leaves; the caller's inode stays.
abbrev pub Walked :
    (n : ℕ) (sb : Superblock) (d : Disk) (ps : List ℕ) (levels p offset : ℕ) (outside : ℕ → ℕ)
    (m : Inode)
    → Nth
    → Vol
    → Type 0
Walked n sb d ps levels p offset outside m q v' =
    (q.inode ≡ m) × Grew n sb d ps levels p offset outside q.block v'

-- Nothing was done, with DATA_FULL or at the block itself.
pub Grew-same :
    {v : Vol} {sb : Superblock} {d : Disk} {n : ℕ} {ps : List ℕ} (r : Ready v sb d n)
    → IsFreeList sb.data_size (view sb d) sb.free_list_head ps
    → (levels p offset : ℕ) (outside : ℕ → ℕ) (q : Result ℕ)
    → ((q ≡ err data_full) × (sb.free_list_head ≡ invalid_data))
      ⊎ ((q ≡ ok (lookup (view sb d) levels p offset)) × (lookup (view sb d) levels p offset ≢ 0))
    → Grew n sb d ps levels p offset outside q v
Grew-same {sb} {d} {ps} r l levels p offset outside q e = record {
  sb' = sb;
  d' = d;
  ps' = ps;
  ready = r;
  same_size = refl;
  free_list = l;
  conserved = λ a. refl;
  contents = λ o b. refl;
  frame = λ a h. refl;
  ended = e;
}

-- The state before, as one in which the tree under an entry grows.
Above-same :
    (sb : Superblock) (d : Disk) (ps : List ℕ) (i p offset : ℕ) (outside : ℕ → ℕ)
    → p ≢ 0
    → AllBelow addresses_per_block (indices (suc i) offset)
    → Above sb d ps i p offset outside sb d ps (address (view sb d p) (entry_at i offset))
Above-same sb d ps i p offset outside ne below = record {
  nonzero = ne;
  below = below;
  size_kept = refl;
  named = refl;
  kept = λ k l other. refl;
  untouched = λ a h. refl;
  counts = λ a. refl;
  held = λ o l. refl;
}

Budget-entry :
    (f : ℕ → Block) (size : ℕ) (ps : List ℕ) (i p j : ℕ) (outside : ℕ → ℕ)
    → p ≢ 0
    → j < addresses_per_block
    → Budget f size ps (suc i) p outside
    → Budget f size ps i (address (f p) j) (outside_of f i p j outside)
Budget-entry f size ps i p j outside ne l b a = omega (arith, b a, tree_count-split f i p j a ne l)

root-le :
    (f : ℕ → Block) (size : ℕ) (ps : List ℕ) (levels p : ℕ) (outside : ℕ → ℕ)
    → p ≢ 0
    → Budget f size ps levels p outside
    → p ≤ size
root-le f size ps levels p outside ne b = ground (arith, b p, tree_count-root f levels p ne)

Walked-Above :
    (n : ℕ) {sb : Superblock} {d : Disk} {ps : List ℕ} {i p offset : ℕ} {outside : ℕ → ℕ}
    {sb2 : Superblock} {d2 : Disk} {ps2 : List ℕ} {c : ℕ} (m : Inode) (run : Run Vol Nth)
    → Above sb d ps i p offset outside sb2 d2 ps2 c
    → Returns
        (Walked n sb2 d2 ps2 i c
          (rest_at i offset)
          (outside_of (view sb d) i p (entry_at i offset) outside)
          m)
        run
    → Returns (Walked n sb d ps (suc i) p offset outside m) run
Walked-Above n m (done q s) h w = (w.0, Grew-Above h w.1)
Walked-Above n m (fail e s) h w = absurd w
Walked-Above n m diverge h w = absurd w

-- What descend does with the new block, or without one.
abbrev link_new : (m : Inode) (created : Bool) (i p offset : ℕ) (b : Block) → Result ℕ → Op Nth
link_new m created i p offset b a = elim a [
  | err e ↦ pure (record { inode = m; created = created; block = err e })
  | ok w ↦ do
    x ← attempt (data_write (pos p) (set_address b (entry_at i offset) w))
    elim x [
      | err e ↦ pure (record { inode = m; created = created; block = err e })
      | ok _ ↦
          descend true m true i (address (set_address b (entry_at i offset) w) (entry_at i offset))
            (rest_at i offset)
    ]
]

pub descend-Walked :
    (levels p offset : ℕ) (outside : ℕ → ℕ) (m : Inode) (created : Bool) {v : Vol} {sb : Superblock}
    {d : Disk} {n : ℕ} {ps : List ℕ} (r : Ready v sb d n)
    → IsFreeList sb.data_size (view sb d) sb.free_list_head ps
    → p ≢ 0
    → AllBelow addresses_per_block (indices levels offset)
    → Budget (view sb d) sb.data_size ps levels p outside
    → Returns
        (Walked n sb d ps levels p offset outside m)
        (descend true m created levels p offset v)
unfolding descend indices
descend-Walked zero p offset outside m created r l ne below b =
    (refl, Grew-same r l zero p offset outside (ok p) (inr (refl, ne)))
descend-Walked (suc i) p offset outside m created {v} {sb} {d} {n} {ps} r l ne below b =
    let f : ℕ → Block = view sb d in
    let j : ℕ = entry_at i offset in
    let goal = Walked n sb d ps (suc i) p offset outside m in
    on_create goal v (p == 0) _ _ (
      rw (data_read-done r p (root-le f sb.data_size ps (suc i) p outside ne b)) (
        if_missing goal v (address (f p) j == 0) _ _
          (λ e. Walked-Above n m _ (Above-same sb d ps i p offset outside ne below) (
            descend-Walked i (address (f p) j) (rest_at i offset) (outside_of f i p j outside) m
              created r l (ground (arith, e)) below.1
              (Budget-entry f sb.data_size ps i p j outside ne below.0 b)))
          (λ e.
            alloc_then goal (link_new m created i p offset (f p)) (data_allocate-Allocation r l)
              (λ full.
                (refl, Grew-same r l (suc i) p offset outside (err data_full) (inl (refl, full))))
              (λ w v1 t.
                let room : Empty sb d ps i p offset outside = record {
                  root_nonzero = ne;
                  path_below = below;
                  budget = b;
                  no_entry = ground (arith, e);
                  size_fits = omega (arith, r.geometry);
                } in
                rw
                  (data_write-done t.ready p (linked room t) (root_valid room t).0
                    (omega (arith, root_valid room t, t.same_size)))
                  (rw (new_entry room t) (
                    Walked-Above n m _ (Above-new room t) (
                      descend-Walked i w (rest_at i offset) (outside_of f i p j outside) m true
                        (Ready-with_disk t.ready (linked_disk room t)) (free_linked room t)
                        (omega (arith, new_valid room t)) below.1 (Budget-new room t))))))))

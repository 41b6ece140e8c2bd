-- ===== src/Layer2/Contents/NewBlock.antt =====
-- get_nth_datablock with `create` on a volume in use.
use mathlib.Core.Path.{subst}
use filesystem.Bytes.{Block, zero_block}
use filesystem.Layer0.{Superblock, Disk, Vol, Op}
use filesystem.Layer1.Data.View.{view}
use filesystem.Layer1.FreeList.Allocate.{Took}
use filesystem.Layer1.FreeList.Chain.{free_blocks, valid_once, IsFreeList}
use filesystem.Layer1.Inode.{Inode, num_direct}
use filesystem.Layer1.Ready.{Ready}
use filesystem.Layer2.BlockMap.{
  Root, direct, single, double, triple, triple_limit, get_root, set_root, Nth, descend,
  get_nth_datablock,
}
use filesystem.Layer2.Contents.{levels_of}
use filesystem.Layer2.Contents.Allocation.{data_allocate-Allocation, alloc_then}
use filesystem.Layer2.Contents.Create.{if_missing, Walked, Grew-same, descend-Walked}
use filesystem.Layer2.Contents.Extend.{At, At-below, FileGrew, Rooted, FileGrew-Rooted}
use filesystem.Layer2.Contents.Fresh.{Budget}
use filesystem.Layer2.Contents.Grow.{Grew}
use filesystem.Layer2.Contents.Nth.{lookup-zero}
use filesystem.Layer2.Contents.Roots.{
  num_roots, root_of, length-set, get_root-set_root, SameFields, file_count, other_roots,
  file_count-split,
}
use filesystem.Layer2.Contents.Tree.{tree_count-zero, tree_count-fresh, contents-fresh}
use filesystem.Prelude.{
  ◌==◌, length, count, ℕ, ◌+◌, ◌≤◌, ◌<◌, ◌≡◌, refl, sym, ap, ◌∙◌, ◌≢◌, inl, true, false, List,
  arith,
}
use filesystem.Prelude.Run.{data_full, Result, ok, err, Run, done, fail, diverge, pure, Returns}

-- No block is free, in the file or in use elsewhere more than once, and all are data blocks.
abbrev pub FileBudget :
    (f : ℕ → Block) (size : ℕ) (ps : List ℕ) (m : Inode) (outside : ℕ → ℕ) → Type 0
FileBudget f size ps m outside =
    (a : ℕ) → count a (free_blocks f ps) + file_count f m a + outside a ≤ valid_once size a

pub set_root-SameFields : (root : Root) (m : Inode) (w : ℕ) → SameFields m (set_root root m w)
unfolding set_root
set_root-SameFields (direct i) m w = (refl, length-set m.direct_blocks i w)
set_root-SameFields single m w = (refl, refl)
set_root-SameFields double m w = (refl, refl)
set_root-SameFields triple m w = (refl, refl)

Rooted-same :
    (sb : Superblock) (d : Disk) (ps : List ℕ) (m : Inode) (j : ℕ) (outside : ℕ → ℕ)
    → j < num_roots
    → Rooted sb d ps m j outside sb d ps m
Rooted-same sb d ps m j outside h = record {
  field_fits = h;
  size_kept = refl;
  fields_kept = (refl, refl);
  roots_kept = λ c l other. refl;
  untouched = λ a l. refl;
  counts = λ a. refl;
  held = λ o l. refl;
}

-- The uses of a block outside of one field of the file.
abbrev pub beside : (f : ℕ → Block) (m : Inode) (j : ℕ) (outside : ℕ → ℕ) → ℕ → ℕ
beside f m j outside a = outside a + other_roots f m j a

pub Budget-root :
    (f : ℕ → Block) (size : ℕ) (ps : List ℕ) (m : Inode) (j : ℕ) (outside : ℕ → ℕ)
    → j < num_roots
    → FileBudget f size ps m outside
    → Budget f size ps (levels_of (root_of j)) (get_root (root_of j) m) (beside f m j outside)
Budget-root f size ps m j outside h b a = omega (arith, b a, file_count-split f m j a h)

-- A field of a file that is 0, and gets a new block.
record NoRoot (sb : Superblock) (d : Disk) (ps : List ℕ) (m : Inode) (j : ℕ) (outside : ℕ → ℕ)
    : Type 0 where
  field_below : j < num_roots
  directs : length m.direct_blocks ≡ num_direct
  budget : FileBudget (view sb d) sb.data_size ps m outside
  no_root : get_root (root_of j) m ≡ 0

module _ {sb : Superblock} {d : Disk} {n : ℕ} {ps : List ℕ} {m : Inode} {j : ℕ} {outside : ℕ → ℕ}
    (e : NoRoot sb d ps m j outside) {w : ℕ} {v1 : Vol} (t : Took n sb d ps zero_block w v1) where
  free_before :
      (a : ℕ)
      → count a (free_blocks (view sb d) ps) + other_roots (view sb d) m j a + outside a
        ≤ valid_once sb.data_size a
  free_before a = omega (arith, e.budget a, file_count-split (view sb d) m j a e.field_below)

  root_nonzero : w ≢ 0
  root_nonzero = ground (arith, free_before w, t.effect.taken w)

  new_root : get_root (root_of j) (set_root (root_of j) m w) ≡ w
  new_root = get_root-set_root m j j w e.directs e.field_below e.field_below ∙ ground arith

  Rooted-new : Rooted sb d ps m j outside t.sb' t.d' t.ps' (set_root (root_of j) m w)
  Rooted-new = record {
    field_fits = e.field_below;
    size_kept = t.same_size;
    fields_kept = set_root-SameFields (root_of j) m w;
    roots_kept = λ c l other. get_root-set_root m c j w e.directs l e.field_below ∙ ground arith;
    untouched = λ a l. t.effect.others a (ground (arith, l, free_before a));
    counts = λ a.
        rw (new_root, e.no_root)
          (omega (
            arith,
            t.effect.taken a,
            tree_count-fresh (view t.sb' t.d') w root_nonzero t.effect.holds (levels_of (root_of j))
                a,
            tree_count-zero (view sb d) (levels_of (root_of j)) a,
          ));
    held = λ o l.
        rw (new_root, e.no_root)
          (contents-fresh (view t.sb' t.d') w root_nonzero t.effect.holds (levels_of (root_of j)) o
              refl
            ∙ sym (ap (view sb d) (lookup-zero (view sb d) (levels_of (root_of j)) o refl)));
  }

  Budget-first :
      Budget
        (view t.sb' t.d')
        t.sb'.data_size
        t.ps'
        (levels_of (root_of j))
        w
        (beside (view sb d) m j outside)
  Budget-first a = rw (t.same_size) (
      omega (
        arith,
        free_before a,
        t.effect.taken a,
        tree_count-fresh (view t.sb' t.d') w root_nonzero t.effect.holds (levels_of (root_of j)) a,
      ))

-- What get_nth_datablock does with the new block of a field, or without one.
abbrev start_new : (m : Inode) (root : Root) (levels offset : ℕ) → Result ℕ → Op Nth
start_new m root levels offset a = elim a [
  | err e ↦ pure (record { inode = m; created = false; block = err e })
  | ok w ↦ descend true (set_root root m w) true levels w offset
]

module _ (n : ℕ) {sb : Superblock} {d : Disk} {ps : List ℕ} {m : Inode} {k : ℕ} (at : At k)
    {outside : ℕ → ℕ} {sb2 : Superblock} {d2 : Disk} {ps2 : List ℕ} {m2 : Inode} where
  -- From the walk under the field to the file.
  FileGrew-Walked :
      (p : ℕ) (run : Run Vol Nth)
      → Rooted sb d ps m at.code outside sb2 d2 ps2 m2
      → get_root (root_of at.code) m2 ≡ p
      → Returns
          (Walked n sb2 d2 ps2
            (levels_of (root_of at.code))
            p
            at.offset
            (beside (view sb d) m at.code outside)
            m2)
          run
      → Returns (FileGrew n sb d ps m k outside) run
  FileGrew-Walked p (done q v') h e w =
      FileGrew-Rooted at h
        (subst
          (λ (x : ℕ).
            Grew n sb2 d2 ps2 (levels_of (root_of at.code)) x at.offset
              (beside (view sb d) m at.code outside) q.block v')
          (sym e) w.1)
        q w.0 refl
  FileGrew-Walked p (fail e v') h e' w = absurd w
  FileGrew-Walked p diverge h e w = absurd w

module _ {v : Vol} {sb : Superblock} {d : Disk} {n : ℕ} {ps : List ℕ} (r : Ready v sb d n)
    (m : Inode) (outside : ℕ → ℕ) (l : IsFreeList sb.data_size (view sb d) sb.free_list_head ps)
    (directs : length m.direct_blocks ≡ num_direct)
    (b : FileBudget (view sb d) sb.data_size ps m outside) where
  get_nth-created :
      (k : ℕ) (at : At k) → Returns (FileGrew n sb d ps m k outside) (get_nth_datablock m k true v)
  unfolding get_nth_datablock
  get_nth-created k at =
      let root : Root = root_of at.code in
      let goal = FileGrew n sb d ps m k outside in
      let same = Rooted-same sb d ps m at.code outside at.code_fits in
      rw (get_nth_datablock, at.located)
        (if_missing goal v (get_root root m == 0) _ _
          (λ e. FileGrew-Walked n at (get_root root m) _ same refl (
            descend-Walked (levels_of root) (get_root root m) at.offset
              (beside (view sb d) m at.code outside) m false r l (ground (arith, e))
              at.within_blocks
              (Budget-root (view sb d) sb.data_size ps m at.code outside at.code_fits b)))
          (λ e.
            alloc_then goal (start_new m root (levels_of root) at.offset)
              (data_allocate-Allocation r l)
              (λ full.
                FileGrew-Rooted at same
                  (Grew-same r l (levels_of root) (get_root root m) at.offset
                    (beside (view sb d) m at.code outside) (err data_full) (inl (refl, full)))
                  _ refl refl)
              (λ w v1 t.
                let room : NoRoot sb d ps m at.code outside = record {
                  field_below = at.code_fits;
                  directs = directs;
                  budget = b;
                  no_root = ground (arith, e);
                } in
                FileGrew-Walked n at w _ (Rooted-new room t) (new_root room t) (
                  descend-Walked (levels_of root) w at.offset (beside (view sb d) m at.code outside)
                    (set_root root m w) true t.ready (rw t.same_size t.effect.free_list)
                    (root_nonzero room t) at.within_blocks (Budget-first room t)))))

  -- On a volume in use with a free list, and an inode of which no block is free, twice in the file or in
  -- use elsewhere, get_nth_datablock with `create` terminates for every block number that a file can
  -- have. Either it gives a block that the block number now leads to, or it reports DATA_FULL and
  -- no block is free. The free blocks and those of the file together are the same as before, each as
  -- often, every block of the file holds what it held (zeros where it had none), and every block in use
  -- elsewhere stays.
  pub get_nth_datablock-FileGrew :
      (k : ℕ)
      → k < triple_limit
      → Returns (FileGrew n sb d ps m k outside) (get_nth_datablock m k true v)
  get_nth_datablock-FileGrew k h = get_nth-created k (At-below k h)

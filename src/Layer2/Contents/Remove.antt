-- ===== src/Layer2/Contents/Remove.antt =====
-- rm_nth_datablock on a volume in use.
use filesystem.Layer0.{Superblock, Disk, Vol, Op}
use filesystem.Layer1.Data.View.{view}
use filesystem.Layer1.FreeList.{data_free}
use filesystem.Layer1.FreeList.Chain.{IsFreeList}
use filesystem.Layer1.FreeList.Give.{data_free-Gave}
use filesystem.Layer1.Inode.{Inode, num_direct}
use filesystem.Layer1.Ready.{Ready}
use filesystem.Layer2.BlockMap.{
  Root, triple_limit, get_root, set_root, walk_down, free_up, rm_nth_datablock,
}
use filesystem.Layer2.Contents.{levels_of}
use filesystem.Layer2.Contents.Cut.{cut, go_on, walk_down-cut}
use filesystem.Layer2.Contents.CutAll.{cut-Shrank}
use filesystem.Layer2.Contents.CutRoot.{CutRoot, Removed, Removed-CutRoot}
use filesystem.Layer2.Contents.Extend.{At, At-below}
use filesystem.Layer2.Contents.FieldCut.{CutRoot-kept, root_place, CutRoot-freed}
use filesystem.Layer2.Contents.NewBlock.{FileBudget, beside, Budget-root}
use filesystem.Layer2.Contents.Roots.{root_of}
use filesystem.Layer2.Contents.Shrink.{Shrank}
use filesystem.Layer2.Contents.Valid.{root-IsTree}
use filesystem.Prelude.{
  ◌==◌, Bool-cases, length, ℕ, ◌<◌, ◌≡◌, refl, ◌∙◌, ◌≢◌, inl, inr, Bool, true, false, ◌&&◌, not,
  List, [], arith,
}
use filesystem.Prelude.Int.{pos}
use filesystem.Prelude.Run.{
  Run, done, fail, diverge, pure, and_then, ◌>>=◌, ◌>>◌, Returns, Returns-done,
}

-- The last steps of rm_nth_datablock, at a field of the inode.
abbrev clear_field : Root → Inode → Bool → Op Inode
clear_field root m emptied = elim (emptied && not (get_root root m == 0)) [
  | true ↦ do data_free (pos (get_root root m)); pure (set_root root m 0)
  | false ↦ pure m
]

-- One call after another, in two ways to put the parentheses.
and_then_assoc :
    {A B C : Type 0} (run : Run Vol A) (f : A → Op B) (h : B → Op C)
    → and_then run (λ a. f a >>= h) ≡ and_then (and_then run f) h
and_then_assoc (done a v) f h = refl
and_then_assoc (fail e v) f h = refl
and_then_assoc diverge f h = refl

go_on-empty : (run : Run Vol Bool) → and_then run (go_on []) ≡ run
unfolding free_up
go_on-empty (done true v) = refl
go_on-empty (done false v) = refl
go_on-empty (fail e v) = refl
go_on-empty diverge = refl

module _ {v : Vol} {sb : Superblock} {d : Disk} {n : ℕ} {ps : List ℕ} (r : Ready v sb d n)
    (m : Inode) (outside : ℕ → ℕ) (l : IsFreeList sb.data_size (view sb d) sb.free_list_head ps)
    (directs : length m.direct_blocks ≡ num_direct)
    (b : FileBudget (view sb d) sb.data_size ps m outside) where
  field_cleared :
      {k : ℕ} (at : At k) (emptied : Bool) {v1 : Vol}
      → Shrank n sb d ps
          (levels_of (root_of at.code))
          (get_root (root_of at.code) m)
          at.offset
          (beside (view sb d) m at.code outside)
          emptied
          v1
      → Returns (CutRoot n sb d ps m at outside) (clear_field (root_of at.code) m emptied v1)
  field_cleared at false g = CutRoot-kept m at outside g (λ e. absurd (cc (g.leaf e)))
  field_cleared at true {v1} g = elim (Bool-cases (get_root (root_of at.code) m == 0)) [
    | inl e ↦ rw (clear_field, e) (CutRoot-kept m at outside g (λ _. ground (arith, e)))
    | inr e ↦
        let named : get_root (root_of at.code) m ≢ 0 = ground (arith, e) in
        let place = root_place m at outside g b refl named in
        let (_, v2, run, q) = Returns-done (data_free (pos (get_root (root_of at.code) m)) v1) (
          data_free-Gave (get_root (root_of at.code) m) g.ready g.free_list (omega (arith, named))
            (omega (arith, place.0, g.same_size)) place.1) in
        rw (clear_field, e, run) (CutRoot-freed m at outside g b refl named directs q)
  ]

  -- The loops down the tree and up again.
  walked :
      {k : ℕ} (at : At k)
      → (walk_down (levels_of (root_of at.code)) (get_root (root_of at.code) m) at.offset []
            >>= free_up)
          v
        ≡ cut (levels_of (root_of at.code)) (get_root (root_of at.code) m) at.offset v
  walked at =
      walk_down-cut r (levels_of (root_of at.code)) (get_root (root_of at.code) m) at.offset []
        (root-IsTree (view sb d) sb.data_size ps m outside refl b at.code at.code_fits)
        at.within_blocks
      ∙ go_on-empty _

  removed : {k : ℕ} (at : At k) → Returns (CutRoot n sb d ps m at outside) (rm_nth_datablock m k v)
  unfolding rm_nth_datablock
  removed at =
      let root : Root = root_of at.code in
      let (emptied, v1, run, g) =
        Returns-done (cut (levels_of root) (get_root root m) at.offset v) (
          cut-Shrank (levels_of root) (get_root root m) at.offset
            (beside (view sb d) m at.code outside) r l at.within_blocks
            (Budget-root (view sb d) sb.data_size ps m at.code outside at.code_fits b)) in
      rw (rm_nth_datablock, at.located)
        (rw
          (
            and_then_assoc (walk_down (levels_of root) (get_root root m) at.offset [] v) free_up
                (clear_field root m),
            walked at,
            run,
          )
          (field_cleared at emptied g))

  -- On a volume in use with a free list, and an inode with ten direct pointers of which no block is
  -- free, twice in the file or in use elsewhere, rm_nth_datablock succeeds for every block number that a
  -- file can have. The block number then leads to no block, so that it reads as zeros, and the block that
  -- it led to, if any, is free. Every other block of the file holds what it held, every block in use
  -- elsewhere stays, the other fields of the inode stay, and the free blocks and those of the file
  -- together are the same as before, each as often.
  pub rm_nth_datablock-Removed :
      (k : ℕ) → k < triple_limit → Returns (Removed n sb d ps m k outside) (rm_nth_datablock m k v)
  rm_nth_datablock-Removed k h =
      let at : At k = At-below k h in
      let (m', v', run, g) = Returns-done (rm_nth_datablock m k v) (removed at) in
      rw run (Removed-CutRoot at g b)

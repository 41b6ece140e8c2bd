-- ===== src/Layer2/Contents/ClearEntry.antt =====
-- rm_nth_datablock frees the block that an entry names, and clears the entry.
use filesystem.Bytes.{Block, zero_block}
use filesystem.Layer0.{Superblock, Disk, Vol}
use filesystem.Layer1.Data.View.{view, upd, write_data, data_write-done, view-write_data}
use filesystem.Layer1.FreeList.{data_free}
use filesystem.Layer1.FreeList.Chain.{free_blocks, IsFreeList, IsChain-upd, free_blocks-upd}
use filesystem.Layer1.FreeList.Give.{Gave, data_free-Gave}
use filesystem.Layer1.Ready.{Ready, with_disk, Ready-with_disk}
use filesystem.Layer2.BlockMap.{addresses_per_block, address, set_address, clear_entry}
use filesystem.Layer2.BlockMap.Locate.{indices, AllBelow}
use filesystem.Layer2.Contents.{lookup}
use filesystem.Layer2.Contents.Fresh.{address-set_address}
use filesystem.Layer2.Contents.Grow.{outside_of, entry_at, rest_at}
use filesystem.Layer2.Contents.Inner.{Inner, child, uses_before, apart}
use filesystem.Layer2.Contents.Join.{others}
use filesystem.Layer2.Contents.Shrink.{Shrank, Cleared}
use filesystem.Layer2.Contents.Tree.{tree_count, tree_count-zero, tree_count-leaf, tree_count-root}
use filesystem.Prelude.{
  ◌==◌, if◌then◌else◌, Bool-cases, eq_or_ne, count, ℕ, ◌+◌, ◌≤◌, ◌<◌, ◌≡◌, refl, sym, ap, ◌∙◌, ◌≢◌,
  inl, inr, true, List, arith,
}
use filesystem.Prelude.Int.{pos}
use filesystem.Prelude.Run.{Returns, Returns-done}

-- What clear_entry leaves when the tree under the entry was cut before.
pub record ClearedEntry (n : ℕ) (sb : Superblock) (d : Disk) (ps : List ℕ) (i p offset : ℕ)
    (outside : ℕ → ℕ) (b : Block) (v2 : Vol) : Type 0 where
  pub sb2 : Superblock
  pub d2 : Disk
  pub ps2 : List ℕ
  pub ready : Ready v2 sb2 d2 n
  pub same_size : sb2.data_size ≡ sb.data_size
  pub free_list : IsFreeList sb2.data_size (view sb2 d2) sb2.free_list_head ps2
  pub cleared : Cleared sb d ps i p offset outside sb2 d2 ps2
  pub block_now : view sb2 d2 p ≡ b

module _ {sb : Superblock} {d : Disk} {ps : List ℕ} {i p offset : ℕ} {outside : ℕ → ℕ}
    (t : Inner sb d ps i p offset outside) where
  module _ {n : ℕ} {v1 : Vol}
      (g : Shrank n sb d ps i
        (child t)
        (rest_at i offset)
        (outside_of (view sb d) i p (entry_at i offset) outside)
        true
        v1) where
    root_same : view g.sb' g.d' p ≡ view sb d p
    root_same = g.frame p (ground arith)

    untouched_child :
        (a : ℕ)
        → 0 < outside a + others (view sb d) i (view sb d p) (entry_at i offset) a
        → view g.sb' g.d' a ≡ view sb d a
    untouched_child a h = g.frame a (omega (arith, h))

    nothing_else :
        i ≢ 0
        → (o : ℕ) → AllBelow addresses_per_block (indices i o)
        → o ≢ rest_at i offset
        → view sb d (lookup (view sb d) i (child t) o) ≡ zero_block
    nothing_else inner o b ne = sym (g.others_same o b ne) ∙ g.no_contents refl inner o b

    -- The entry is 0 already.
    ClearedEntry-none : (child t) ≡ 0 → ClearedEntry n sb d ps i p offset outside (view sb d p) v1
    ClearedEntry-none e = record {
      sb2 = g.sb';
      d2 = g.d';
      ps2 = g.ps';
      ready = g.ready;
      same_size = g.same_size;
      free_list = g.free_list;
      cleared = record {
        nonzero = t.nonzero;
        below = t.below;
        entries_now = λ k. ap (λ (b : Block). address b k) root_same ∙ empty_entry k;
        untouched = untouched_child;
        counts = λ a. omega (
          arith,
          g.conserved a,
          ap (λ (x : ℕ). tree_count (view g.sb' g.d') i x a) e,
          tree_count-zero (view g.sb' g.d') i a,
        );
        apart = apart t;
        nothing_else = nothing_else;
      };
      block_now = root_same;
    }
      where
        empty_entry :
            (k : ℕ)
            → address (view sb d p) k
              ≡ (if k == entry_at i offset then 0 else address (view sb d p) k)
        empty_entry k = elim (eq_or_ne k (entry_at i offset)) [
          | inl same ↦ ground (arith, same, e, ap (address (view sb d p)) same)
          | inr ne ↦ ground arith
        ]

    module _ (named : (child t) ≢ 0) where
      freed_child :
          (0 < (child t))
          × ((child t) ≤ sb.data_size)
          × (count (child t) (free_blocks (view g.sb' g.d') g.ps') ≡ 0)
          × ((child t) ≢ p)
      freed_child = ground (
        arith,
        uses_before t (child t),
        uses_before t p,
        g.conserved (child t),
        tree_count-root (view g.sb' g.d') i (child t) named,
        tree_count-root (view sb d) i (child t) named,
      )

      module _ {v2 : Vol} (q : Gave n g.sb' g.d' g.ps' (child t) v2) where
        abbrev new_root : Block
        new_root = set_address (view sb d p) (entry_at i offset) 0

        abbrev new_disk : Disk
        new_disk = write_data q.sb' q.d' p new_root

        root_place :
            (0 < p) × (p ≤ sb.data_size) × (count p (free_blocks (view q.sb' q.d') q.ps') ≡ 0)
        root_place = ground (arith, uses_before t p, g.conserved p, q.effect.given p, freed_child)

        view_new : view q.sb' new_disk ≡ upd (view q.sb' q.d') p new_root
        view_new = view-write_data q.ready p new_root root_place.0

        root_new : view q.sb' new_disk p ≡ new_root
        root_new = ap (λ (f : ℕ → Block). f p) view_new ∙ ground arith

        still_free : free_blocks (view q.sb' new_disk) q.ps' ≡ free_blocks (view q.sb' q.d') q.ps'
        still_free =
            ap (λ (f : ℕ → Block). free_blocks f q.ps') view_new
            ∙ free_blocks-upd (view q.sb' q.d') p new_root q.ps' root_place.2

        elsewhere :
            (a : ℕ)
            → 0 < outside a + others (view sb d) i (view sb d p) (entry_at i offset) a
            → view q.sb' new_disk a ≡ view sb d a
        elsewhere a h =
            ap (λ (f : ℕ → Block). f a) view_new
            ∙ ground (
              arith,
              uses_before t a,
              g.conserved a,
              tree_count-root (view g.sb' g.d') i (child t) named,
              q.effect.others a,
              untouched_child a h,
            )

        ClearedEntry-freed :
            ClearedEntry n sb d ps i p offset outside new_root (with_disk v2 new_disk)
        ClearedEntry-freed = record {
          sb2 = q.sb';
          d2 = new_disk;
          ps2 = q.ps';
          ready = Ready-with_disk q.ready new_disk;
          same_size = q.same_size ∙ g.same_size;
          free_list = record {
            chain = rw view_new (
                IsChain-upd (view q.sb' q.d') p new_root q.sb'.free_list_head q.ps' root_place.2
                  q.effect.free_list.chain);
            once = λ a. rw (still_free, q.same_size) (q.effect.free_list.once a);
          };
          cleared = record {
            nonzero = t.nonzero;
            below = t.below;
            entries_now = λ k.
                ap (λ (b : Block). address b k) root_new
                ∙ address-set_address (view sb d p) (entry_at i offset) 0 k (omega arith);
            untouched = elsewhere;
            counts = λ a. rw still_free (
                omega (
                  arith,
                  q.effect.given a,
                  g.conserved a,
                  g.only_root refl a,
                  tree_count-leaf (view g.sb' g.d') (child t) a named,
                ));
            apart = apart t;
            nothing_else = nothing_else;
          };
          block_now = root_new;
        }

    -- clear_entry at the entry.
    pub clear_entry-ClearedEntry :
        Returns (ClearedEntry n sb d ps i p offset outside) (
          clear_entry
            (record { block_addr = p; block = view sb d p; index = entry_at i offset })
            v1)
    unfolding clear_entry
    clear_entry-ClearedEntry = elim (Bool-cases ((child t) == 0)) [
      | inl e ↦ rw e (ClearedEntry-none (ground (arith, e)))
      | inr e ↦
          let named : (child t) ≢ 0 = ground (arith, e) in
          let f = freed_child named in
          let (_, v2, run, q) = Returns-done (data_free (pos (child t)) v1) (
            data_free-Gave (child t) g.ready g.free_list f.0 (omega (arith, f.1, g.same_size))
              f.2) in
          rw e (
            rw run (
              rw
                (data_write-done q.ready p (new_root named q) (root_place named q).0
                  (omega (arith, root_place named q, g.same_size, q.same_size)))
                (ClearedEntry-freed named q)))
    ]

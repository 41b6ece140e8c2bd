-- ===== src/Layer1/FreeList/Give.antt =====
-- data_free on a volume in use: the walk over the nodes, and what the call leaves.
use filesystem.Bytes.{set_words}
use filesystem.Layer0.{Superblock, Disk, Vol, write_disk}
use filesystem.Layer1.Data.View.{
  view, upd, write_data, data_write-done, view-write_data, view-superblock,
}
use filesystem.Layer1.FreeList.{
  addr_per_node, invalid_data, addr, set_addr, put_in_node, new_head, data_free,
}
use filesystem.Layer1.FreeList.Chain.{free_blocks, valid_once, IsFreeList, head-le}
use filesystem.Layer1.FreeList.Free.{Given, head_node, filled_Given, head_Given}
use filesystem.Layer1.FreeList.Length.{length-le, count-nodes}
use filesystem.Layer1.FreeList.Walk.{
  data_free_lem, filled_disk, Walk, placed, ended, put_in_node-Walk,
}
use filesystem.Layer1.Ready.{
  Ready, with_disk, with_superblock, Ready-with_disk, write_superblock-done, Ready-with_superblock,
}
use filesystem.Layer1.Super.{superblock_words}
use filesystem.Prelude.{count, ℕ, ◌+◌, ◌≤◌, ◌<◌, ◌≡◌, refl, ◌∙◌, true, false, List, ◌∷◌, arith}
use filesystem.Prelude.Int.{pos}
use filesystem.Prelude.Run.{done, Returns}

-- What a run of data_free of the block `b` leaves.
pub record Gave (n : ℕ) (sb : Superblock) (d : Disk) (ps : List ℕ) (b : ℕ) (v' : Vol) : Type 0 where
  pub sb' : Superblock
  pub d' : Disk
  pub ps' : List ℕ
  pub ready : Ready v' sb' d' n
  pub same_size : sb'.data_size ≡ sb.data_size
  pub effect : Given sb.data_size (view sb d) ps b (view sb' d') sb'.free_list_head ps'

module _ {v : Vol} {sb : Superblock} {d : Disk} {n : ℕ} (r : Ready v sb d n) (b : ℕ) where
  module _ {ps : List ℕ} (l : IsFreeList sb.data_size (view sb d) sb.free_list_head ps)
      (positive : 0 < b) (valid : b ≤ sb.data_size)
      (fresh : count b (free_blocks (view sb d) ps) ≡ 0) where
    Walk-end : Walk r b ps (put_in_node (sb.data_size + 1) sb.free_list_head v.junk b v)
    Walk-end =
        let once : (a : ℕ) → count a ps ≤ valid_once sb.data_size a =
          λ a. omega (arith, l.once a, count-nodes (view sb d) ps a) in
        put_in_node-Walk r b (sb.data_size + 1) sb.free_list_head ps v.junk l.chain once
          (omega (arith, length-le sb.data_size ps once))

    -- A node took the block.
    give_placed :
        (q i : ℕ)
        → 0 < count q ps
        → i < addr_per_node
        → addr (view sb d q) i ≡ invalid_data
        → put_in_node (sb.data_size + 1) sb.free_list_head v.junk b v
          ≡ done true (with_disk v (filled_disk r b q i))
        → Returns (λ _. Gave n sb d ps b) (data_free (pos b) v)
    give_placed q i node inside empty e =
        let effect =
          filled_Given l b positive valid fresh q i (omega (arith, r.geometry)) node inside empty in
        let same =
          view-write_data r q (set_addr (view sb d q) i b)
            (ground (arith, l.once q, count-nodes (view sb d) ps q)) in
        rw (data_free_lem r b positive valid, e)
          (record {
            sb' = sb;
            d' = filled_disk r b q i;
            ps' = ps;
            ready = Ready-with_disk r (filled_disk r b q i);
            same_size = refl;
            effect = rw same effect;
          })

    -- The block became the new head.
    head_disk : Disk
    head_disk = write_data sb d b (head_node sb.free_list_head)

    new_sb : Superblock
    new_sb = record sb { free_list_head = b }

    new_disk : Disk
    unfolding head_disk new_sb
    new_disk = write_disk head_disk 0 (set_words v.junk 0 (superblock_words new_sb))

    new_head_run :
        new_head sb b v ≡ done tt (with_superblock (with_disk v head_disk) head_disk new_sb)
    unfolding new_head head_disk new_sb
    new_head_run = ground (
      arith,
      data_write-done r b (head_node sb.free_list_head),
      write_superblock-done (Ready-with_disk r head_disk) new_sb,
      r.geometry,
    )

    new_view : view new_sb new_disk ≡ upd (view sb d) b (head_node sb.free_list_head)
    unfolding new_disk
    new_view =
        view-superblock (Ready-with_disk r head_disk) new_sb
          (set_words v.junk 0 (superblock_words new_sb)) refl
        ∙ view-write_data r b (head_node sb.free_list_head) positive

    new_Ready : Ready (with_superblock (with_disk v head_disk) head_disk new_sb) new_sb new_disk n
    unfolding new_disk
    new_Ready =
        Ready-with_superblock (Ready-with_disk r head_disk) new_sb (ground (arith, r.geometry))

    give_head :
        put_in_node (sb.data_size + 1) sb.free_list_head v.junk b v ≡ done false v
        → Returns (λ _. Gave n sb d ps b) (data_free (pos b) v)
    unfolding new_sb
    give_head e =
        let effect =
          head_Given l b positive valid fresh (omega (arith, head-le ps l, r.geometry)) in
        rw (data_free_lem r b positive valid, e, new_head_run)
          (record {
            sb' = new_sb;
            d' = new_disk;
            ps' = b ∷ ps;
            ready = new_Ready;
            same_size = refl;
            effect = rw new_view effect;
          })

-- On a volume in use with a free list, data_free ends and puts a valid block that is not in the list
-- into it. The other blocks of the list stay in it, no other block outside the list changes, and the
-- list is again one of distinct data blocks.
pub data_free-Gave :
    {v : Vol} {sb : Superblock} {d : Disk} {n : ℕ} {ps : List ℕ} (b : ℕ)
    → Ready v sb d n
    → IsFreeList sb.data_size (view sb d) sb.free_list_head ps
    → 0 < b
    → b ≤ sb.data_size
    → count b (free_blocks (view sb d) ps) ≡ 0
    → Returns (λ _. Gave n sb d ps b) (data_free (pos b) v)
data_free-Gave b r l positive valid fresh = elim (Walk-end r b l positive valid fresh) [
  | placed q i node inside empty e ↦ give_placed r b l positive valid fresh q i node inside empty e
  | ended e ↦ give_head r b l positive valid fresh e
]

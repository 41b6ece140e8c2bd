-- ===== src/Layer1/FreeList/Allocate.antt =====
-- data_allocate takes a block from the free list.
use filesystem.Bytes.{Block, set_words}
use filesystem.Layer0.{Superblock, Disk, Vol, write_disk}
use filesystem.Layer1.Data.{data_read}
use filesystem.Layer1.Data.View.{
  view, upd, write_data, data_read-done, data_write-done, view-write_data, view-superblock,
}
use filesystem.Layer1.FreeList.{
  addr_per_node, invalid_data, next_of, addr, set_addr, first_used, data_allocate,
}
use filesystem.Layer1.FreeList.Chain.{IsFreeList, count-free_blocks}
use filesystem.Layer1.FreeList.Entries.{entries, first_used-some, first_used-none}
use filesystem.Layer1.FreeList.Take.{
  after_entry, head_once, entry_once, count_entry, entry_IsFreeList, count_head, head_IsFreeList,
  Taken,
}
use filesystem.Layer1.Ready.{
  Ready, with_disk, with_superblock, Ready-with_disk, read_superblock-done, write_superblock-done,
  Ready-with_superblock,
}
use filesystem.Layer1.Super.{superblock_words}
use filesystem.Prelude.{
  Option-cases, ℕ, ◌<◌, ◌≡◌, refl, ap, ◌∙◌, ◌≢◌, inl, inr, none, some, List, [], ◌∷◌, arith,
}
use filesystem.Prelude.Int.{pos}
use filesystem.Prelude.Run.{data_full, done, fail, Returns}

-- What a run of data_allocate that gives the number `w` leaves.
pub record Took (n : ℕ) (sb : Superblock) (d : Disk) (ps : List ℕ) (new : Block) (w : ℕ) (v' : Vol)
    : Type 0 where
  pub sb' : Superblock
  pub d' : Disk
  pub ps' : List ℕ
  pub ready : Ready v' sb' d' n
  pub same_size : sb'.data_size ≡ sb.data_size
  pub effect : Taken sb.data_size (view sb d) ps new w (view sb' d') sb'.free_list_head ps'

module _ {v : Vol} {sb : Superblock} {d : Disk} {n : ℕ} (r : Ready v sb d n) {p : ℕ} {ps : List ℕ}
    (l : IsFreeList sb.data_size (view sb d) sb.free_list_head (p ∷ ps)) (new : Block) where
  read_head : data_read (pos sb.free_list_head) v ≡ done (view sb d p) v
  read_head = rw l.chain.0 (data_read-done r p (head_once l).0)

  -- From an entry of the head.
  module _ (j : ℕ) (e : first_used (view sb d p) 0 addr_per_node ≡ some j) where
    place : (j < addr_per_node) × (addr (view sb d p) j ≢ invalid_data)
    place = ground (arith, first_used-some (view sb d p) 0 addr_per_node {j = j} e)

    head_disk : Disk
    head_disk = write_data sb d p (set_addr (view sb d p) j invalid_data)

    entry_disk : Disk
    unfolding head_disk
    entry_disk = write_data sb head_disk (addr (view sb d p) j) new

    entry_run : data_allocate new v ≡ done (addr (view sb d p) j) (with_disk v entry_disk)
    unfolding data_allocate entry_disk
    entry_run = ground (
      arith,
      read_superblock-done r,
      l.chain,
      read_head,
      e,
      place,
      head_once l,
      entry_once l j place.0 place.1 new,
      data_write-done r p (set_addr (view sb d p) j invalid_data),
      data_write-done (Ready-with_disk r head_disk) (addr (view sb d p) j) new,
    )

    entry_view : view sb entry_disk ≡ after_entry (view sb d) p j new
    unfolding entry_disk
    entry_view =
        view-write_data (Ready-with_disk r head_disk) (addr (view sb d p) j) new
          (omega (arith, place))
        ∙ ap (λ (g : ℕ → Block). upd g (addr (view sb d p) j) new)
            (view-write_data r p (set_addr (view sb d p) j invalid_data) (head_once l).1)

    entry_Taken :
        Taken sb.data_size
          (view sb d)
          (p ∷ ps)
          new
          (addr (view sb d p) j)
          (after_entry (view sb d) p j new)
          sb.free_list_head
          (p ∷ ps)
    entry_Taken = record {
      free_list = entry_IsFreeList l j place.0 place.1 new;
      taken = count_entry l j place.0 place.1 new;
      holds = ground arith;
      others = λ q out.
          ground
            (arith, count-free_blocks (view sb d) p ps q, count_entry l j place.0 place.1 new q);
    }

    take_entry : Returns (Took n sb d (p ∷ ps) new) (data_allocate new v)
    take_entry = rw entry_run (record {
      sb' = sb;
      d' = entry_disk;
      ps' = p ∷ ps;
      ready = Ready-with_disk r entry_disk;
      same_size = refl;
      effect = rw entry_view entry_Taken;
    })

  -- The head itself, which holds no other block.
  module _ (e : first_used (view sb d p) 0 addr_per_node ≡ none) where
    next_sb : Superblock
    next_sb = record sb { free_list_head = next_of (view sb d p) }

    next_disk : Disk
    unfolding next_sb
    next_disk = write_disk d 0 (set_words v.junk 0 (superblock_words next_sb))

    next_Ready : Ready (with_superblock v d next_sb) next_sb next_disk n
    unfolding next_sb next_disk
    next_Ready = Ready-with_superblock r next_sb (ground (arith, r.geometry))

    head_run :
        data_allocate new v
        ≡ done p (with_disk (with_superblock v d next_sb) (write_data next_sb next_disk p new))
    unfolding data_allocate next_sb next_disk
    head_run = ground (
      arith,
      read_superblock-done r,
      l.chain,
      read_head,
      e,
      head_once l,
      r.geometry,
      write_superblock-done r next_sb,
      data_write-done next_Ready p new,
    )

    head_view : view next_sb (write_data next_sb next_disk p new) ≡ upd (view sb d) p new
    unfolding next_sb next_disk
    head_view =
        view-write_data next_Ready p new (head_once l).1
        ∙ ap (λ (g : ℕ → Block). upd g p new)
            (view-superblock r next_sb (set_words v.junk 0 (superblock_words next_sb)) refl)

    no_entries : entries (view sb d p) ≡ []
    no_entries = first_used-none (view sb d p) 0 addr_per_node e

    head_Taken :
        Taken sb.data_size
          (view sb d)
          (p ∷ ps)
          new
          p
          (upd (view sb d) p new)
          (next_of (view sb d p))
          ps
    head_Taken = record {
      free_list = head_IsFreeList l no_entries new;
      taken = count_head l no_entries new;
      holds = ground arith;
      others = λ q out. ground (arith, count-free_blocks (view sb d) p ps q);
    }

    take_head : Returns (Took n sb d (p ∷ ps) new) (data_allocate new v)
    unfolding next_sb
    take_head = rw head_run (record {
      sb' = next_sb;
      d' = write_data next_sb next_disk p new;
      ps' = ps;
      ready = Ready-with_disk next_Ready (write_data next_sb next_disk p new);
      same_size = refl;
      effect = rw head_view head_Taken;
    })

-- On a volume in use with a free list that is not empty, data_allocate gives a block of the list.
-- That block leaves the list, holds the new contents, and no block outside the list changes; the
-- list is again one of distinct data blocks.
pub data_allocate-Took :
    {v : Vol} {sb : Superblock} {d : Disk} {n : ℕ} {ps : List ℕ}
    → Ready v sb d n
    → IsFreeList sb.data_size (view sb d) sb.free_list_head ps
    → sb.free_list_head ≢ invalid_data
    → (new : Block) → Returns (Took n sb d ps new) (data_allocate new v)
data_allocate-Took {ps = []} r l some_head new = absurd (some_head l.chain)
data_allocate-Took {sb} {d} {ps = p ∷ ps} r l some_head new =
    elim (Option-cases (first_used (view sb d p) 0 addr_per_node)) [
      | inl e ↦ take_head r l new e
      | inr (j, e) ↦ take_entry r l new j e
    ]

-- With an empty list data_allocate reports DATA_FULL, and changes nothing.
pub data_allocate-full :
    {v : Vol} {sb : Superblock} {d : Disk} {n : ℕ}
    → Ready v sb d n
    → sb.free_list_head ≡ invalid_data
    → (new : Block) → data_allocate new v ≡ fail data_full v
unfolding data_allocate
data_allocate-full r e new = ground (arith, read_superblock-done r)

-- ===== src/Layer1/Bitmap/Create.antt =====
-- inode_create on a volume in use takes the first inode that is not in use.
use filesystem.Bytes.{Block, block_size, set_byte}
use filesystem.Layer0.{Superblock, Disk, Vol, Op, write_block}
use filesystem.Layer0.Blocks.{read_block-done, write_block-done}
use filesystem.Layer1.Bitmap.{
  bits_per_block, Search, found, over, miss, bit_mask, scan_bytes, create_from, inode_create,
}
use filesystem.Layer1.Bitmap.Bits.{bit_set, bit_set-bit_or}
use filesystem.Layer1.Bitmap.Marks.{
  bit_block, bit_byte, in_use, HasBytes, mark_disk, index_block, index_byte, index_bit,
  in_use-index, bit_block-lt, view-mark_disk, stored-mark_disk, in_use-mark_disk,
  HasBytes-mark_disk, view-stored_disk, in_use-stored_disk, byte-stored_disk,
}
use filesystem.Layer1.Bitmap.Scan.{
  AllUsed, AllUsed-join, Searched, Searched-before, scan_bytes-Searched,
}
use filesystem.Layer1.Data.View.{view}
use filesystem.Layer1.FreeList.Entries.{used}
use filesystem.Layer1.Inode.{Inode, inode_write}
use filesystem.Layer1.Inode.Roundtrip.{IsInode}
use filesystem.Layer1.Inode.Store.{stored, stored_disk, inode_write-done, stored-stored_disk}
use filesystem.Layer1.Ready.{Ready, with_disk, Ready-with_disk, read_superblock-done}
use filesystem.Prelude.{
  ◌==◌, if◌then◌else◌, ℕ, zero, suc, ◌+◌, ◌*◌, ◌%◌, ◌<◌, bit_or, ◌≡◌, refl, sym, ◌∙◌, Bool, true,
  false, ◌||◌, arith,
}
use filesystem.Prelude.Int.{pos}
use filesystem.Prelude.Run.{ilist_full, Run, done, fail, pure, throw, ◌>>◌, attempt}

or_if : (b c : Bool) → (b || c) ≡ (if b then true else c)
or_if true c = refl
or_if false c = refl

module _ {v : Vol} {sb : Superblock} {d : Disk} {n : ℕ} (r : Ready v sb d n) (new : Inode) where
  -- What inode_create leaves when it gives the number of the index `k`: the first inode that was free
  -- is in use and holds the new node, and every other inode, its mark and the data blocks stay.
  pub record Created (k : ℕ) (v' : Vol) : Type 0 where
    pub d' : Disk
    pub ready : Ready v' sb d' n
    pub in_range : k < sb.num_inodes
    pub was_free : in_use sb d k ≡ false
    pub first : AllUsed (in_use sb d) 0 k
    pub marked :
        (j : ℕ) → j < sb.num_inodes → in_use sb d' j ≡ (if k == j then true else in_use sb d j)
    pub still_bytes : HasBytes sb d'
    pub inodes : (j : ℕ) → stored sb d' j ≡ (if k == j then new else stored sb d j)
    pub data_blocks : view sb d' ≡ view sb d

  -- How inode_create ends: with a number, or with ILIST_FULL and no change when all inodes are in use.
  pub data CreateEnds (run : Run Vol ℕ) : Type 0 where
    made : (k : ℕ) (v' : Vol) → run ≡ done (suc k) v' → Created k v' → CreateEnds run
    none_left : run ≡ fail ilist_full v → AllUsed (in_use sb d) 0 sb.num_inodes → CreateEnds run

  module _ (im : IsInode new) (bytes : HasBytes sb d) where
    abbrev set_mark : ℕ → Disk
    set_mark k = mark_disk sb d k (bit_or (d (bit_block sb k) (bit_byte k)) (bit_mask (k % 8)))

    module _ (k : ℕ) (valid : k < sb.num_inodes) where
      new_byte :
          (i : ℕ)
          → i < 8
          → (bit_set (bit_or (d (bit_block sb k) (bit_byte k)) (bit_mask (k % 8))) i
              ≡ (k % 8 == i || bit_set (d (bit_block sb k) (bit_byte k)) i))
            × (bit_or (d (bit_block sb k) (bit_byte k)) (bit_mask (k % 8)) < 256)
      new_byte i h = bit_set-bit_or _ (k % 8) i (bytes k valid) (omega arith) h

      in_use-set_mark :
          (j : ℕ) → in_use sb (set_mark k) j ≡ (if k == j then true else in_use sb d j)
      in_use-set_mark j =
          in_use-mark_disk r.geometry d k valid _ j true
            λ i h. (new_byte i h).0 ∙ or_if (k % 8 == i) _

      Created-stored :
          in_use sb d k ≡ false
          → AllUsed (in_use sb d) 0 k
          → Created k (with_disk v (stored_disk sb (set_mark k) k new))
      Created-stored free first = record {
        d' = stored_disk sb (set_mark k) k new;
        ready = Ready-with_disk r (stored_disk sb (set_mark k) k new);
        in_range = valid;
        was_free = free;
        first = first;
        marked = λ j l. in_use-stored_disk r.geometry (set_mark k) k j l new ∙ in_use-set_mark j;
        still_bytes = λ j l.
            rw (byte-stored_disk r.geometry (set_mark k) k j l new)
              (HasBytes-mark_disk r.geometry d k valid _ (new_byte 0 (omega arith)).1 bytes j l);
        inodes = λ j.
            rw
              (
                stored-stored_disk (Ready-with_disk r (set_mark k)) k j im,
                stored-mark_disk r.geometry d k valid _ j,
              )
              refl;
        data_blocks =
            view-stored_disk r.geometry (set_mark k) k valid new
            ∙ view-mark_disk r.geometry d k valid _;
      }

    -- The write of the mark and of the node.
    abbrev mark_run : (number p y i : ℕ) → Op ℕ
    mark_run number p y i = do
      attempt (write_block (pos p) (set_byte (d p) y (bit_or (d p y) (bit_mask i))))
      inode_write (pos number) new
      pure number

    mark_run-done :
        (k number p y i : ℕ)
        → k < sb.num_inodes
        → number ≡ suc k
        → p ≡ bit_block sb k
        → y ≡ bit_byte k
        → i ≡ k % 8
        → mark_run number p y i v ≡ done (suc k) (with_disk v (stored_disk sb (set_mark k) k new))
    mark_run-done k number p y i valid e e' e'' e3 =
        let in_disk : bit_block sb k < n =
          omega (arith, bit_block-lt r.geometry d k valid, r.geometry) in
        rw
          (
            e,
            e',
            e'',
            e3,
            write_block-done r.opens (bit_block sb k) _ in_disk,
            inode_write-done (Ready-with_disk r (set_mark k)) k new valid,
          )
          refl

    block_Searched :
        (cur : ℕ)
        → Searched
            (in_use sb d)
            sb.num_inodes
            (cur * bits_per_block)
            (cur * bits_per_block)
            ((cur + 1) * bits_per_block)
            (scan_bytes sb.num_inodes
              (cur * bits_per_block)
              (d (sb.ibitmap_block_offset + cur))
              0
              block_size)
    block_Searched cur =
        scan_bytes-Searched (in_use sb d) sb.num_inodes (cur * bits_per_block) _ 0 block_size _ _
          (omega arith) (omega arith) (λ z i l h h'. in_use-index cur z i h h' sb d)

    -- The round of create_from for the block `cur`, behind the search.
    abbrev after_search : (cur : ℕ) → Op ℕ → Search → Op ℕ
    after_search cur next s = elim s [
      | over ↦ throw ilist_full
      | miss ↦ next
      | found y i ↦
          mark_run (cur * bits_per_block + y * 8 + i + 1) (sb.ibitmap_block_offset + cur) y i
    ]

    search_ends :
        (cur : ℕ) (s : Search) (next : Op ℕ)
        → AllUsed (in_use sb d) 0 (cur * bits_per_block)
        → Searched
            (in_use sb d)
            sb.num_inodes
            (cur * bits_per_block)
            (cur * bits_per_block)
            ((cur + 1) * bits_per_block)
            s
        → (AllUsed (in_use sb d) 0 ((cur + 1) * bits_per_block) → CreateEnds (next v))
        → CreateEnds (after_search cur next s v)
    search_ends cur over next before h k =
        none_left refl
          (Searched-before _ _ (cur * bits_per_block) 0 _ _ over (omega arith) before h).1
    search_ends cur miss next before h k = k (AllUsed-join _ 0 (cur * bits_per_block) _ before h)
    search_ends cur (found y i) next before h k =
        let inside : y < block_size = omega (arith, h.1) in
        made (cur * bits_per_block + y * 8 + i) _
          (mark_run-done (cur * bits_per_block + y * 8 + i) _ _ _ _ h.2 (omega arith)
            (omega (arith, index_block cur y i inside h.3)) (sym (index_byte cur y i inside h.3))
            (sym (index_bit cur y i inside h.3)))
          (Created-stored (cur * bits_per_block + y * 8 + i) h.2 h.4
            (AllUsed-join _ 0 (cur * bits_per_block) _ before h.5))

    create_from-CreateEnds :
        (rounds cur : ℕ) (buffer : Block)
        → cur + rounds ≡ sb.ibitmap_size
        → AllUsed (in_use sb d) 0 (cur * bits_per_block)
        → CreateEnds (create_from sb new buffer cur rounds v)
    unfolding create_from
    create_from-CreateEnds zero cur buffer h used =
        none_left refl λ k l l'. used k l (omega (arith, r.geometry))
    create_from-CreateEnds (suc rounds) cur buffer h used =
        rw (read_block-done r.opens (sb.ibitmap_block_offset + cur) (omega (arith, r.geometry))) (
          search_ends cur _ _ used (block_Searched cur)
            (λ u. create_from-CreateEnds rounds (cur + 1) _ (omega arith) u))

-- On a volume in use whose bitmap holds bytes, inode_create of a node that fits its fields gives the
-- number of the first inode that is not in use: then that inode is marked and holds the node, and
-- every other inode, every other mark and all data blocks stay. If all inodes are in use it reports
-- ILIST_FULL and changes nothing. There is no other way for it to end.
pub inode_create-CreateEnds :
    {v : Vol} {sb : Superblock} {d : Disk} {n : ℕ} (r : Ready v sb d n) {new : Inode}
    → IsInode new
    → HasBytes sb d
    → CreateEnds r new (inode_create new v)
unfolding inode_create
inode_create-CreateEnds {v} {sb} r {new} im bytes = rw (read_superblock-done r) (
    create_from-CreateEnds r new im bytes sb.ibitmap_size 0 v.junk (omega arith)
      (λ k l l'. absurd (omega arith)))

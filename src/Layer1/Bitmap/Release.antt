-- ===== src/Layer1/Bitmap/Release.antt =====
-- inode_free on a volume in use takes the mark of an inode back.
use filesystem.Bytes.{set_byte}
use filesystem.Layer0.{Superblock, Disk, Vol}
use filesystem.Layer0.Blocks.{read_block-done, write_block-done}
use filesystem.Layer1.Bitmap.{bits_per_block, clear_bit, inode_free}
use filesystem.Layer1.Bitmap.Bits.{bit_set, bit_set-clear_bit}
use filesystem.Layer1.Bitmap.Marks.{
  bit_block, bit_byte, in_use, HasBytes, mark_disk, bit_block-lt, view-mark_disk, stored-mark_disk,
  in_use-mark_disk, HasBytes-mark_disk,
}
use filesystem.Layer1.Data.View.{view}
use filesystem.Layer1.Inode.{one_based-some}
use filesystem.Layer1.Inode.Store.{stored}
use filesystem.Layer1.Ready.{Ready, with_disk, Ready-with_disk, read_superblock-done}
use filesystem.Prelude.{
  ◌==◌, if◌then◌else◌, ℕ, suc, ◌%◌, ◌<◌, ◌≡◌, refl, sym, ◌∙◌, Bool, true, false, ◌&&◌, not, arith,
}
use filesystem.Prelude.Int.{pos}
use filesystem.Prelude.Run.{done, Returns}

-- What inode_free leaves for the inode of the index `k`: its mark is gone, and all else stays.
pub record Released (n : ℕ) (sb : Superblock) (d : Disk) (k : ℕ) (v' : Vol) : Type 0 where
  pub d' : Disk
  pub ready : Ready v' sb d' n
  pub marked :
      (j : ℕ) → j < sb.num_inodes → in_use sb d' j ≡ (if k == j then false else in_use sb d j)
  pub still_bytes : HasBytes sb d'
  pub inodes : (j : ℕ) → stored sb d' j ≡ stored sb d j
  pub data_blocks : view sb d' ≡ view sb d

clear_if : (b c : Bool) → (not b && c) ≡ (if b then false else c)
clear_if true c = refl
clear_if false c = refl

module _ {v : Vol} {sb : Superblock} {d : Disk} {n : ℕ} (r : Ready v sb d n) (k : ℕ)
    (valid : k < sb.num_inodes) where
  abbrev cleared_byte : ℕ
  cleared_byte = clear_bit (d (bit_block sb k) (bit_byte k)) (k % 8)

  inode_free-done :
      inode_free (pos (suc k)) v ≡ done tt (with_disk v (mark_disk sb d k cleared_byte))
  unfolding inode_free
  inode_free-done =
      let fits : bit_block sb k < n =
        omega (arith, bit_block-lt r.geometry d k valid, r.geometry) in
      let bit : k % bits_per_block % 8 ≡ k % 8 = omega arith in
      rw (sym bit) (
        ground (
          arith,
          read_superblock-done r,
          one_based-some k sb.num_inodes valid,
          read_block-done r.opens (bit_block sb k) fits,
          write_block-done r.opens (bit_block sb k)
              (set_byte (d (bit_block sb k)) (bit_byte k)
                (clear_bit (d (bit_block sb k) (bit_byte k)) (k % bits_per_block % 8)))
              fits,
        ))

  cleared :
      (i : ℕ)
      → HasBytes sb d
      → i < 8
      → (bit_set cleared_byte i ≡ (not (k % 8 == i) && bit_set (d (bit_block sb k) (bit_byte k)) i))
        × (cleared_byte < 256)
  cleared i bytes h =
      bit_set-clear_bit (d (bit_block sb k) (bit_byte k)) (k % 8) i (bytes k valid) (omega arith) h

  -- On a volume in use whose bitmap holds bytes, inode_free of a valid number succeeds, clears the mark
  -- of that inode, and leaves every other mark, all inodes and all data blocks as they are.
  pub inode_free-Released :
      HasBytes sb d → Returns (λ _. Released n sb d k) (inode_free (pos (suc k)) v)
  inode_free-Released bytes = rw inode_free-done (record {
    d' = mark_disk sb d k cleared_byte;
    ready = Ready-with_disk r (mark_disk sb d k cleared_byte);
    marked = λ j l.
        in_use-mark_disk r.geometry d k valid _ j false
          λ i h. (cleared i bytes h).0 ∙ clear_if (k % 8 == i) _;
    still_bytes = HasBytes-mark_disk r.geometry d k valid _ (cleared 0 bytes (omega arith)).1 bytes;
    inodes = λ j. stored-mark_disk r.geometry d k valid _ j;
    data_blocks = view-mark_disk r.geometry d k valid _;
  })

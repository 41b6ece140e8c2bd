-- ===== src/Tests/Writes.antt =====
-- Writing to the file of two blocks on the small volume, and reading it again.
use filesystem.Bytes.{Block, block_size, zero_block, all_zero}
use filesystem.Layer1.Bitmap.Marks.{view-stored_disk}
use filesystem.Layer1.Data.View.{view}
use filesystem.Layer1.FreeList.Chain.{free_blocks}
use filesystem.Layer2.BlockMap.{rm_nth_datablock}
use filesystem.Layer2.Contents.CutRoot.{Removed}
use filesystem.Layer2.Contents.ReadBack.{ReadsBack, read_i-write_i}
use filesystem.Layer2.Contents.Remove.{rm_nth_datablock-Removed}
use filesystem.Layer2.Contents.WriteEnds.{WriteEnds}
use filesystem.Layer2.Contents.Writing.{IsWritable}
use filesystem.Layer2.Contents.ZeroRound.{write_round-Removed}
use filesystem.Layer2.File.{write_round, write_i}
use filesystem.Prelude.{ltb, if◌then◌else◌, ◌≡◌, refl, true, [], ◌∷◌, arith}
use filesystem.Prelude.Run.{Returns}
use filesystem.Tests.{small_sb, small_disk, vol_with, small_Ready, small_free, small_IsFreeList}
use filesystem.Tests.Files.{
  two_blocks, two_blocks-IsInode, file_disk, file_vol, file_Ready, file_stored, small_budget,
  sevens,
}

file_view : view small_sb file_disk ≡ view small_sb small_disk
file_view = view-stored_disk small_Ready.geometry small_disk 2 (omega arith) two_blocks

file_IsWritable : IsWritable file_vol small_sb file_disk 12 (1 ∷ []) 2 (λ a. 0)
file_IsWritable = record {
  ready = file_Ready;
  free_list = rw file_view small_IsFreeList;
  valid = omega arith;
  fits = rw file_stored two_blocks-IsInode;
  budget =
      rw (file_stored, file_view)
        (small_budget (free_blocks (view small_sb small_disk) (1 ∷ [])) small_free
          (view small_sb small_disk));
}

read_i-write_i_example :
    ReadsBack small_sb file_disk 12
      (1 ∷ [])
      2
      (λ a. 0)
      sevens
      zero_block
      4000
      5000
      (write_i 3 sevens 4000 5000 file_vol)
read_i-write_i_example =
    read_i-write_i file_IsWritable sevens zero_block 4000 5000 (omega arith) (omega arith)
      (omega arith) (omega arith) (omega arith) (rw file_stored (omega arith))

-- The second block of the file is given back.
rm_nth_datablock-Removed_example :
    Returns
      (Removed 12 small_sb small_disk (1 ∷ []) two_blocks 1 (λ a. 0))
      (rm_nth_datablock two_blocks 1 (vol_with small_sb))
rm_nth_datablock-Removed_example =
    rm_nth_datablock-Removed small_Ready two_blocks (λ a. 0) small_IsFreeList refl
      (small_budget (free_blocks (view small_sb small_disk) (1 ∷ [])) small_free
        (view small_sb small_disk))
      1 (omega arith)

-- The bytes of the round are sevens, but the buffer begins with a block of zeros.
abbrev late_sevens : Block
late_sevens o = if ltb o 4096 then 0 else 7

late_zeros : all_zero late_sevens 0 block_size ≡ true
unfolding all_zero
late_zeros = refl

write_round-Removed_example :
    Returns
      (Removed 12 small_sb small_disk (1 ∷ []) two_blocks 1 (λ a. 0))
      (write_round two_blocks late_sevens 1 0 block_size 4096 (vol_with small_sb))
write_round-Removed_example =
    write_round-Removed small_Ready two_blocks (λ a. 0) small_IsFreeList refl
      (small_budget (free_blocks (view small_sb small_disk) (1 ∷ [])) small_free
        (view small_sb small_disk))
      1 late_sevens 4096 (omega arith) late_zeros

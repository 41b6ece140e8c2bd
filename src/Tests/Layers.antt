-- ===== src/Tests/Layers.antt =====
-- The bitmap and the first free list of the small volume.
use filesystem.Layer1.Bitmap.{inode_create, inode_free}
use filesystem.Layer1.Bitmap.Create.{CreateEnds, inode_create-CreateEnds}
use filesystem.Layer1.Bitmap.Marks.{HasBytes}
use filesystem.Layer1.Bitmap.Release.{Released, inode_free-Released}
use filesystem.Layer1.Mkfs.{init_freelist}
use filesystem.Layer1.Mkfs.FirstList.{AllFree, init_freelist-AllFree}
use filesystem.Prelude.{refl, arith}
use filesystem.Prelude.Int.{pos}
use filesystem.Prelude.Run.{Returns}
use filesystem.Tests.{small_sb, small_disk, vol_with, small_Ready, some_inode, some_inode-IsInode}

init_freelist-AllFree_example :
    Returns (λ _. AllFree 12 small_sb) (init_freelist (vol_with small_sb))
init_freelist-AllFree_example = init_freelist-AllFree small_Ready (omega arith) refl

small_HasBytes : HasBytes small_sb small_disk
small_HasBytes = λ k h. ground arith

inode_create-CreateEnds_example :
    CreateEnds small_Ready some_inode (inode_create some_inode (vol_with small_sb))
inode_create-CreateEnds_example =
    inode_create-CreateEnds small_Ready some_inode-IsInode small_HasBytes

inode_free-Released_example :
    Returns (λ _. Released 12 small_sb small_disk 3) (inode_free (pos 4) (vol_with small_sb))
inode_free-Released_example = inode_free-Released small_Ready 3 (omega arith) small_HasBytes

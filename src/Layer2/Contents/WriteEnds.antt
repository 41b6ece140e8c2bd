-- ===== src/Layer2/Contents/WriteEnds.antt =====
-- How write_i ends.
use filesystem.Bytes.{Block, block_size, zero_block}
use filesystem.Layer0.{Superblock, Disk, Vol}
use filesystem.Layer1.Inode.{Inode}
use filesystem.Layer1.Inode.Store.{stored}
use filesystem.Layer2.BlockMap.{Nth, get_nth_datablock}
use filesystem.Layer2.Contents.WriteRound.{FileWrote}
use filesystem.Layer2.Contents.Writing.{Writing}
use filesystem.Layer2.File.{grown, write_blocks}
use filesystem.Prelude.{ℕ, suc, ◌+◌, ◌*◌, ◌/◌, ◌%◌, ◌<◌, ◌≡◌, ◌⊎◌, true, List}
use filesystem.Prelude.Run.{data_full, err, Run, done, fail}

-- `run` comes to the loop of write_i with `bytes` bytes written, at the state `before`, and fails with
-- DATA_FULL in the next round, in which get_nth_datablock reports DATA_FULL. The bytes before it are in
-- the file, and for the inode of the round, which is not stored, its block reads as zeros; no block is
-- lost or used twice.
pub record OutOfRoom (sb : Superblock) (d : Disk) (n : ℕ) (ps : List ℕ) (k : ℕ) (outside : ℕ → ℕ)
    (buf : Block) (offset size : ℕ) (run : Run Vol ℕ) : Type 0 where
  pub bytes : ℕ
  pub but_pointers : Inode
  pub inode : Inode
  pub before : Vol
  pub not_all : bytes < size
  pub state : Writing sb d n ps k outside buf offset bytes but_pointers inode before
  pub block : ℕ
  pub block_now : block ≡ (offset + bytes) / block_size
  pub start : ℕ
  pub stands_at : block * block_size + start ≡ offset + bytes
  pub rounds : ℕ
  pub last_block : ℕ
  pub last_size : ℕ
  pub ends_at : last_block * block_size + last_size ≡ offset + size
  pub reached :
      run
      ≡ write_blocks
          (suc k)
          (stored sb d k).size
          offset
          last_block
          last_size
          buf
          (suc rounds)
          inode
          block
          start
          bytes
          before
  pub aligned : (bytes ≡ 0) ⊎ ((offset + bytes) % block_size ≡ 0)
  pub nth : Nth
  pub after : Vol
  pub stopped : get_nth_datablock inode block true before ≡ done nth after
  pub full : nth.block ≡ err data_full
  pub inode_then : Inode
  pub at_end : Vol
  pub failed : run ≡ fail data_full at_end
  pub given_back :
      FileWrote n state.sb' state.d' state.ps' inode block outside zero_block inode_then at_end

-- How write_i ends for a file: all bytes are in it, or it fails because there was no room for them.
pub data WriteEnds (sb : Superblock) (d : Disk) (n : ℕ) (ps : List ℕ) (k : ℕ) (outside : ℕ → ℕ)
    (buf : Block) (offset size : ℕ) (run : Run Vol ℕ) : Type 0 where
  all_written :
      (m : Inode) (v' : Vol)
      → run ≡ done size v'
      → Writing sb d n ps k outside buf offset size
          (grown (stored sb d k).size offset size (stored sb d k))
          m
          v'
      → WriteEnds sb d n ps k outside buf offset size run
  no_room :
      OutOfRoom sb d n ps k outside buf offset size run
      → WriteEnds sb d n ps k outside buf offset size run

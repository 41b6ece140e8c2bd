-- ===== src/Layer2/Contents/ReadBack.antt =====
-- read_i gives what write_i wrote.
use mathlib.Core.Path.{fun_ext}
use filesystem.Bytes.{Block, block_size}
use filesystem.Layer0.{Superblock, Disk, Vol}
use filesystem.Layer1.Data.View.{view}
use filesystem.Layer1.Inode.{Inode}
use filesystem.Layer1.Inode.Store.{stored}
use filesystem.Layer2.Contents.{byte_at, IsFile}
use filesystem.Layer2.Contents.Read.{put, returned, read_i-byte_at}
use filesystem.Layer2.Contents.Valid.{FileBudget-IsFile}
use filesystem.Layer2.Contents.WriteEnds.{OutOfRoom, all_written, no_room}
use filesystem.Layer2.Contents.WriteLoop.{write_i-WriteEnds}
use filesystem.Layer2.Contents.Writing.{IsWritable, Writing, Writing-budget}
use filesystem.Layer2.File.{read_i, grown, write_i}
use filesystem.Prelude.{ℕ, suc, ◌+◌, ◌-◌, ◌%◌, ◌<◌, min, max, ◌≡◌, refl, ap, ◌∙◌, ◌≢◌, List, arith}
use filesystem.Prelude.Run.{Run, done}

-- Only the bytes that are copied matter.
put-same :
    (buf : Block) (at n : ℕ) (f g : ℕ → ℕ)
    → ((j : ℕ) → j < n → f j ≡ g j)
    → put buf at f n ≡ put buf at g n
put-same buf at n f g h = fun_ext λ j. ground (arith, h (j - at))

-- What a later read_i of the same bytes gives, or there was no room for them.
pub data ReadsBack (sb : Superblock) (d : Disk) (n : ℕ) (ps : List ℕ) (k : ℕ) (outside : ℕ → ℕ)
    (buf into : Block) (offset size : ℕ) (run : Run Vol ℕ) : Type 0 where
  reads_back :
      (v' : Vol)
      → run ≡ done size v'
      → read_i (suc k) into offset size v' ≡ returned v' size (put into 0 buf size)
      → ReadsBack sb d n ps k outside buf into offset size run
  out_of_room :
      OutOfRoom sb d n ps k outside buf offset size run
      → ReadsBack sb d n ps k outside buf into offset size run

module _ {v : Vol} {sb : Superblock} {d : Disk} {n : ℕ} {ps : List ℕ} {k : ℕ} {outside : ℕ → ℕ}
    (w : IsWritable v sb d n ps k outside) where
  module _ {buf : Block} {offset size : ℕ} (small : offset + size < 2147483648)
      (old_small : (stored sb d k).size < 2147483648) {m : Inode} {v' : Vol}
      (s : Writing sb d n ps k outside buf offset size
        (grown (stored sb d k).size offset size (stored sb d k))
        m
        v') where
    stored_size : (stored s.sb' s.d' k).size ≡ max (stored sb d k).size (offset + size)
    stored_size =
        ap (λ (x : Inode). x.size) (s.inode ∙ s.fields.0) ∙ omega (arith, old_small, small)

    stored-IsFile : IsFile (view s.sb' s.d') s.sb'.data_size (stored s.sb' s.d' k)
    stored-IsFile = rw s.inode (
        FileBudget-IsFile (view s.sb' s.d') s.sb'.data_size s.ps' m outside refl
          (Writing-budget w s)
          (omega (arith, old_small, small, stored_size, ap (λ (x : Inode). x.size) s.inode)))

    byte_written :
        (j : ℕ) → j < size → byte_at (view s.sb' s.d') (stored s.sb' s.d' k) (offset + j) ≡ buf j
    byte_written j h =
        let back : offset + j - offset ≡ j = omega arith in
        ap (λ (x : Inode). byte_at (view s.sb' s.d') x (offset + j)) s.inode
        ∙ s.written (offset + j) (omega arith)
        ∙ ground (arith, h, ap buf back)

    read_written :
        (into : Block) → read_i (suc k) into offset size v' ≡ returned v' size (put into 0 buf size)
    read_written into =
        let bytes : ℕ → ℕ = λ j. byte_at (view s.sb' s.d') (stored s.sb' s.d' k) (offset + j) in
        let enough : min ((stored s.sb' s.d' k).size - offset) size ≡ size =
          omega (arith, stored_size) in
        read_i-byte_at s.ready k (omega (arith, w.valid, s.same_layout)) stored-IsFile into offset
          size
        ∙ ap (λ (x : ℕ). returned v' x (put into 0 bytes x)) enough
        ∙ ap (returned v' size) (put-same into 0 size bytes buf byte_written)

-- On a volume in use with a free list, for a file below 2^31 bytes of which no block is free, twice in
-- the file or in use elsewhere, below the offset 2^31, and for a buffer in which the first byte, the
-- last byte and the byte at the offset within the first block, where the test for zeros begins, are
-- not 0: write_i returns the size, and then read_i of as many bytes at the same offset gives them
-- back and leaves the rest of the reader's buffer and the globals as they are; or write_i fails with
-- DATA_FULL, in a round in which get_nth_datablock reports that.
pub read_i-write_i :
    {v : Vol} {sb : Superblock} {d : Disk} {n : ℕ} {ps : List ℕ} {k : ℕ} {outside : ℕ → ℕ}
    (w : IsWritable v sb d n ps k outside) (buf into : Block) (offset size : ℕ)
    → buf 0 ≢ 0
    → buf (offset % block_size) ≢ 0
    → buf (size - 1) ≢ 0
    → 0 < size
    → offset + size < 2147483648
    → (stored sb d k).size < 2147483648
    → ReadsBack sb d n ps k outside buf into offset size (write_i (suc k) buf offset size v)
read_i-write_i w buf into offset size first tested last some_bytes small old_small =
    elim (write_i-WriteEnds w buf offset size first tested last some_bytes small) [
      | all_written m v' run s ↦ reads_back v' run (read_written w small old_small s into)
      | no_room o ↦ out_of_room o
    ]

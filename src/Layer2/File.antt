-- ===== src/Layer2/File.antt =====
-- layer2.c, read_i, write_i, truncate and del. Sizes and offsets are below 2 ^ 31, so that C's
-- conversions to `int` keep them; `size` is a uint32_t and is cut to 32 bits where it is assigned.
use filesystem.Bytes.{Block, block_size, zero_block, copy, all_zero}
use filesystem.Layer0.{Op}
use filesystem.Layer1.Bitmap.{inode_free}
use filesystem.Layer1.Data.{data_read, data_write}
use filesystem.Layer1.Inode.{Inode, inode_read, inode_write}
use filesystem.Layer2.BlockMap.{Nth, get_nth_datablock, rm_nth_datablock}
use filesystem.Prelude.{
  ltb, leb, ◌==◌, if◌then◌else◌, ℕ, zero, suc, ◌+◌, ◌-◌, ◌/◌, ◌%◌, min, max, bit_and, bit_xor, Bool,
  true, false, ◌&&◌, not,
}
use filesystem.Prelude.Int.{ℤ, pos, negsuc}
use filesystem.Prelude.Run.{data_full, Result, ok, err, pure, throw, get, ◌>>=◌, ◌>>◌, attempt}

abbrev pub u32 : ℕ → ℕ
u32 n = n % 4294967296

-- The number that a call got for a block: a negative one if it failed.
abbrev pub block_number : Result ℕ → ℤ
block_number (ok n) = pos n
block_number (err e) = negsuc 0

-- The loop of read_i from block `i`, for the rounds that are left. It returns `bytes_read` and the
-- caller's buffer.
unfoldable pub read_blocks :
    (inod : Inode) (end_block end_size rounds i read_start bytes_read : ℕ) (buf : Block)
    → Op (ℕ × Block)
read_blocks inod end_block end_size zero i start bytes buf = pure (bytes, buf)
read_blocks inod end_block end_size (suc rounds) i start bytes buf = do
  let read_size : ℕ = if i == end_block then end_size else block_size
  nth ← get_nth_datablock inod i false
  block_buf ← data_read (block_number nth.block)
  read_blocks inod end_block end_size rounds (i + 1) 0 (bytes + (read_size - start))
      (copy buf bytes block_buf start (read_size - start))

-- The number of bytes read, and the buffer. `truncated_size` is an int in the source: the model is for
-- files below 2^31 bytes.
unfoldable pub read_i : (inum : ℕ) (buf : Block) (offset size : ℕ) → Op (ℕ × Block)
read_i inum buf offset size = do
  my_inode ← inode_read (pos inum)
  if leb my_inode.size offset
      then pure (0, buf)
      else let truncated_size : ℕ = min (my_inode.size - offset) size in
        if truncated_size == 0
        then pure (0, buf)
        else let last : ℕ = offset + truncated_size - 1 in
          let start_block : ℕ = offset / block_size in
          let end_block : ℕ = last / block_size in
          read_blocks my_inode end_block (last % block_size + 1) (end_block + 1 - start_block)
            start_block (offset % block_size) 0 buf

-- S_ISUID | S_ISGID
abbrev pub set_id_bits : ℕ
set_id_bits = 0o6000

-- rm_nth_datablock with its status dropped.
unfoldable pub rm_block : Inode → ℕ → Op Inode
rm_block inod n = do
  r ← attempt (rm_nth_datablock inod n)
  pure (elim r [ ok inod' ↦ inod' | err _ ↦ inod ])

-- The part of write_i's loop after a block was found: the bytes are put into it, and a block that
-- comes out all zeros is removed.
unfoldable pub put_bytes :
    (nth : Nth) (buf : Block) (i write_start write_size bytes_written : ℕ) → Op Inode
put_bytes nth buf i start write_size bytes =
    if write_size == block_size && start == 0
    then (do
      data_write (block_number nth.block) (copy zero_block 0 buf bytes block_size)
      pure nth.inode)
    else (do
      old ← if nth.created then pure zero_block else data_read (block_number nth.block)
      let block_buf = copy old start buf bytes (write_size - start)
      if all_zero block_buf 0 block_size
          then rm_block nth.inode i
          else (do data_write (block_number nth.block) block_buf; pure nth.inode))

abbrev pub is_data_full : Result ℕ → Bool
is_data_full (err data_full) = true
is_data_full _ = false

-- A round of write_i's loop, up to the update of the size. The test for zeros reads `buf` from
-- `write_start`, as the source does.
unfoldable pub write_round :
    (inod : Inode) (buf : Block) (i write_start write_size bytes_written : ℕ) → Op Inode
write_round inod buf i start write_size bytes =
    let all_zeros : Bool = all_zero buf start (write_size - start) in
    if all_zeros && (write_size == block_size && start == 0) then rm_block inod i else (do
      nth ← get_nth_datablock inod i true
      if not (is_data_full nth.block)
          then put_bytes nth buf i start write_size bytes
          else if all_zeros
          then rm_block nth.inode i
          else (do rm_block nth.inode i; throw data_full))

-- The size and mode that write_i stores after a round.
abbrev pub grown : (original_size offset bytes_written : ℕ) → Inode → Inode
grown original offset bytes n = record n {
  size = u32 (max original (offset + bytes));
  mode = bit_and n.mode (bit_xor 0xffff set_id_bits);
}

-- The loop of write_i from block `i`, for the rounds that are left.
unfoldable pub write_blocks :
    (inum original_size offset end_block end_size : ℕ) (buf : Block) (rounds : ℕ) (inod : Inode)
    (i write_start bytes_written : ℕ)
    → Op ℕ
write_blocks inum original offset end_block end_size buf zero inod i start bytes = pure bytes
write_blocks inum original offset end_block end_size buf (suc rounds) inod i start bytes = do
  let write_size : ℕ = if i == end_block then end_size else block_size
  let bytes' : ℕ = bytes + (write_size - start)
  inod' ← write_round inod buf i start write_size bytes
  let inod'' = grown original offset bytes' inod'
  attempt (inode_write (pos inum) inod'')
  write_blocks inum original offset end_block end_size buf rounds inod'' (i + 1) 0 bytes'

-- The number of bytes written. The block numbers are ints in the source: the model is for offsets below
-- 2^31. With nothing to write at offset 0 the last byte's number wraps, and
-- `end_block` is -1: no round is made.
unfoldable pub write_i : (inum : ℕ) (buf : Block) (offset size : ℕ) → Op ℕ
write_i inum buf offset size = do
  my_inode ← inode_read (pos inum)
  let last : ℕ = offset + size - 1
  let start_block : ℕ = offset / block_size
  let rounds : ℕ = if offset + size == 0 then 0 else last / block_size + 1 - start_block
  write_blocks inum my_inode.size offset (last / block_size) (last % block_size + 1) buf rounds
      my_inode start_block (offset % block_size) 0

-- truncate of layer2.c. `buf_size` is an int in the source: the model is for files below 2^31 bytes.
-- The inode that it writes at the end is the one that it read first. Behind
-- the zeros of `buf` lies what the memory held.
unfoldable pub truncate : (inum offset : ℕ) → Op (Unit {0})
truncate inum offset = do
  my_inode ← inode_read (pos inum)
  elim (ltb my_inode.size offset) [
    | true ↦ do attempt (inode_write (pos inum) (record my_inode { size = u32 offset })); pure tt
    | false ↦ do
      v ← get
      let buf_size : ℕ = my_inode.size - offset
      let buf = copy v.junk 0 zero_block 0 buf_size
      attempt (write_i inum buf offset buf_size)
      attempt (inode_write (pos inum) (record my_inode { size = offset }))
      pure tt
  ]

unfoldable pub del : (inum : ℕ) → Op (Unit {0})
del inum = do truncate inum 0; inode_free (pos inum)

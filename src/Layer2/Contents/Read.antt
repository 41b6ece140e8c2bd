-- ===== src/Layer2/Contents/Read.antt =====
-- read_i reads the bytes of the file: the loop over the blocks, the short first and last block and the
-- cut at the end of the file give what byte_at says.
use mathlib.Core.Path.{fun_ext}
use filesystem.Bytes.{Block, block_size, copy}
use filesystem.Layer0.{Superblock, Disk, Vol}
use filesystem.Layer1.Data.View.{view, data_read-done}
use filesystem.Layer1.Inode.{Inode}
use filesystem.Layer1.Inode.Store.{stored, inode_read-done}
use filesystem.Layer1.Ready.{Ready}
use filesystem.Layer2.BlockMap.{triple_limit}
use filesystem.Layer2.Contents.{block_of, byte_at, IsFile}
use filesystem.Layer2.Contents.Nth.{get_nth_datablock-block_of}
use filesystem.Layer2.File.{read_blocks, read_i}
use filesystem.Prelude.{
  ltb, leb, ◌==◌, if◌then◌else◌, ℕ, zero, suc, ◌+◌, ◌-◌, ◌*◌, ◌/◌, ◌%◌, ◌≤◌, ◌<◌, min, ◌≡◌, refl,
  sym, ap, ◌∙◌, ◌&&◌, arith,
}
use filesystem.Prelude.Run.{Run, done}

-- A buffer with `n` bytes from `at` on replaced by those of `f`.
abbrev pub put : Block → (at : ℕ) → (f : ℕ → ℕ) → (n : ℕ) → Block
put buf at f n j = if leb at j && ltb j (at + n) then f (j - at) else buf j

put-zero : (buf : Block) (at : ℕ) (f : ℕ → ℕ) → put buf at f 0 ≡ buf
put-zero buf at f = fun_ext λ j. ground arith

-- A copy and the bytes behind it.
put-copy :
    (buf blk : Block) (at from n rest : ℕ) (f : ℕ → ℕ)
    → ((k : ℕ) → k < n → blk (from + k) ≡ f k)
    → put (copy buf at blk from n) (at + n) (λ k. f (n + k)) rest ≡ put buf at f (n + rest)
unfolding copy
put-copy buf blk at from n rest f h = fun_ext λ j. ground (arith, h (j - at))

-- What a read returns.
abbrev pub returned : Vol → ℕ → Block → Run Vol (ℕ × Block)
returned v n b = done (n, b) v

same_run : {v : Vol} {n n' : ℕ} {b b' : Block} → n ≡ n' → b ≡ b' → returned v n b ≡ returned v n' b'
same_run {v} {n' = n'} {b = b} e e' = ap (λ (n : ℕ). returned v n b) e ∙ ap (returned v n') e'

-- The bytes from a position up to the end of the part of the last block.
abbrev left : (end_block end_size i start : ℕ) → ℕ
left eb es i start = eb * block_size + es - (i * block_size + start)

-- The bytes of one block, and those behind it.
put-block :
    (g : ℕ → ℕ) (blk : Block) (eb es i start bytes : ℕ) (buf : Block)
    → i ≤ eb
    → es ≤ block_size
    → start < block_size
    → ((o : ℕ) → o < block_size → g (i * block_size + o) ≡ blk o)
    → put
        (copy buf bytes blk start ((if i == eb then es else block_size) - start))
        (bytes + ((if i == eb then es else block_size) - start))
        (λ k. g ((i + 1) * block_size + 0 + k))
        (left eb es (i + 1) 0)
      ≡ put buf bytes (λ k. g (i * block_size + start + k)) (left eb es i start)
unfolding copy
put-block g blk eb es i start bytes buf h b s blocks =
    fun_ext λ j. grind (arith, blocks (start + (j - bytes)))

module _ {v : Vol} {sb : Superblock} {d : Disk} {n : ℕ} (r : Ready v sb d n) {m : Inode}
    (file : IsFile (view sb d) sb.data_size m) where
  -- The loop of read_i from the block `i` on.
  read_blocks-put :
      (eb es rounds i start bytes : ℕ) (buf : Block)
      → eb < triple_limit
      → es ≤ block_size
      → i + rounds ≡ eb + 1
      → start < block_size
      → read_blocks m eb es rounds i start bytes buf v
        ≡ done
            (
              bytes + left eb es i start,
              put buf bytes
                  (λ k. byte_at (view sb d) m (i * block_size + start + k))
                  (left eb es i start),
            )
            v
  unfolding read_blocks
  read_blocks-put eb es zero i start bytes buf a c e s =
      let none_left : left eb es i start ≡ 0 = omega arith in
      rw none_left (
        same_run (omega arith)
          (sym (put-zero buf bytes (λ k. byte_at (view sb d) m (i * block_size + start + k)))))
  read_blocks-put eb es (suc rounds) i start bytes buf a c e s =
      let size : ℕ = (if i == eb then es else block_size) - start in
      let blk : Block = view sb d (block_of (view sb d) m i) in
      let nth = get_nth_datablock-block_of r file i (omega arith) in
      rw (nth.0, data_read-done r (block_of (view sb d) m i) nth.1)
        (read_blocks-put eb es rounds (i + 1) 0 (bytes + size) (copy buf bytes blk start size) a c
            (omega arith) (omega arith)
          ∙ same_run (ground arith) (
              put-block (byte_at (view sb d) m) blk eb es i start bytes buf (omega arith) c s
                (λ o h.
                  ap
                    (λ (k : ℕ).
                      view sb d (block_of (view sb d) m k) ((i * block_size + o) % block_size))
                    (omega arith)
                  ∙ ap blk (omega arith))))

  -- The call of the loop for `t` bytes within the file.
  read_blocks-all :
      (buf : Block) (offset t : ℕ)
      → 0 < t
      → offset + t ≤ m.size
      → read_blocks m
          ((offset + t - 1) / block_size)
          ((offset + t - 1) % block_size + 1)
          ((offset + t - 1) / block_size + 1 - offset / block_size)
          (offset / block_size)
          (offset % block_size)
          0
          buf
          v
        ≡ returned v t (put buf 0 (λ j. byte_at (view sb d) m (offset + j)) t)
  read_blocks-all buf offset t h h' =
      let e : offset / block_size * block_size + offset % block_size ≡ offset = omega arith in
      let e' : left ((offset + t - 1) / block_size) ((offset + t - 1) % block_size + 1)
            (offset / block_size) (offset % block_size)
          ≡ t =
        omega arith in
      read_blocks-put _ _ _ _ _ 0 buf (omega (arith, file.size_word)) (omega arith) (omega arith)
        (omega arith)
      ∙ same_run (omega (arith, e')) (rw (e', e) refl)

-- read_i gives the bytes of a file from the offset on, as many as are asked for and the file has, and
-- leaves the rest of the buffer and the globals as they are: on a volume in use, for a valid inode
-- number, if every pointer of the inode and of its indirect blocks is 0 or a data block's number, and
-- the size is below 2^31. A byte is the one of the data block that its block number leads to, or 0 where
-- that pointer is 0.
pub read_i-byte_at :
    {v : Vol} {sb : Superblock} {d : Disk} {n : ℕ} (r : Ready v sb d n) (k : ℕ)
    → k < sb.num_inodes
    → IsFile (view sb d) sb.data_size (stored sb d k)
    → (buf : Block) (offset size : ℕ)
    → read_i (suc k) buf offset size v
      ≡ returned v (min ((stored sb d k).size - offset) size) (
          put buf 0
            (λ j. byte_at (view sb d) (stored sb d k) (offset + j))
            (min ((stored sb d k).size - offset) size))
unfolding read_i
read_i-byte_at {sb} {d} r k valid file buf offset size = rw (inode_read-done r k valid) (
    ground (
      arith,
      read_blocks-all r file buf offset (min ((stored sb d k).size - offset) size),
      put-zero buf 0 (λ j. byte_at (view sb d) (stored sb d k) (offset + j)),
    ))

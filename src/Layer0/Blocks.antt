-- ===== src/Layer0/Blocks.antt =====
-- What a block operation does on a disk that is set up.
use filesystem.Bytes.{Block}
use filesystem.Layer0.{Disk, Vol, block_index, write_disk, write_block, read_block}
use filesystem.Prelude.{ℕ, ◌<◌, ◌≡◌, none, some, arith}
use filesystem.Prelude.Int.{ℤ, pos}
use filesystem.Prelude.Run.{invalid_block, done, fail}

-- The disk is set up with `n` blocks.
pub record IsOpen (v : Vol) (d : Disk) (n : ℕ) : Type 0 where
  pub has_disk : v.disk ≡ some d
  pub has_total : v.total_blocks ≡ some n

module _ {v : Vol} {d : Disk} {n : ℕ} (o : IsOpen v d n) where
  pub read_block-done : (k : ℕ) → k < n → read_block (pos k) v ≡ done (d k) v
  unfolding read_block
  read_block-done k h = ground arith

  pub write_block-done :
      (k : ℕ) (b : Block)
      → k < n
      → write_block (pos k) b v ≡ done tt (record v { disk = some (write_disk d k b) })
  unfolding write_block
  write_block-done k b h = ground arith

  -- A block number out of range is refused, and nothing changes.
  pub read_block-fail : (b : ℤ) → block_index b n ≡ none → read_block b v ≡ fail invalid_block v
  unfolding read_block
  read_block-fail b h = ground arith

  pub write_block-fail :
      (b : ℤ) (buf : Block) → block_index b n ≡ none → write_block b buf v ≡ fail invalid_block v
  unfolding write_block
  write_block-fail b buf h = ground arith

  pub read_block-at : (b : ℤ) {k : ℕ} → block_index b n ≡ some k → read_block b v ≡ done (d k) v
  unfolding read_block
  read_block-at b h = ground arith

  pub write_block-at :
      (b : ℤ) (buf : Block) {k : ℕ}
      → block_index b n ≡ some k
      → write_block b buf v ≡ done tt (record v { disk = some (write_disk d k buf) })
  unfolding write_block
  write_block-at b buf h = ground arith

-- ===== src/Layer1/Super/Stored.antt =====
-- The superblock on the disk: what write_superblock stores is read back when the copy in memory is
-- gone, as after a restart.
use filesystem.Bytes.{Block, u32_at, words, set_words}
use filesystem.Bytes.Words.{AllWords, u32_at-set_words}
use filesystem.Layer0.{Superblock, Disk, Vol, write_block, read_block}
use filesystem.Layer0.Blocks.{IsOpen}
use filesystem.Layer1.Super.{superblock_words, superblock_at, read_superblock, write_superblock}
use filesystem.Prelude.{get_or, ℕ, ◌+◌, ◌*◌, ◌<◌, ◌≡◌, none, some, arith}
use filesystem.Prelude.Run.{Returns, value}

superblock_at-set_words :
    (b : Block) (sb : Superblock)
    → AllWords (superblock_words sb)
    → superblock_at (set_words b 0 (superblock_words sb)) ≡ sb
unfolding superblock_at superblock_words
superblock_at-set_words b sb h =
    let word : (k : ℕ)
        → k < 13
        → u32_at (set_words b 0 (superblock_words sb)) (0 + 4 * k)
          ≡ get_or (superblock_words sb) k 0 =
      λ k lt. u32_at-set_words (superblock_words sb) b 0 k h lt in
    ground (
      arith,
      word 0 (omega arith),
      word 1 (omega arith),
      word 2 (omega arith),
      word 3 (omega arith),
      word 4 (omega arith),
      word 5 (omega arith),
      word 6 (omega arith),
      word 7 (omega arith),
      word 8 (omega arith),
      word 9 (omega arith),
      word 10 (omega arith),
      word 11 (omega arith),
      word 12 (omega arith),
    )

-- write_superblock stores a superblock whose fields fit 32 bits, on any disk with a block. Then
-- read_superblock gives it, and gives it too when the copy in memory was forgotten.
pub read_superblock-write_superblock :
    {v : Vol} {d : Disk} {n : ℕ} (sb : Superblock)
    → IsOpen v d n
    → 0 < n
    → AllWords (superblock_words sb)
    → Returns
        (λ _ w.
          (value (read_superblock w) ≡ some sb)
          × (value (read_superblock (record w { cached_superblock = none })) ≡ some sb))
        (write_superblock sb v)
unfolding write_superblock read_superblock write_block read_block
read_superblock-write_superblock {v} sb o h words =
    ground (arith, o, superblock_at-set_words v.junk sb words)

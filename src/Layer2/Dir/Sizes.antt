-- ===== src/Layer2/Dir/Sizes.antt =====
-- The sizes and offsets that add_dirent and remove_dirent compute, for a directory of `n` entries.
use filesystem.Bytes.{block_size}
use filesystem.Layer1.Mkfs.{sizeof_dir_ent}
use filesystem.Layer2.Dir.{dirent_offset, shrunk_size, entry_offset, last_offset}
use filesystem.Prelude.{ℕ, zero, suc, ◌+◌, ◌%◌, ◌≤◌, ◌<◌, max, ◌≡◌, arith}

-- The size of a directory with `n` entries: to the end of the last one.
pub dir_size : ℕ → ℕ
dir_size zero = 0
dir_size (suc n) = entry_offset n + sizeof_dir_ent

-- For the size of a directory of `n` entries, up to a million: it passes the test for a malformed one,
-- dirent_offset of it is where entry `n` begins, and the larger of it and the end of an entry there
-- is the size for `n + 1` entries. For that size, shrunk_size is the one for `n` entries again, and
-- last_offset is where entry `n` begins.
pub dirent_offset-dir_size :
    (n : ℕ)
    → n < 1000000
    → (dir_size n % block_size % sizeof_dir_ent ≡ 0)
      × (dirent_offset (dir_size n) ≡ entry_offset n)
      × (max (dir_size n) (dirent_offset (dir_size n) + sizeof_dir_ent) ≡ dir_size (suc n))
      × (shrunk_size (dir_size (suc n)) ≡ dir_size n)
      × (last_offset (dir_size (suc n)) ≡ entry_offset n)
unfolding dirent_offset shrunk_size last_offset dir_size
dirent_offset-dir_size zero h = ground arith
dirent_offset-dir_size (suc n) h = ground arith

-- An entry lies within one block, and behind the entries before it.
pub entry_offset-lt :
    (n k : ℕ)
    → k < n
    → (entry_offset k + sizeof_dir_ent ≤ entry_offset n)
      × (entry_offset n % block_size + sizeof_dir_ent ≤ block_size)
entry_offset-lt n k h = ground arith

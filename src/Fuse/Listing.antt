-- ===== src/Fuse/Listing.antt =====
-- The loop of fs_readdir on a directory that read_dir_page refuses.
use filesystem.Bytes.{Block}
use filesystem.Fuse.{fill_entries, fill_pages}
use filesystem.Layer0.{Superblock, Disk, Vol}
use filesystem.Layer1.Inode.Store.{stored, inode_read-done}
use filesystem.Layer1.Ready.{Ready}
use filesystem.Layer2.Dir.{is_dir, Page, read_dir_page}
use filesystem.Layer2.Perm.{Stat}
use filesystem.Prelude.{ℕ, zero, suc, ◌+◌, ◌<◌, ◌≡◌, refl, Bool, true, false, Option, arith}
use filesystem.Prelude.Run.{malformed_directory, err, done, diverge}

module _ {v : Vol} {sb : Superblock} {d : Disk} {n : ℕ} (r : Ready v sb d n) {F : Type 0}
    (filler : F → Block → ℕ → Option Stat → F × Bool) (k : ℕ) (valid : k < sb.num_inodes)
    (dir : is_dir (stored sb d k).mode ≡ true) (empty : (stored sb d k).size ≡ 0) where
  -- The page is refused, and what the caller's variables hold stays.
  read_dir_page-empty :
      (page : ℕ) (p : Page) → read_dir_page (suc k) page p v ≡ done (p, err malformed_directory) v
  unfolding read_dir_page
  read_dir_page-empty page p = ground (arith, inode_read-done r k valid)

  -- On a directory of size 0 the loop of fs_readdir does not end, however many rounds it is given: from
  -- the variables that it starts with, no round finds the last page.
  pub fill_pages-hangs :
      (fuel page : ℕ) (junk : Block) (acc : F)
      → fill_pages fuel filler (suc k) page (record { d = junk; entries = 0; last = false }) acc v
        ≡ diverge
  unfolding fill_pages fill_entries
  fill_pages-hangs zero page junk acc = refl
  fill_pages-hangs (suc fuel) page junk acc =
      rw (read_dir_page-empty page (record { d = junk; entries = 0; last = false }))
        (fill_pages-hangs fuel (page + 1) junk acc)

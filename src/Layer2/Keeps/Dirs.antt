-- ===== src/Layer2/Keeps/Dirs.antt =====
-- The directory and path calls of layer2.c keep a volume in use.
use filesystem.Bytes.{Block, block_size}
use filesystem.Layer0.{Superblock}
use filesystem.Layer1.Keeps.{
  MayLoop, never, keep_pure, keep_throw, keep_if, keep_bool, keep_attempt, keep_get, keep_bind,
  keep_seq, keep_option, keep_result,
}
use filesystem.Layer1.Keeps.Calls.{Keeps, inode_read-Keeps}
use filesystem.Layer1.Mkfs.{sizeof_dir_ent}
use filesystem.Layer2.Dir.{
  dirents_per_block, is_dir, Page, read_page, read_dir_page, find_entry, search_pages, search_dir,
  search_by_inum, search_by_name, add_dirent, entry_offset, last_offset, remove_dirent,
  read_full_blocks, read_dir_whole,
}
use filesystem.Layer2.Keeps.{read_i-Keeps, write_i-Keeps, truncate-Keeps}
use filesystem.Layer2.Perm.{check_permissions, get_stat}
use filesystem.Prelude.{ltb, ◌==◌, ℕ, zero, suc, ◌+◌, ◌*◌, ◌/◌, ◌%◌, Bool, not, List}
use filesystem.Prelude.Int.{pos}
use filesystem.Prelude.Run.{malformed_directory, not_dir, bad_index, not_in_dir, short}

module _ (sb : Superblock) (n : ℕ) where
  pub check_permissions-Keeps :
      (inum uid gid : ℕ) → Keeps MayLoop sb n (check_permissions inum uid gid)
  unfolding check_permissions
  check_permissions-Keeps inum uid gid =
      keep_bind (keep_attempt (inode_read-Keeps MayLoop sb n (pos inum))) λ r. keep_pure _

  pub get_stat-Keeps : (inum : ℕ) → Keeps MayLoop sb n (get_stat inum)
  unfolding get_stat
  get_stat-Keeps inum =
      keep_bind (keep_attempt (inode_read-Keeps MayLoop sb n (pos inum))) λ r. keep_pure _

  read_page-Keeps :
      (inum size page : ℕ) (p : Page) → Keeps MayLoop sb n (read_page inum size page p)
  unfolding read_page
  read_page-Keeps inum size page p =
      keep_if (ltb (size / block_size) page) (keep_pure _)
        (keep_bind (keep_attempt (read_i-Keeps sb n inum p.d _ _)) λ r. keep_pure _)

  pub read_dir_page-Keeps :
      (inum page : ℕ) (p : Page) → Keeps MayLoop sb n (read_dir_page inum page p)
  unfolding read_dir_page
  read_dir_page-Keeps inum page p =
      keep_bind (keep_attempt (inode_read-Keeps MayLoop sb n (pos inum))) λ r.
        keep_result r (λ e. keep_pure _)
          λ m. keep_if (not (is_dir m.mode)) (keep_pure _) (
            keep_if (m.size == 0) (keep_pure _) (
              keep_if (not (m.size % block_size % sizeof_dir_ent == 0)) (keep_pure _)
                (read_page-Keeps inum m.size page p)))

  search_pages-Keeps :
      (fuel : ℕ) (test : Block → ℕ → Bool) (inum cur : ℕ) (p : Page)
      → Keeps MayLoop sb n (search_pages fuel test inum cur p)
  unfolding search_pages
  search_pages-Keeps zero test inum cur p = record { keep = λ v u. never tt }
  search_pages-Keeps (suc fuel) test inum cur p = keep_bind (read_dir_page-Keeps inum cur p) λ r.
      keep_result r.1 (λ e. keep_throw not_dir)
        λ _.
          keep_option (find_entry test r.0.d 0 r.0.entries)
            (keep_bool r.0.last (keep_throw not_in_dir)
              (search_pages-Keeps fuel test inum (cur + 1) r.0))
            λ i. keep_pure _

  search_dir-Keeps :
      (test : Block → ℕ → Bool) (inum : ℕ) → Keeps MayLoop sb n (search_dir test inum)
  unfolding search_dir
  search_dir-Keeps test inum = keep_bind (inode_read-Keeps MayLoop sb n (pos inum)) λ m.
      keep_bind keep_get
        λ v. keep_if (not (is_dir m.mode)) (keep_throw not_dir) (search_pages-Keeps _ test inum 0 _)

  pub search_by_inum-Keeps :
      (inum search_num : ℕ) → Keeps MayLoop sb n (search_by_inum inum search_num)
  unfolding search_by_inum
  search_by_inum-Keeps inum search_num = keep_bind (search_dir-Keeps _ inum) λ r. keep_pure _

  pub search_by_name-Keeps :
      (inum : ℕ) (name : List ℕ) → Keeps MayLoop sb n (search_by_name inum name)
  unfolding search_by_name
  search_by_name-Keeps inum name = search_dir-Keeps _ inum

  pub add_dirent-Keeps : (inum : ℕ) (d : Block) → Keeps MayLoop sb n (add_dirent inum d)
  unfolding add_dirent
  add_dirent-Keeps inum d = keep_bind (inode_read-Keeps MayLoop sb n (pos inum)) λ m.
      keep_bool (is_dir m.mode)
        (keep_bool (m.size % block_size % sizeof_dir_ent == 0) (write_i-Keeps sb n inum d _ _)
          (keep_throw malformed_directory))
        (keep_throw not_dir)

  pub remove_dirent-Keeps : (inum index : ℕ) → Keeps MayLoop sb n (remove_dirent inum index)
  unfolding remove_dirent
  remove_dirent-Keeps inum index = keep_bind (inode_read-Keeps MayLoop sb n (pos inum)) λ m.
      keep_bind keep_get λ v. keep_if (not (is_dir m.mode)) (keep_throw not_dir) (
        keep_if (m.size == 0) (keep_throw bad_index) (
          keep_if (not (m.size % block_size % sizeof_dir_ent == 0)) (keep_throw malformed_directory)
            (keep_if (ltb (last_offset m.size) (entry_offset index)) (keep_throw bad_index) (
              keep_bind (keep_attempt (read_i-Keeps sb n inum v.junk _ _)) λ r.
                keep_bind (write_i-Keeps sb n inum _ _ _) λ written.
                  keep_if (not (written == sizeof_dir_ent)) (keep_throw (short written))
                    (keep_seq (keep_attempt (truncate-Keeps sb n inum _)) (keep_pure tt))))))

  read_full_blocks-Keeps :
      (inum i rounds : ℕ) (buf : Block) (at : ℕ)
      → Keeps MayLoop sb n (read_full_blocks inum i rounds buf at)
  unfolding read_full_blocks
  read_full_blocks-Keeps inum i zero buf at = keep_pure _
  read_full_blocks-Keeps inum i (suc rounds) buf at = keep_bind keep_get λ v.
      keep_bind (read_i-Keeps sb n inum v.junk _ _) λ r.
        keep_if (not (r.0 == dirents_per_block * sizeof_dir_ent)) (keep_throw (short r.0))
          (read_full_blocks-Keeps inum (i + 1) rounds _ _)

  pub read_dir_whole-Keeps : (inum : ℕ) (buf : Block) → Keeps MayLoop sb n (read_dir_whole inum buf)
  unfolding read_dir_whole
  read_dir_whole-Keeps inum buf = keep_bind (inode_read-Keeps MayLoop sb n (pos inum)) λ m.
      keep_bind keep_get λ v. keep_if (not (is_dir m.mode)) (keep_throw not_dir) (
        keep_if (m.size == 0) (keep_throw malformed_directory) (
          keep_if (not (m.size % block_size % sizeof_dir_ent == 0)) (keep_throw malformed_directory)
            (keep_bind (read_full_blocks-Keeps inum 0 _ buf 0) λ b.
              keep_bind (read_i-Keeps sb n inum v.junk _ _) λ r.
                keep_if (not (r.0 == m.size % block_size)) (keep_throw (short r.0)) (keep_pure _))))

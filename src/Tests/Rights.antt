-- ===== src/Tests/Rights.antt =====
-- The handlers that ask for a right, and opening and closing, at small volumes and the paths "/",
-- "/ab" and "/cd".
use filesystem.Bytes.{zero_block, u32_at, set_u32, words, set_words, copy, set_byte}
use filesystem.Fuse.{
  find_path, inode_or_junk, fs_mknod, fs_mkdir, find_removable, fs_unlink, fs_rmdir, fs_truncate,
  check_access, fs_open,
}
use filesystem.Fuse.Release.{Unchanged, open_release, fs_release-fs_open}
use filesystem.Fuse.Rights.{parent_of, target_of, can_write, can_enter, can_open, Permitted}
use filesystem.Fuse.Rights.Calls.{remove-Permitted, create-Permitted, fs_truncate-Permitted}
use filesystem.Fuse.Rights.Open.{fs_open-Permitted}
use filesystem.Layer0.{Disk, opened, block_index, read_block}
use filesystem.Layer1.Bitmap.{inode_create}
use filesystem.Layer1.Data.{data_read}
use filesystem.Layer1.Inode.{Inode, zero_inode, inode_words, inode_at, one_based, inode_read}
use filesystem.Layer1.Inode.Store.{stored_disk}
use filesystem.Layer1.Mkfs.{create_dir_base}
use filesystem.Layer1.Ready.{Ready, with_disk, Ready-with_disk}
use filesystem.Layer1.Super.{read_superblock}
use filesystem.Layer2.BlockMap.{int_pow, locate, get_root, descend, get_nth_datablock}
use filesystem.Layer2.Dir.{
  name_matches, read_page, read_dir_page, find_entry, search_pages, search_dir, search_by_name,
  remove_dirent,
}
use filesystem.Layer2.File.{read_blocks, read_i, truncate, del}
use filesystem.Layer2.OpenFiles.{Fs, lift, add_ref, fd_used, first_fd, oft_add, oft_attempt_delete}
use filesystem.Layer2.Path.{
  FilePath, tokens_from, tokens, last_name, step_into, walk, namei, store_padded, new_dir_ent,
  check_new, enter_new, new_file,
}
use filesystem.Layer2.Perm.{access_of, check_permissions}
use filesystem.Prelude.{◌==◌, if◌then◌else◌, ◌≡◌, refl, false, some, [], ◌∷◌}
use filesystem.Prelude.Run.{enospc, ok, err, done, pure, throw, ◌>>=◌, ◌>>◌, attempt, value}
use filesystem.Tests.{small_sb, small_disk, vol_with, small_Ready}
use filesystem.Tests.Files.{two_blocks}
use filesystem.Tests.Upper.{small_fs, small_IsTable}

abbrev ab : FilePath
ab = b'/' ∷ b'a' ∷ b'b' ∷ []

-- The volume with a file for its root, which its owner 0 may read and write, and the path "/".
abbrev open_disk : Disk
open_disk = stored_disk small_sb small_disk 0 two_blocks

abbrev open_fs : Fs
open_fs = record small_fs { vol = with_disk (vol_with small_sb) open_disk }

abbrev slash : FilePath
slash = b'/' ∷ []

open_Ready : Ready (with_disk (vol_with small_sb) open_disk) small_sb open_disk 12
open_Ready = Ready-with_disk small_Ready open_disk

opened_fd : value (fs_open slash 2 0 0 open_fs) ≡ some 13
unfolding fs_open find_path namei walk tokens tokens_from check_permissions inode_read
    read_superblock one_based read_block check_access access_of inode_at u32_at set_words
    inode_words copy set_u32 words inode_or_junk block_index opened oft_add first_fd fd_used add_ref
opened_fd = refl

-- The volume with a directory for its root, in the data block 4, and a file 2 in it with the path "/ab".
abbrev root_node : Inode
root_node = record zero_inode {
  mode = 16895;
  size = 522;
  direct_blocks = 4 ∷ 0 ∷ 0 ∷ 0 ∷ 0 ∷ 0 ∷ 0 ∷ 0 ∷ 0 ∷ 0 ∷ [];
}

abbrev dir_disk : Disk
dir_disk m =
    if m == 6 then new_dir_ent zero_block ab 2 else stored_disk small_sb small_disk 0 root_node m

abbrev dir_fs : Fs
dir_fs = record small_fs { vol = with_disk (vol_with small_sb) dir_disk }

abbrev cd : FilePath
cd = b'/' ∷ b'c' ∷ b'd' ∷ []

dir_Ready : Ready (with_disk (vol_with small_sb) dir_disk) small_sb dir_disk 12
dir_Ready = Ready-with_disk small_Ready dir_disk

removable_ab :
    value (find_removable false ab 1000 100 dir_fs.vol)
    ≡ some (record { parent_inum = 1; target_inum = 2; index = 0 })
unfolding find_removable find_path namei walk tokens tokens_from check_permissions inode_read
    read_superblock one_based read_block access_of inode_at u32_at set_words inode_words copy
    set_u32 words inode_or_junk block_index opened data_read descend get_nth_datablock get_root
    int_pow locate find_entry name_matches read_dir_page read_page search_by_name search_dir
    search_pages read_blocks read_i step_into store_padded set_byte last_name
removable_ab = refl

new_cd : value (check_new cd 1000 100 dir_fs.vol) ≡ some 1
unfolding check_new namei walk tokens tokens_from check_permissions inode_read read_superblock
    one_based read_block access_of inode_at u32_at set_words inode_words copy set_u32 words
    inode_or_junk block_index opened data_read descend get_nth_datablock get_root int_pow locate
    find_entry name_matches read_dir_page read_page search_by_name search_dir search_pages
    read_blocks read_i step_into store_padded set_byte last_name
new_cd = refl

remove-Permitted_example :
    Permitted
      (find_path ab 1000 100)
      1000
      100
      parent_of
      can_write
      (λ l.
        attempt (lift (remove_dirent l.parent_inum l.index))
        >> (oft_attempt_delete l.target_inum >> pure tt))
      dir_fs
      (fs_unlink ab 1000 100 dir_fs)
    × Permitted
        (find_path ab 1000 100)
        1000
        100
        parent_of
        can_write
        (λ l. lift (
          attempt (remove_dirent l.parent_inum l.index)
          >> (attempt (del l.target_inum) >> pure tt)))
        dir_fs
        (fs_rmdir ab 1000 100 dir_fs)
remove-Permitted_example = remove-Permitted {s = dir_fs} dir_Ready ab 1000 100

create-Permitted_example :
    Permitted
      (namei cd 1000 100)
      1000
      100
      parent_of
      can_enter
      (λ l. lift (
        attempt (inode_create (new_file 420 1000 100)) >>= λ q. elim q [
          | err _ ↦ throw enospc
          | ok inum ↦ enter_new cd l.parent_inum inum
        ]))
      dir_fs
      (fs_mknod cd 420 1000 100 dir_fs)
    × Permitted
        (namei cd 1000 100)
        1000
        100
        parent_of
        can_enter
        (λ l. lift (
          attempt (create_dir_base 420 1000 100 l.parent_inum) >>= λ q. elim q [
            | err _ ↦ throw enospc
            | ok inum ↦ enter_new cd l.parent_inum inum
          ]))
        dir_fs
        (fs_mkdir cd 420 1000 100 dir_fs)
create-Permitted_example = create-Permitted {s = dir_fs} dir_Ready cd 420 1000 100

fs_truncate-Permitted_example :
    Permitted
      (find_path slash 0 0)
      0
      0
      target_of
      can_write
      (λ l. lift (attempt (truncate l.target_inum 5) >> pure tt))
      open_fs
      (fs_truncate slash 5 0 0 open_fs)
fs_truncate-Permitted_example = fs_truncate-Permitted {s = open_fs} open_Ready slash 5 0 0

fs_open-Permitted_example :
    Permitted
      (find_path slash 0 0)
      0
      0
      target_of
      (can_open 2)
      (λ l t. done (oft_add l.target_inum 2 t).1 (oft_add l.target_inum 2 t).0)
      open_fs
      (fs_open slash 2 0 0 open_fs)
fs_open-Permitted_example = fs_open-Permitted {s = open_fs} open_Ready slash 2 0 0

fs_release-fs_open_example : Unchanged open_fs (open_release slash 2 0 0 open_fs)
fs_release-fs_open_example = fs_release-fs_open {s = open_fs} open_Ready slash 2 0 0 small_IsTable

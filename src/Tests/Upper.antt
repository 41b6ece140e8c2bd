-- ===== src/Tests/Upper.antt =====
-- The theorems of layer 2 and of the handlers, at small tables, paths and volumes.
use filesystem.Bytes.{block_size, zero_block, u32_at, set_u32, words, set_words}
use filesystem.Fuse.{fs_init, fill_pages, fs_read, fs_release}
use filesystem.Fuse.History.{Leaves, read, release, start, then_call, Reach-Mounted}
use filesystem.Fuse.Listing.{fill_pages-hangs}
use filesystem.Fuse.Mounted.{Mounted}
use filesystem.Fuse.Start.{Started, fs_init-Started}
use filesystem.Layer0.{Disk}
use filesystem.Layer1.Inode.{Inode, zero_inode, inode_words, inode_at}
use filesystem.Layer1.Inode.Store.{stored}
use filesystem.Layer1.Keeps.{NoLoop, Ends}
use filesystem.Layer1.Mkfs.{filebuf_size, sizeof_dir_ent}
use filesystem.Layer1.Ready.{Ready, Ready-with_disk}
use filesystem.Layer2.BlockMap.{locate}
use filesystem.Layer2.BlockMap.Locate.{Located, locate-Located}
use filesystem.Layer2.Dir.{
  is_dir, entry_inum, name_matches, search_by_name, dirent_offset, shrunk_size, entry_offset,
  last_offset,
}
use filesystem.Layer2.Dir.Sizes.{dir_size, dirent_offset-dir_size, entry_offset-lt}
use filesystem.Layer2.OpenFiles.{
  OftInode, OftFd, Fs, oft_add, drop_fd, drop_ref, oft_remove, oft_attempt_delete, oft_lookup,
}
use filesystem.Layer2.OpenFiles.Add.{Added, oft_add-Added}
use filesystem.Layer2.OpenFiles.Close.{
  Closed, oft_remove-Closed, Unlinked, oft_attempt_delete-Unlinked,
}
use filesystem.Layer2.OpenFiles.Table.{IsTable}
use filesystem.Layer2.Path.{max_filename, FilePath, tokens, last_name, new_dir_ent}
use filesystem.Layer2.Path.Entry.{AllChars, same_name, new_dir_ent-matches}
use filesystem.Layer2.Path.Names.{tokens-last_name}
use filesystem.Layer2.Reads.Search.{search_by_name-Ends}
use filesystem.Prelude.{
  ◌==◌, if◌then◌else◌, length, ℕ, ◌+◌, ◌%◌, ◌≤◌, max, ◌≡◌, refl, true, false, none, some, List, [],
  ◌∷◌, arith,
}
use filesystem.Prelude.Run.{diverge, Returns}
use filesystem.Tests.{small_sb, small_disk, vol_with, small_Ready}

-- The inode 4 is open twice and marked for deletion, the inode 7 is open once.
abbrev table_inodes : List OftInode
table_inodes =
    record { inum = 4; ref = 2; pending_deletion = true }
    ∷ record { inum = 7; ref = 1; pending_deletion = false }
    ∷ []

abbrev table_fds : List OftFd
table_fds =
    record { fd = 10; fd_inum = 4; flags = 2 }
    ∷ record { fd = 11; fd_inum = 7; flags = 0 }
    ∷ record { fd = 12; fd_inum = 4; flags = 1 }
    ∷ []

abbrev pub small_fs : Fs
small_fs = record { vol = vol_with small_sb; oft_inodes = table_inodes; oft_fds = table_fds }

pub small_IsTable : IsTable table_inodes table_fds
small_IsTable = record {
  counted = λ i. ground arith;
  single_inode = λ i. ground arith;
  single_fd = λ x. ground arith;
  referenced = ground arith;
}

oft_add-Added_example : Added 4 0 small_fs (oft_add 4 0 small_fs).0 (oft_add 4 0 small_fs).1
oft_add-Added_example = oft_add-Added 4 0 small_fs small_IsTable

looked_up_11 : oft_lookup 11 table_fds ≡ some (7, 0)
unfolding oft_lookup
looked_up_11 = refl

oft_remove-Closed_example : Closed 11 7 small_fs (oft_remove 11 small_fs)
oft_remove-Closed_example = oft_remove-Closed 11 small_fs small_IsTable looked_up_11

oft_attempt_delete-Unlinked_example : Unlinked 7 small_fs (oft_attempt_delete 7 small_fs)
oft_attempt_delete-Unlinked_example = oft_attempt_delete-Unlinked 7 small_fs small_IsTable

small_Mounted : Mounted small_sb 12 small_fs
small_Mounted = record {
  volume = record {
    now = small_sb;
    disk_now = small_disk;
    ready = small_Ready;
    same = ground arith;
  };
  table = small_IsTable;
}

-- The descriptor 12 is closed, and a read from it then fails.
abbrev closed_fs : Fs
closed_fs = record small_fs {
  oft_inodes =
      record { inum = 4; ref = 1; pending_deletion = true }
      ∷ record { inum = 7; ref = 1; pending_deletion = false }
      ∷ [];
  oft_fds =
      record { fd = 10; fd_inum = 4; flags = 2 } ∷ record { fd = 11; fd_inum = 7; flags = 0 } ∷ [];
}

close_12 : Leaves (fs_release 12 small_fs) closed_fs
unfolding fs_release oft_remove drop_fd drop_ref
close_12 = refl

read_12 : Leaves (fs_read zero_block 5 0 0 12 closed_fs) closed_fs
unfolding fs_read oft_lookup
read_12 = refl

Reach-Mounted_example : Mounted small_sb 12 closed_fs
Reach-Mounted_example =
    Reach-Mounted small_Mounted
      (then_call (then_call start (release 12 close_12)) (read zero_block 5 0 0 12 read_12))

-- Before fs_init nothing is set.
abbrev unmounted : Fs
unmounted = record {
  vol = record { disk = none; total_blocks = none; cached_superblock = none; junk = zero_block };
  oft_inodes = [];
  oft_fds = [];
}

empty_IsTable : IsTable [] []
empty_IsTable = record {
  counted = λ i. refl;
  single_inode = λ i. omega arith;
  single_fd = λ x. omega arith;
  referenced = tt;
}

-- Memory that malloc returns, with some contents.
abbrev memory : Disk
memory b o = 85

fs_init-Started_example :
    Returns (λ _ u. Started 1000 100 unmounted u) (fs_init (some memory) 1000 100 unmounted)
fs_init-Started_example = fs_init-Started memory 1000 100 unmounted empty_IsTable

locate-Located_example : Located 1050000 (locate 1050000)
locate-Located_example = locate-Located 1050000

dirent_offset-dir_size_example :
    (dir_size 15 % block_size % sizeof_dir_ent ≡ 0)
    × (dirent_offset (dir_size 15) ≡ entry_offset 15)
    × (max (dir_size 15) (dirent_offset (dir_size 15) + sizeof_dir_ent) ≡ dir_size 16)
    × (shrunk_size (dir_size 16) ≡ dir_size 15)
    × (last_offset (dir_size 16) ≡ entry_offset 15)
dirent_offset-dir_size_example = dirent_offset-dir_size 15 (omega arith)

entry_offset-lt_example :
    (entry_offset 14 + sizeof_dir_ent ≤ entry_offset 15)
    × (entry_offset 15 % block_size + sizeof_dir_ent ≤ block_size)
entry_offset-lt_example = entry_offset-lt 15 14 (omega arith)

-- "/ab/c"
abbrev ab_c : FilePath
ab_c = b'/' ∷ b'a' ∷ b'b' ∷ b'/' ∷ b'c' ∷ []

abbrev name_c : List ℕ
name_c = b'c' ∷ []

last_c : last_name ab_c [] ≡ name_c
unfolding last_name
last_c = refl

c_AllChars : AllChars (last_name ab_c [])
c_AllChars = rw last_c (ground arith)

c_short : length (last_name ab_c []) ≤ max_filename
c_short = rw last_c (omega arith)

new_dir_ent-matches_example :
    (name_matches name_c (new_dir_ent zero_block ab_c 9) 0 filebuf_size
      ≡ same_name (last_name ab_c []) name_c)
    × (entry_inum (new_dir_ent zero_block ab_c 9) 0 ≡ 9)
new_dir_ent-matches_example =
    new_dir_ent-matches zero_block ab_c name_c 9 c_AllChars (ground arith) c_short (omega arith)

tokens-last_name_example :
    (tokens ab_c ≡ (b'a' ∷ b'b' ∷ []) ∷ name_c ∷ []) × (last_name ab_c [] ≡ name_c)
tokens-last_name_example =
    tokens-last_name ((b'a' ∷ b'b' ∷ []) ∷ []) name_c (ground arith) (ground arith)

-- A volume whose inode 3 is a directory of size 0.
abbrev bad_inode_3 : Inode
bad_inode_3 = record zero_inode { mode = 16895 }

abbrev bad_disk : Disk
unfolding set_words inode_words set_u32
bad_disk m = if m == 2 then set_words zero_block 160 (inode_words bad_inode_3) else zero_block

bad_Ready : Ready (record (vol_with small_sb) { disk = some bad_disk }) small_sb bad_disk 12
bad_Ready = Ready-with_disk small_Ready bad_disk

bad_dir :
    (is_dir (stored small_sb bad_disk 2).mode ≡ true) × ((stored small_sb bad_disk 2).size ≡ 0)
unfolding set_words inode_words set_u32 inode_at u32_at words
bad_dir = (refl, refl)

fill_pages-hangs_example :
    fill_pages 100
      (λ (acc : ℕ) b o s. (acc + 1, false))
      3
      0
      (record { d = zero_block; entries = 0; last = false })
      0
      (record (vol_with small_sb) { disk = some bad_disk })
    ≡ diverge
fill_pages-hangs_example =
    fill_pages-hangs bad_Ready (λ (acc : ℕ) b o s. (acc + 1, false)) 2 (omega arith) bad_dir.0
      bad_dir.1 100 0 zero_block 0

search_by_name-Ends_example :
    Ends NoLoop
      (λ s. s ≡ record (vol_with small_sb) { disk = some bad_disk })
      (search_by_name 3 name_c (record (vol_with small_sb) { disk = some bad_disk }))
search_by_name-Ends_example = search_by_name-Ends bad_Ready 3 name_c

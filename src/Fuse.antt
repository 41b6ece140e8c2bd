-- ===== src/Fuse.antt =====
-- fusemain.c: the handlers that FUSE calls. The user and group of the caller, which the source takes
-- from fuse_get_context, are arguments, and a path is the list of its characters. A handler returns 0
-- or a negative error number; one that fails in the layers below passes the code on.
pub mod Mounted
pub mod Handlers
pub mod Start
pub mod Contents
pub mod History
pub mod Listing
pub mod Rights
pub mod Reading
pub mod Release
use filesystem.Bytes.{Block}
use filesystem.Layer0.{Disk, Op}
use filesystem.Layer1.FreeList.Entries.{entries}
use filesystem.Layer1.Inode.{Inode, invalid_inode, inode_at, inode_read}
use filesystem.Layer1.Mkfs.{sizeof_dir_ent, mkfs}
use filesystem.Layer2.Dir.{is_dir, entry_inum, Page, read_dir_page, remove_dirent}
use filesystem.Layer2.File.{read_i, write_i, truncate, del}
use filesystem.Layer2.OpenFiles.{Fs, lift, oft_add, oft_remove, oft_attempt_delete, oft_lookup}
use filesystem.Layer2.Path.{FilePath, Lookup, namei, mkdir_fs, mknod_fs}
use filesystem.Layer2.Perm.{Access, check_permissions, Stat, get_stat}
use filesystem.Prelude.{
  ◌==◌, if◌then◌else◌, ℕ, zero, suc, ◌+◌, ◌*◌, bit_and, Bool, true, false, ◌&&◌, ◌||◌, not, Option,
  none, some,
}
use filesystem.Prelude.Int.{pos, to_int}
use filesystem.Prelude.Run.{
  data_full, eacces, enoent, enotdir, enospc, eisdir, einval, ebadf, Result, ok, err, Run, done,
  fail, diverge, pure, throw, get, and_then, ◌>>=◌, ◌>>◌, attempt, from_result,
}

abbrev pub Handler : Type 0 → Type 0
Handler A = Fs → Run Fs A

-- The lookup that the handlers begin with: the target exists.
unfoldable pub find_path : FilePath → (uid gid : ℕ) → Op Lookup
find_path path uid gid = do
  l ← namei path uid gid
  if l.target_inum == invalid_inode then throw enoent else pure l

-- `my_inode` after an inode_read whose status is dropped.
unfoldable pub inode_or_junk : (inum : ℕ) → Op Inode
inode_or_junk inum = do
  v ← get
  r ← attempt (inode_read (pos inum))
  pure (elim r [ ok n ↦ n | err _ ↦ inode_at v.junk 0 ])

-- `mem` is what malloc returns. uid_t and gid_t are narrowed to int. The status of mkfs is dropped.
unfoldable pub fs_init : (mem : Option Disk) → (uid gid : ℕ) → Handler (Unit {0})
fs_init mem uid gid = do attempt (lift (mkfs mem (pos 40000) (to_int uid) (to_int gid))); pure tt

unfoldable pub fs_getattr : FilePath → (uid gid : ℕ) → Handler (Option Stat)
fs_getattr path uid gid = lift (do
  l ← find_path path uid gid
  a ← check_permissions l.parent_inum uid gid
  if not a.read then throw eacces else get_stat l.target_inum)

-- The scan of a page by fs_readdir, over the entries left: `filler` takes the offset of a name in the
-- page and the entry's data, and says whether to stop. It keeps what it collects in `F`.
unfoldable pub fill_entries :
    {F : Type 0} (filler : F → Block → ℕ → Option Stat → F × Bool) (d : Block) (i rounds : ℕ)
    → F
    → Op (F × Bool)
fill_entries filler d i zero acc = pure (acc, false)
fill_entries filler d i (suc rounds) acc = do
  s ← get_stat (entry_inum d i)
  let r = filler acc d (sizeof_dir_ent * i) s
  if r.1 then pure r else fill_entries filler d (i + 1) rounds r.0

-- The loop of fs_readdir over the pages, from `page`. The status of read_dir_page is dropped, so
-- that nothing bounds the number of rounds; the fuel is a number of pages.
unfoldable pub fill_pages :
    {F : Type 0} (fuel : ℕ) (filler : F → Block → ℕ → Option Stat → F × Bool) (inum page : ℕ)
    → Page
    → F
    → Op F
fill_pages zero filler inum page p acc = λ _. diverge
fill_pages (suc fuel) filler inum page p acc = do
  (q, _) ← read_dir_page inum page p
  (acc', stopped) ← fill_entries filler q.d 0 q.entries acc
  if stopped || q.last then pure acc' else fill_pages fuel filler inum (page + 1) q acc'

unfoldable pub fs_readdir :
    {F : Type 0} (fuel : ℕ) (filler : F → Block → ℕ → Option Stat → F × Bool)
    → F
    → FilePath
    → (uid gid : ℕ) → Handler F
fs_readdir fuel filler acc path uid gid = lift (do
  l ← find_path path uid gid
  n ← inode_or_junk l.target_inum
  v ← get
  if not (is_dir n.mode)
      then throw enotdir
      else fill_pages fuel filler l.target_inum 0 (record { d = v.junk; entries = 0; last = false })
          acc)

unfoldable pub fs_mknod : FilePath → (mode uid gid : ℕ) → Handler (Unit {0})
fs_mknod path mode uid gid = lift (mknod_fs path mode uid gid)

unfoldable pub fs_mkdir : FilePath → (mode uid gid : ℕ) → Handler (Unit {0})
fs_mkdir path mode uid gid = lift (mkdir_fs path mode uid gid)

-- The tests of fs_unlink and fs_rmdir, for the kind of file that each removes.
unfoldable pub find_removable : (want_dir : Bool) → FilePath → (uid gid : ℕ) → Op Lookup
find_removable want_dir path uid gid = do
  l ← find_path path uid gid
  n ← inode_or_junk l.target_inum
  a ← check_permissions l.parent_inum uid gid
  if is_dir n.mode && not want_dir
      then throw eisdir
      else if not (is_dir n.mode) && want_dir
      then throw enotdir
      else if not a.write
      then throw eacces
      else pure l

-- The entry goes at once, the file when it is closed everywhere.
unfoldable pub fs_unlink : FilePath → (uid gid : ℕ) → Handler (Unit {0})
fs_unlink path uid gid = do
  l ← lift (find_removable false path uid gid)
  attempt (lift (remove_dirent l.parent_inum l.index))
  oft_attempt_delete l.target_inum
  pure tt

unfoldable pub fs_rmdir : FilePath → (uid gid : ℕ) → Handler (Unit {0})
fs_rmdir path uid gid = lift (do
  l ← find_removable true path uid gid
  attempt (remove_dirent l.parent_inum l.index)
  attempt (del l.target_inum)
  pure tt)

unfoldable pub fs_truncate : FilePath → (size uid gid : ℕ) → Handler (Unit {0})
fs_truncate path size uid gid = lift (do
  l ← find_path path uid gid
  n ← inode_or_junk l.target_inum
  a ← check_permissions l.target_inum uid gid
  if is_dir n.mode
      then throw eisdir
      else if not a.write
      then throw eacces
      else (do attempt (truncate l.target_inum size); pure tt))

-- O_ACCMODE, O_RDONLY, O_WRONLY, O_RDWR, O_APPEND
abbrev pub access_mode : ℕ → ℕ
access_mode flags = bit_and flags 3

abbrev pub o_rdonly : ℕ
o_rdonly = 0

abbrev pub o_wronly : ℕ
o_wronly = 1

abbrev pub o_rdwr : ℕ
o_rdwr = 2

abbrev pub o_append : ℕ
o_append = 0o2000

-- The permissions that a mode of access wants.
unfoldable pub check_access : (flags : ℕ) → Access → Result (Unit {0})
check_access flags a =
    let m : ℕ = access_mode flags in
    if m == o_rdonly
    then (if a.read then ok tt else err eacces)
    else if m == o_wronly
    then (if a.write then ok tt else err eacces)
    else if m == o_rdwr
    then (if a.read && a.write then ok tt else err eacces)
    else err einval

-- The descriptor, which goes to `fi->fh`.
unfoldable pub fs_open : FilePath → (flags uid gid : ℕ) → Handler ℕ
fs_open path flags uid gid = do
  l ← lift (find_path path uid gid)
  a ← lift (check_permissions l.target_inum uid gid)
  from_result (check_access flags a)
  n ← lift (inode_or_junk l.target_inum)
  if is_dir n.mode && (access_mode flags == o_wronly || access_mode flags == o_rdwr)
      then throw eisdir
      else λ s. let (t, fd) = oft_add l.target_inum flags s in done fd t

-- `fi_flags` and `fh` are the fields of `fi`. The number of bytes and the buffer.
unfoldable pub fs_read : (buf : Block) (size offset fi_flags fh : ℕ) → Handler (ℕ × Block)
fs_read buf size offset fi_flags fh s = elim (oft_lookup fh s.oft_fds) [
  | none ↦ fail ebadf s
  | some (inum, flags) ↦
      if access_mode fi_flags == o_rdwr || access_mode fi_flags == o_rdonly
      then lift (read_i inum buf offset size) s
      else fail ebadf s
]

-- The offset of a write: the end of the file, if it was opened to append.
unfoldable pub write_offset : (inum flags offset : ℕ) → Op ℕ
write_offset inum flags offset = if bit_and flags o_append == 0 then pure offset else (do
  r ← attempt (inode_read (pos inum))
  elim r [ err _ ↦ throw ebadf | ok n ↦ pure n.size ])

-- The result of a write, with DATA_FULL as -ENOSPC.
abbrev pub as_enospc : {A : Type 0} → Result A → Result A
as_enospc (err data_full) = err enospc
as_enospc r = r

unfoldable pub fs_write : (buf : Block) (size offset fi_flags fh : ℕ) → Handler ℕ
fs_write buf size offset fi_flags fh s = elim (oft_lookup fh s.oft_fds) [
  | none ↦ fail ebadf s
  | some (inum, flags) ↦
      if access_mode fi_flags == o_rdwr || access_mode fi_flags == o_wronly
      then and_then (lift (write_offset inum flags offset) s) (λ actual.
        attempt (lift (write_i inum buf actual size)) >>= λ r. from_result (as_enospc r))
      else fail ebadf s
]

-- The status of oft_remove is dropped.
unfoldable pub fs_release : (fh : ℕ) → Handler (Unit {0})
fs_release fh = do oft_remove fh; pure tt

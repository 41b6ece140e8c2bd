-- ===== src/Fuse/Rights/Calls.antt =====
-- Which right the handlers of fusemain.c that create, remove and cut files ask for.
use filesystem.Fuse.{
  find_path, inode_or_junk, fs_mknod, fs_mkdir, find_removable, fs_unlink, fs_rmdir, fs_truncate,
}
use filesystem.Fuse.Rights.{
  parent_of, target_of, can_write, can_enter, Guarded, passed, Permitted, then_handler, then_op,
  then_lift, find_path-Reads, inode_or_junk-Reads, guard_bind, other_test, right_test,
}
use filesystem.Layer0.{Superblock, Disk, Vol, Op}
use filesystem.Layer1.Bitmap.{inode_create}
use filesystem.Layer1.Mkfs.{create_dir_base}
use filesystem.Layer1.Ready.{Ready}
use filesystem.Layer2.Dir.{is_dir, remove_dirent}
use filesystem.Layer2.File.{truncate, del}
use filesystem.Layer2.OpenFiles.{Fs, lift, oft_attempt_delete}
use filesystem.Layer2.Path.{FilePath, namei, check_new, enter_new, mkdir_fs, new_file, mknod_fs}
use filesystem.Layer2.Perm.{check_permissions}
use filesystem.Layer2.Reads.Paths.{check_permissions-Reads, namei-Reads}
use filesystem.Prelude.{◌==◌, if◌then◌else◌, ℕ, refl, Bool, true, false, ◌&&◌, ◌||◌, not, arith}
use filesystem.Prelude.Run.{
  eacces, enospc, eisdir, ok, err, done, pure, throw, ◌>>=◌, ◌>>◌, attempt,
}

-- The body of fs_truncate below the lift.
abbrev fs_truncate_call : FilePath → (size uid gid : ℕ) → Op (Unit {0})
fs_truncate_call path size uid gid = do
  l ← find_path path uid gid
  m ← inode_or_junk l.target_inum
  a ← check_permissions l.target_inum uid gid
  if is_dir m.mode
      then throw eisdir
      else if not a.write
      then throw eacces
      else (do attempt (truncate l.target_inum size); pure tt)

module _ {v : Vol} {sb : Superblock} {d : Disk} {n : ℕ} (r : Ready v sb d n) where
  find_removable-Guarded :
      (want_dir : Bool) (path : FilePath) (uid gid : ℕ)
      → Guarded
          (find_path path uid gid)
          uid
          gid
          parent_of
          can_write
          v
          (λ l. done l v)
          (find_removable want_dir path uid gid v)
  unfolding find_removable
  find_removable-Guarded want_dir path uid gid =
      guard_bind r _ (find_path-Reads r path uid gid) λ l f.
        guard_bind r _ (inode_or_junk-Reads r l.target_inum) λ m _.
          guard_bind r _ (check_permissions-Reads r l.parent_inum uid gid) λ a c.
            other_test r (is_dir m.mode && not want_dir) _ _ (
              other_test r (not (is_dir m.mode) && want_dir) _ _
                (right_test r (not a.write) _ _ λ h. passed l a f c (ground (arith, h)) refl))

  check_new-Guarded :
      (path : FilePath) (uid gid : ℕ)
      → Guarded
          (namei path uid gid)
          uid
          gid
          parent_of
          can_enter
          v
          (λ l. done l.parent_inum v)
          (check_new path uid gid v)
  unfolding check_new
  check_new-Guarded path uid gid = guard_bind r _ (namei-Reads r path uid gid) λ l f.
      guard_bind r _ (check_permissions-Reads r l.parent_inum uid gid) λ a c.
        right_test r (not a.read || not a.exec || not a.write) _ _
          λ h. other_test r (not (l.target_inum == 0)) _ _ (passed l a f c (ground (arith, h)) refl)

  truncate-Guarded :
      (path : FilePath) (size uid gid : ℕ)
      → Guarded
          (find_path path uid gid)
          uid
          gid
          target_of
          can_write
          v
          (λ l. (attempt (truncate l.target_inum size) >> pure tt) v)
          (fs_truncate_call path size uid gid v)
  truncate-Guarded path size uid gid = guard_bind r _ (find_path-Reads r path uid gid) λ l f.
      guard_bind r _ (inode_or_junk-Reads r l.target_inum) λ m _.
        guard_bind r _ (check_permissions-Reads r l.target_inum uid gid) λ a c.
          other_test r (is_dir m.mode) _ _
            (right_test r (not a.write) _ _ λ h. passed l a f c (ground (arith, h)) refl)

module _ {s : Fs} {sb : Superblock} {d : Disk} {n : ℕ} (r : Ready s.vol sb d n) where
  -- On a volume in use fs_unlink and fs_rmdir fail and leave everything as it was, or the caller has
  -- the right to write the directory that the entry stands in, and the call is remove_dirent at that
  -- entry, its status dropped, and behind it oft_attempt_delete (fs_unlink) or del (fs_rmdir) of the
  -- file that was found.
  pub remove-Permitted :
      (path : FilePath) (uid gid : ℕ)
      → Permitted
          (find_path path uid gid)
          uid
          gid
          parent_of
          can_write
          (λ l.
            attempt (lift (remove_dirent l.parent_inum l.index))
            >> (oft_attempt_delete l.target_inum >> pure tt))
          s
          (fs_unlink path uid gid s)
        × Permitted
            (find_path path uid gid)
            uid
            gid
            parent_of
            can_write
            (λ l. lift (
              attempt (remove_dirent l.parent_inum l.index)
              >> (attempt (del l.target_inum) >> pure tt)))
            s
            (fs_rmdir path uid gid s)
  unfolding fs_unlink fs_rmdir
  remove-Permitted path uid gid = (
    then_handler (find_removable false path uid gid) (λ l. l) _
        (find_removable-Guarded r false path uid gid),
    then_op (find_removable true path uid gid) (λ l. l) _
        (find_removable-Guarded r true path uid gid),
  )

  -- On a volume in use fs_mknod and fs_mkdir fail and leave everything as it was, or the caller has the
  -- rights to read, to write and to search the directory of the new entry, and the call is the making of
  -- an inode, which fails with ENOSPC where none is made, and behind it enter_new of that inode in
  -- that directory.
  pub create-Permitted :
      (path : FilePath) (mode uid gid : ℕ)
      → Permitted
          (namei path uid gid)
          uid
          gid
          parent_of
          can_enter
          (λ l. lift (
            attempt (inode_create (new_file mode uid gid)) >>= λ q. elim q [
              | err _ ↦ throw enospc
              | ok inum ↦ enter_new path l.parent_inum inum
            ]))
          s
          (fs_mknod path mode uid gid s)
        × Permitted
            (namei path uid gid)
            uid
            gid
            parent_of
            can_enter
            (λ l. lift (
              attempt (create_dir_base mode uid gid l.parent_inum) >>= λ q. elim q [
                | err _ ↦ throw enospc
                | ok inum ↦ enter_new path l.parent_inum inum
              ]))
            s
            (fs_mkdir path mode uid gid s)
  unfolding fs_mknod mknod_fs fs_mkdir mkdir_fs
  create-Permitted path mode uid gid = (
    then_op (check_new path uid gid) (λ l. l.parent_inum) _ (check_new-Guarded r path uid gid),
    then_op (check_new path uid gid) (λ l. l.parent_inum) _ (check_new-Guarded r path uid gid),
  )

  -- On a volume in use fs_truncate fails and leaves everything as it was, or the caller has the right to
  -- write the file that is cut.
  pub fs_truncate-Permitted :
      (path : FilePath) (size uid gid : ℕ)
      → Permitted
          (find_path path uid gid)
          uid
          gid
          target_of
          can_write
          (λ l. lift (attempt (truncate l.target_inum size) >> pure tt))
          s
          (fs_truncate path size uid gid s)
  unfolding fs_truncate
  fs_truncate-Permitted path size uid gid =
      then_lift (fs_truncate_call path size uid gid)
        (λ l. attempt (truncate l.target_inum size) >> pure tt)
        (truncate-Guarded r path size uid gid)

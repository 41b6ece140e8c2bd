-- ===== src/Fuse/Handlers.antt =====
-- Every handler keeps what Mounted says.
use filesystem.Fuse.{
  find_path, inode_or_junk, fs_getattr, find_removable, fs_unlink, fs_rmdir, fs_truncate,
  access_mode, o_wronly, o_rdwr, check_access, fs_open,
}
use filesystem.Fuse.Mounted.{Mounted, KeepsMounted, keep_lift, keep_from_result}
use filesystem.Layer0.{Superblock, Vol}
use filesystem.Layer1.Inode.{invalid_inode}
use filesystem.Layer1.Keeps.{
  InUse, MayLoop, Ends, well, badly, never, keep_pure, keep_throw, keep_if, keep_attempt, keep_get,
  keep_bind, keep_seq,
}
use filesystem.Layer1.Keeps.Calls.{Keeps, inode_read-Keeps}
use filesystem.Layer2.Dir.{is_dir}
use filesystem.Layer2.Keeps.{truncate-Keeps, del-Keeps}
use filesystem.Layer2.Keeps.Dirs.{check_permissions-Keeps, get_stat-Keeps, remove_dirent-Keeps}
use filesystem.Layer2.Keeps.Paths.{namei-Keeps}
use filesystem.Layer2.OpenFiles.{
  OftInode, OftFd, Fs, lifted, oft_add, oft_remove, oft_attempt_delete, oft_lookup,
}
use filesystem.Layer2.OpenFiles.Add.{oft_add-Added}
use filesystem.Layer2.OpenFiles.Close.{
  Closed, oft_remove-Closed, oft_remove-unused, Unlinked, oft_attempt_delete-Unlinked,
}
use filesystem.Layer2.OpenFiles.Remove.{pending}
use filesystem.Layer2.OpenFiles.Table.{opens, fd_count, IsTable}
use filesystem.Layer2.Path.{FilePath}
use filesystem.Prelude.{
  ◌==◌, if◌then◌else◌, Option-cases, ℕ, ◌≡◌, refl, inl, inr, Bool, true, false, ◌&&◌, ◌||◌, not,
  none, List, [], ◌∷◌, arith,
}
use filesystem.Prelude.Int.{pos}
use filesystem.Prelude.Run.{eacces, enoent, enotdir, eisdir, Run, done, and_then, caught}

lookup-count : (fd : ℕ) (fs : List OftFd) → oft_lookup fd fs ≡ none → fd_count fd fs ≡ 0
unfolding oft_lookup
lookup-count fd [] e = refl
lookup-count fd (f ∷ fs) e = ground (arith, lookup-count fd fs)

module _ (sb : Superblock) (n : ℕ) where
  -- The deletion of a file, between the two updates of the table.
  Ends-deleted :
      {A : Type 0} (s : Fs) {r : Run Vol A} {ns : List OftInode}
      → IsTable ns s.oft_fds
      → Ends MayLoop (InUse sb n) r
      → Ends MayLoop
          (Mounted sb n)
          (and_then (caught (lifted s r)) (λ _ t. done true (record t { oft_inodes = ns })))
  Ends-deleted s t (well u) = well (record { volume = u; table = t })
  Ends-deleted s t (badly u) = well (record { volume = u; table = t })
  Ends-deleted s t (never d) = never d

  pub Ends-if :
      {A : Type 0} (b : Bool) {r r' : Run Fs A}
      → Ends MayLoop (Mounted sb n) r
      → Ends MayLoop (Mounted sb n) r'
      → Ends MayLoop (Mounted sb n) (if b then r else r')
  Ends-if true e e' = e
  Ends-if false e e' = e'

  Ends-Closed :
      (fd i : ℕ) (s : Fs) {r : Run Fs Bool}
      → Mounted sb n s
      → Closed fd i s r
      → Ends MayLoop (Mounted sb n) r
  Ends-Closed fd i s h c = rw c.runs (
      Ends-if (opens i s.oft_fds == 1 && pending i s.oft_inodes)
        (Ends-deleted (record s { oft_fds = c.fds }) c.table
          ((del-Keeps sb n i).keep s.vol h.volume))
        (well (record { volume = h.volume; table = c.table })))

  Ends-remove : (fd : ℕ) (s : Fs) → Mounted sb n s → Ends MayLoop (Mounted sb n) (oft_remove fd s)
  Ends-remove fd s h = elim (Option-cases (oft_lookup fd s.oft_fds)) [
    | inl e ↦ rw (oft_remove-unused fd s (lookup-count fd s.oft_fds e)) (well h)
    | inr ((i, flags), e) ↦
        Ends-Closed fd i s h (oft_remove-Closed fd s {i = i} {flags = flags} h.table e)
  ]

  pub oft_remove-Mounted : (fd : ℕ) → KeepsMounted sb n (oft_remove fd)
  oft_remove-Mounted fd = record { keep = λ s h. Ends-remove fd s h }

  Ends-deleted_only :
      {A : Type 0} (s : Fs) {r : Run Vol A}
      → Mounted sb n s
      → Ends MayLoop (InUse sb n) r
      → Ends MayLoop (Mounted sb n) (and_then (caught (lifted s r)) (λ _ t. done true t))
  Ends-deleted_only s h (well u) = well (record { volume = u; table = h.table })
  Ends-deleted_only s h (badly u) = well (record { volume = u; table = h.table })
  Ends-deleted_only s h (never d) = never d

  Ends-Unlinked :
      (i : ℕ) (s : Fs) {r : Run Fs Bool}
      → Mounted sb n s
      → Unlinked i s r
      → Ends MayLoop (Mounted sb n) r
  Ends-Unlinked i s h u = rw u.runs (
      Ends-if (opens i s.oft_fds == 0)
        (Ends-deleted_only s h ((del-Keeps sb n i).keep s.vol h.volume))
        (well (record { volume = h.volume; table = u.table })))

  oft_attempt_delete-Mounted : (i : ℕ) → KeepsMounted sb n (oft_attempt_delete i)
  oft_attempt_delete-Mounted i = record {
    keep = λ s h. Ends-Unlinked i s h (oft_attempt_delete-Unlinked i s h.table);
  }

  pub find_path-Keeps :
      (path : FilePath) (uid gid : ℕ) → Keeps MayLoop sb n (find_path path uid gid)
  unfolding find_path
  find_path-Keeps path uid gid =
      keep_bind (namei-Keeps sb n path uid gid)
        λ l. keep_if (l.target_inum == invalid_inode) (keep_throw enoent) (keep_pure l)

  pub inode_or_junk-Keeps : (inum : ℕ) → Keeps MayLoop sb n (inode_or_junk inum)
  unfolding inode_or_junk
  inode_or_junk-Keeps inum =
      keep_bind keep_get
        λ v. keep_bind (keep_attempt (inode_read-Keeps MayLoop sb n (pos inum))) λ r. keep_pure _

  find_removable-Keeps :
      (want_dir : Bool) (path : FilePath) (uid gid : ℕ)
      → Keeps MayLoop sb n (find_removable want_dir path uid gid)
  unfolding find_removable
  find_removable-Keeps want_dir path uid gid = keep_bind (find_path-Keeps path uid gid) λ l.
      keep_bind (inode_or_junk-Keeps l.target_inum) λ m.
        keep_bind (check_permissions-Keeps sb n l.parent_inum uid gid) λ a.
          keep_if (is_dir m.mode && not want_dir) (keep_throw eisdir) (
            keep_if (not (is_dir m.mode) && want_dir) (keep_throw enotdir)
              (keep_if (not a.write) (keep_throw eacces) (keep_pure l)))

  pub fs_getattr-Mounted :
      (path : FilePath) (uid gid : ℕ) → KeepsMounted sb n (fs_getattr path uid gid)
  unfolding fs_getattr
  fs_getattr-Mounted path uid gid = keep_lift sb n (
      keep_bind (find_path-Keeps path uid gid) λ l.
        keep_bind (check_permissions-Keeps sb n l.parent_inum uid gid)
          λ a. keep_if (not a.read) (keep_throw eacces) (get_stat-Keeps sb n l.target_inum))

  pub fs_unlink-Mounted :
      (path : FilePath) (uid gid : ℕ) → KeepsMounted sb n (fs_unlink path uid gid)
  unfolding fs_unlink
  fs_unlink-Mounted path uid gid =
      keep_bind (keep_lift sb n (find_removable-Keeps false path uid gid)) λ l.
        keep_seq (keep_attempt (keep_lift sb n (remove_dirent-Keeps sb n l.parent_inum l.index)))
          (keep_seq (oft_attempt_delete-Mounted l.target_inum) (keep_pure tt))

  pub fs_rmdir-Mounted : (path : FilePath) (uid gid : ℕ) → KeepsMounted sb n (fs_rmdir path uid gid)
  unfolding fs_rmdir
  fs_rmdir-Mounted path uid gid = keep_lift sb n (
      keep_bind (find_removable-Keeps true path uid gid) λ l.
        keep_seq (keep_attempt (remove_dirent-Keeps sb n l.parent_inum l.index))
          (keep_seq (keep_attempt (del-Keeps sb n l.target_inum)) (keep_pure tt)))

  pub fs_truncate-Mounted :
      (path : FilePath) (size uid gid : ℕ) → KeepsMounted sb n (fs_truncate path size uid gid)
  unfolding fs_truncate
  fs_truncate-Mounted path size uid gid = keep_lift sb n (
      keep_bind (find_path-Keeps path uid gid) λ l.
        keep_bind (inode_or_junk-Keeps l.target_inum) λ m.
          keep_bind (check_permissions-Keeps sb n l.target_inum uid gid) λ a.
            keep_if (is_dir m.mode) (keep_throw eisdir) (
              keep_if (not a.write) (keep_throw eacces)
                (keep_seq (keep_attempt (truncate-Keeps sb n l.target_inum size)) (keep_pure tt))))

  Ends-add : (inode flags : ℕ) (s : Fs) → Mounted sb n s → Mounted sb n (oft_add inode flags s).0
  unfolding oft_add
  Ends-add inode flags s h = record {
    volume = h.volume;
    table = (oft_add-Added inode flags s h.table).table;
  }

  pub fs_open-Mounted :
      (path : FilePath) (flags uid gid : ℕ) → KeepsMounted sb n (fs_open path flags uid gid)
  unfolding fs_open
  fs_open-Mounted path flags uid gid =
      keep_bind (keep_lift sb n (find_path-Keeps path uid gid)) λ l.
        keep_bind (keep_lift sb n (check_permissions-Keeps sb n l.target_inum uid gid)) λ a.
          keep_seq (keep_from_result sb n (check_access flags a)) (
            keep_bind (keep_lift sb n (inode_or_junk-Keeps l.target_inum)) λ m.
              keep_if
                (is_dir m.mode && (access_mode flags == o_wronly || access_mode flags == o_rdwr))
                (keep_throw eisdir)
                (record { keep = λ s h. well (Ends-add l.target_inum flags s h) }))

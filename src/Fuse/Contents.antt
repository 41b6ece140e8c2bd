-- ===== src/Fuse/Contents.antt =====
-- The handlers that read and write, list and create keep what Mounted says too.
use filesystem.Bytes.{Block}
use filesystem.Fuse.{
  fill_entries, fill_pages, fs_readdir, fs_mknod, fs_mkdir, access_mode, o_rdonly, o_wronly, o_rdwr,
  o_append, fs_read, write_offset, as_enospc, fs_write, fs_release,
}
use filesystem.Fuse.Handlers.{Ends-if, oft_remove-Mounted, find_path-Keeps, inode_or_junk-Keeps}
use filesystem.Fuse.Mounted.{Mounted, KeepsMounted, keep_lift, keep_from_result}
use filesystem.Layer0.{Superblock}
use filesystem.Layer1.Keeps.{
  MayLoop, Ends, badly, never, keep_pure, keep_throw, keep_if, keep_attempt, keep_get, keep_bind,
  keep_seq, keep_result,
}
use filesystem.Layer1.Keeps.Calls.{Keeps, inode_read-Keeps}
use filesystem.Layer1.Mkfs.{sizeof_dir_ent}
use filesystem.Layer2.Dir.{is_dir, Page}
use filesystem.Layer2.File.{write_i}
use filesystem.Layer2.Keeps.{read_i-Keeps, write_i-Keeps}
use filesystem.Layer2.Keeps.Dirs.{get_stat-Keeps, read_dir_page-Keeps}
use filesystem.Layer2.Keeps.Paths.{mkdir_fs-Keeps, mknod_fs-Keeps}
use filesystem.Layer2.OpenFiles.{Fs, lift, oft_lookup}
use filesystem.Layer2.Path.{FilePath}
use filesystem.Layer2.Perm.{Stat}
use filesystem.Prelude.{◌==◌, ℕ, zero, suc, ◌+◌, ◌*◌, bit_and, Bool, ◌||◌, not, Option, none, some}
use filesystem.Prelude.Int.{pos}
use filesystem.Prelude.Run.{enotdir, ebadf, Run, ◌>>=◌, attempt, from_result}

module _ (sb : Superblock) (n : ℕ) where
  module _ {F : Type 0} (filler : F → Block → ℕ → Option Stat → F × Bool) where
    fill_entries-Keeps :
        (d : Block) (i rounds : ℕ) (acc : F)
        → Keeps MayLoop sb n (fill_entries filler d i rounds acc)
    unfolding fill_entries
    fill_entries-Keeps d i zero acc = keep_pure _
    fill_entries-Keeps d i (suc rounds) acc = keep_bind (get_stat-Keeps sb n _) λ s.
        keep_if (filler acc d (sizeof_dir_ent * i) s).1 (keep_pure _)
          (fill_entries-Keeps d (i + 1) rounds _)

    fill_pages-Keeps :
        (fuel inum page : ℕ) (p : Page) (acc : F)
        → Keeps MayLoop sb n (fill_pages fuel filler inum page p acc)
    unfolding fill_pages
    fill_pages-Keeps zero inum page p acc = record { keep = λ v u. never tt }
    fill_pages-Keeps (suc fuel) inum page p acc =
        keep_bind (read_dir_page-Keeps sb n inum page p) λ q.
          keep_bind (fill_entries-Keeps q.0.d 0 q.0.entries acc) λ r.
            keep_if (r.1 || q.0.last) (keep_pure _) (fill_pages-Keeps fuel inum (page + 1) q.0 _)

    pub fs_readdir-Mounted :
        (fuel : ℕ) (acc : F) (path : FilePath) (uid gid : ℕ)
        → KeepsMounted sb n (fs_readdir fuel filler acc path uid gid)
    unfolding fs_readdir
    fs_readdir-Mounted fuel acc path uid gid = keep_lift sb n (
        keep_bind (find_path-Keeps sb n path uid gid) λ l.
          keep_bind (inode_or_junk-Keeps sb n l.target_inum) λ m. keep_bind keep_get λ v.
            keep_if (not (is_dir m.mode)) (keep_throw enotdir)
              (fill_pages-Keeps fuel l.target_inum 0 _ acc))

  pub fs_mknod-Mounted :
      (path : FilePath) (mode uid gid : ℕ) → KeepsMounted sb n (fs_mknod path mode uid gid)
  unfolding fs_mknod
  fs_mknod-Mounted path mode uid gid = keep_lift sb n (mknod_fs-Keeps sb n path mode uid gid)

  pub fs_mkdir-Mounted :
      (path : FilePath) (mode uid gid : ℕ) → KeepsMounted sb n (fs_mkdir path mode uid gid)
  unfolding fs_mkdir
  fs_mkdir-Mounted path mode uid gid = keep_lift sb n (mkdir_fs-Keeps sb n path mode uid gid)

  Ends-option :
      {A B : Type 0} (o : Option B) {r : Run Fs A} {f : B → Run Fs A}
      → Ends MayLoop (Mounted sb n) r
      → ((x : B) → Ends MayLoop (Mounted sb n) (f x))
      → Ends MayLoop (Mounted sb n) (elim o [ none ↦ r | some x ↦ f x ])
  Ends-option none e k = e
  Ends-option (some x) e k = k x

  Ends-read :
      (buf : Block) (size offset fi_flags fh : ℕ) (s : Fs)
      → Mounted sb n s
      → Ends MayLoop (Mounted sb n) (fs_read buf size offset fi_flags fh s)
  unfolding fs_read
  Ends-read buf size offset fi_flags fh s h = Ends-option (oft_lookup fh s.oft_fds) (badly h) λ f.
      Ends-if sb n (access_mode fi_flags == o_rdwr || access_mode fi_flags == o_rdonly)
        ((keep_lift sb n (read_i-Keeps sb n f.0 buf offset size)).keep s h) (badly h)

  pub fs_read-Mounted :
      (buf : Block) (size offset fi_flags fh : ℕ)
      → KeepsMounted sb n (fs_read buf size offset fi_flags fh)
  fs_read-Mounted buf size offset fi_flags fh = record {
    keep = λ s h. Ends-read buf size offset fi_flags fh s h;
  }

  write_offset-Keeps : (inum flags offset : ℕ) → Keeps MayLoop sb n (write_offset inum flags offset)
  unfolding write_offset
  write_offset-Keeps inum flags offset = keep_if (bit_and flags o_append == 0) (keep_pure offset) (
      keep_bind (keep_attempt (inode_read-Keeps MayLoop sb n (pos inum)))
        λ r. keep_result r (λ e. keep_throw ebadf) λ m. keep_pure m.size)

  written-Mounted :
      (inum : ℕ) (buf : Block) (flags offset size : ℕ)
      → KeepsMounted sb n (
          lift (write_offset inum flags offset) >>= λ actual.
          attempt (lift (write_i inum buf actual size)) >>= λ r. from_result (as_enospc r))
  written-Mounted inum buf flags offset size =
      keep_bind (keep_lift sb n (write_offset-Keeps inum flags offset)) λ actual.
        keep_bind (keep_attempt (keep_lift sb n (write_i-Keeps sb n inum buf actual size)))
          λ r. keep_from_result sb n (as_enospc r)

  Ends-write :
      (buf : Block) (size offset fi_flags fh : ℕ) (s : Fs)
      → Mounted sb n s
      → Ends MayLoop (Mounted sb n) (fs_write buf size offset fi_flags fh s)
  unfolding fs_write
  Ends-write buf size offset fi_flags fh s h = Ends-option (oft_lookup fh s.oft_fds) (badly h) λ f.
      Ends-if sb n (access_mode fi_flags == o_rdwr || access_mode fi_flags == o_wronly)
        ((written-Mounted f.0 buf f.1 offset size).keep s h) (badly h)

  pub fs_write-Mounted :
      (buf : Block) (size offset fi_flags fh : ℕ)
      → KeepsMounted sb n (fs_write buf size offset fi_flags fh)
  fs_write-Mounted buf size offset fi_flags fh = record {
    keep = λ s h. Ends-write buf size offset fi_flags fh s h;
  }

  pub fs_release-Mounted : (fh : ℕ) → KeepsMounted sb n (fs_release fh)
  unfolding fs_release
  fs_release-Mounted fh = keep_seq (oft_remove-Mounted sb n fh) (keep_pure tt)

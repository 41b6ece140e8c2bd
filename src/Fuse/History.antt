-- ===== src/Fuse/History.antt =====
-- Sequences of handler calls, in any order, with any arguments that the model covers.
use mathlib.Core.Path.{subst}
use filesystem.Bytes.{Block}
use filesystem.Fuse.{
  Handler, fs_getattr, fs_readdir, fs_mknod, fs_mkdir, fs_unlink, fs_rmdir, fs_truncate, fs_open,
  fs_read, fs_write, fs_release,
}
use filesystem.Fuse.Contents.{
  fs_readdir-Mounted, fs_mknod-Mounted, fs_mkdir-Mounted, fs_read-Mounted, fs_write-Mounted,
  fs_release-Mounted,
}
use filesystem.Fuse.Handlers.{
  fs_getattr-Mounted, fs_unlink-Mounted, fs_rmdir-Mounted, fs_truncate-Mounted, fs_open-Mounted,
}
use filesystem.Fuse.Mounted.{Mounted, KeepsMounted}
use filesystem.Layer0.{Superblock}
use filesystem.Layer1.Keeps.{MayLoop, Ends, well, badly, never}
use filesystem.Layer2.OpenFiles.{Fs}
use filesystem.Layer2.Path.{FilePath}
use filesystem.Layer2.Perm.{Stat}
use filesystem.Prelude.{ℕ, ◌≡◌, Bool, Option}
use filesystem.Prelude.Run.{Run, done, fail, diverge}

-- The state that a call leaves, whether it succeeds or reports an error.
abbrev pub Leaves : {A : Type 0} → Run Fs A → Fs → Type 0
Leaves (done a s) t = s ≡ t
Leaves (fail e s) t = s ≡ t
Leaves diverge t = ⊥

-- One call. What the filler of readdir has collected is a number here.
pub data Step (s t : Fs) : Type 0 where
  getattr : (path : FilePath) (uid gid : ℕ) → Leaves (fs_getattr path uid gid s) t → Step s t
  readdir :
      (fuel : ℕ) (filler : ℕ → Block → ℕ → Option Stat → ℕ × Bool) (path : FilePath) (uid gid : ℕ)
      → Leaves (fs_readdir fuel filler 0 path uid gid s) t
      → Step s t
  mknod : (path : FilePath) (mode uid gid : ℕ) → Leaves (fs_mknod path mode uid gid s) t → Step s t
  mkdir : (path : FilePath) (mode uid gid : ℕ) → Leaves (fs_mkdir path mode uid gid s) t → Step s t
  unlink : (path : FilePath) (uid gid : ℕ) → Leaves (fs_unlink path uid gid s) t → Step s t
  rmdir : (path : FilePath) (uid gid : ℕ) → Leaves (fs_rmdir path uid gid s) t → Step s t
  truncated :
      (path : FilePath) (size uid gid : ℕ) → Leaves (fs_truncate path size uid gid s) t → Step s t
  open_file :
      (path : FilePath) (flags uid gid : ℕ) → Leaves (fs_open path flags uid gid s) t → Step s t
  read :
      (buf : Block) (size offset flags fh : ℕ)
      → Leaves (fs_read buf size offset flags fh s) t
      → Step s t
  write :
      (buf : Block) (size offset flags fh : ℕ)
      → Leaves (fs_write buf size offset flags fh s) t
      → Step s t
  release : (fh : ℕ) → Leaves (fs_release fh s) t → Step s t

-- Any number of calls, one after another.
pub data Reach (s : Fs) : Fs → Type 0 where
  start : Reach s s
  then_call : {t u : Fs} → Reach s t → Step t u → Reach s u

module _ {sb : Superblock} {n : ℕ} where
  left-Mounted :
      {A : Type 0} {r : Run Fs A} {t : Fs}
      → Ends MayLoop (Mounted sb n) r
      → Leaves r t
      → Mounted sb n t
  left-Mounted (well h) e = subst (Mounted sb n) e h
  left-Mounted (badly h) e = subst (Mounted sb n) e h
  left-Mounted (never d) e = absurd e

  after :
      {A : Type 0} {m : Handler A} {s t : Fs}
      → KeepsMounted sb n m
      → Mounted sb n s
      → Leaves (m s) t
      → Mounted sb n t
  after {s} km h e = left-Mounted (km.keep s h) e

  Step-Mounted : {s t : Fs} → Mounted sb n s → Step s t → Mounted sb n t
  Step-Mounted h (getattr p u g e) = after (fs_getattr-Mounted sb n p u g) h e
  Step-Mounted h (readdir f fl p u g e) = after (fs_readdir-Mounted sb n fl f 0 p u g) h e
  Step-Mounted h (mknod p m u g e) = after (fs_mknod-Mounted sb n p m u g) h e
  Step-Mounted h (mkdir p m u g e) = after (fs_mkdir-Mounted sb n p m u g) h e
  Step-Mounted h (unlink p u g e) = after (fs_unlink-Mounted sb n p u g) h e
  Step-Mounted h (rmdir p u g e) = after (fs_rmdir-Mounted sb n p u g) h e
  Step-Mounted h (truncated p z u g e) = after (fs_truncate-Mounted sb n p z u g) h e
  Step-Mounted h (open_file p f u g e) = after (fs_open-Mounted sb n p f u g) h e
  Step-Mounted h (read b z o f fh e) = after (fs_read-Mounted sb n b z o f fh) h e
  Step-Mounted h (write b z o f fh e) = after (fs_write-Mounted sb n b z o f fh) h e
  Step-Mounted h (release fh e) = after (fs_release-Mounted sb n fh) h e

  -- However many handlers are called, in whatever order and with whatever arguments that the model covers,
  -- and whether they succeed or fail, from a state with a volume in use and an open file table whose
  -- counts agree: the superblock stays in memory and names the same areas, the disk keeps its size, and
  -- the counts of the table agree.
  pub Reach-Mounted : {s t : Fs} → Mounted sb n s → Reach s t → Mounted sb n t
  Reach-Mounted h start = h
  Reach-Mounted h (then_call r x) = Step-Mounted (Reach-Mounted h r) x

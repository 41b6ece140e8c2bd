-- ===== src/Fuse/Release.antt =====
-- fs_open and then fs_release of the descriptor.
use filesystem.Fuse.{Handler, fs_open, fs_release}
use filesystem.Fuse.Rights.{refused, granted}
use filesystem.Fuse.Rights.Open.{fs_open-Permitted}
use filesystem.Layer0.{Superblock, Disk}
use filesystem.Layer1.Ready.{Ready}
use filesystem.Layer2.OpenFiles.{Fs, oft_add}
use filesystem.Layer2.OpenFiles.Again.{oft_remove-oft_add}
use filesystem.Layer2.OpenFiles.Table.{IsTable}
use filesystem.Layer2.Path.{FilePath}
use filesystem.Prelude.{ℕ, ◌≡◌, refl}
use filesystem.Prelude.Run.{Run, done, fail, diverge, and_then, ◌>>=◌}

-- The globals of layer 2 and below are as they were.
abbrev pub Unchanged : {A : Type 0} → Fs → Run Fs A → Type 0
Unchanged s (done _ t) = t ≡ s
Unchanged s (fail _ t) = t ≡ s
Unchanged s diverge = ⊥

abbrev pub open_release : FilePath → (flags uid gid : ℕ) → Handler (Unit {0})
open_release path flags uid gid = do fh ← fs_open path flags uid gid; fs_release fh

module _ {s : Fs} {sb : Superblock} {d : Disk} {n : ℕ} (r : Ready s.vol sb d n) where
  opened_Unchanged :
      (inum flags : ℕ) (run : Run Fs ℕ)
      → IsTable s.oft_inodes s.oft_fds
      → run ≡ done (oft_add inum flags s).1 (oft_add inum flags s).0
      → Unchanged s (and_then run fs_release)
  unfolding fs_release
  opened_Unchanged inum flags run t e = rw (e, oft_remove-oft_add inum flags s t) refl

  -- On a volume in use whose open file table is consistent, fs_open and, where it succeeds, fs_release
  -- of the new descriptor end and leave the disk, the other globals and the table as they were.
  pub fs_release-fs_open :
      (path : FilePath) (flags uid gid : ℕ)
      → IsTable s.oft_inodes s.oft_fds
      → Unchanged s (open_release path flags uid gid s)
  fs_release-fs_open path flags uid gid t = elim (fs_open-Permitted {s = s} r path flags uid gid) [
    | refused e q ↦ rw q refl
    | granted l a f c h q ↦ opened_Unchanged l.target_inum flags (fs_open path flags uid gid s) t q
  ]

-- ===== src/Fuse/Reading.antt =====
-- fs_read gives the bytes of the open file.
use mathlib.Core.Path.{subst}
use filesystem.Bytes.{Block}
use filesystem.Fuse.{access_mode, o_rdonly, o_rdwr, fs_read}
use filesystem.Layer0.{Superblock, Disk}
use filesystem.Layer1.Data.View.{view}
use filesystem.Layer1.Inode.{Inode}
use filesystem.Layer1.Inode.Store.{stored}
use filesystem.Layer1.Ready.{Ready}
use filesystem.Layer2.Contents.{byte_at, IsFile}
use filesystem.Layer2.Contents.Read.{put, read_i-byte_at}
use filesystem.Layer2.File.{read_i}
use filesystem.Layer2.OpenFiles.{Fs, lift, oft_lookup}
use filesystem.Prelude.{
  ◌==◌, Bool-cases, ℕ, zero, suc, ◌+◌, ◌-◌, ◌≤◌, ◌<◌, min, ◌≡◌, refl, inl, inr, Bool, true, false,
  ◌||◌, Option, none, some, arith,
}
use filesystem.Prelude.Run.{ebadf, Run, done, fail}

-- The modes of access that allow a read.
abbrev pub readable : (fi_flags : ℕ) → Bool
readable fi_flags = access_mode fi_flags == o_rdwr || access_mode fi_flags == o_rdonly

-- What fs_read comes to: the bytes of the open inode from the offset on, as many as are asked for and
-- the file has, or EBADF for a descriptor that is not in use or is not open to read.
abbrev pub read_result :
    (sb : Superblock) (d : Disk) (buf : Block) (size offset : ℕ) (open_to_read : Bool)
    → Option (ℕ × ℕ)
    → Fs
    → Run Fs (ℕ × Block)
read_result sb d buf size offset open_to_read none s = fail ebadf s
read_result sb d buf size offset false (some _) s = fail ebadf s
read_result sb d buf size offset true (some (inum, flags)) s =
    let m : Inode = stored sb d (inum - 1) in
    let n : ℕ = min (m.size - offset) size in
    done (n, put buf 0 (λ j. byte_at (view sb d) m (offset + j)) n) s

-- The inode of an open descriptor is one whose pointers are those of data blocks.
abbrev pub OpenFile : Superblock → Disk → Option (ℕ × ℕ) → Type 0
OpenFile sb d none = Unit {0}
OpenFile sb d (some (inum, flags)) =
    (0 < inum) × (inum ≤ sb.num_inodes) × IsFile (view sb d) sb.data_size (stored sb d (inum - 1))

module _ (s : Fs) {sb : Superblock} {d : Disk} {n : ℕ} (r : Ready s.vol sb d n) where
  read_open :
      (inum : ℕ) (buf : Block) (size offset : ℕ)
      → OpenFile sb d (some (inum, 0))
      → lift (read_i inum buf offset size) s
        ≡ read_result sb d buf size offset true (some (inum, 0)) s
  read_open zero buf size offset h = absurd (omega (arith, h.0))
  read_open (suc k) buf size offset h =
      let e : suc k - 1 ≡ k = omega arith in
      rw
        (
          e,
          read_i-byte_at r k (omega (arith, h.1))
              (subst (λ (x : ℕ). IsFile (view sb d) sb.data_size (stored sb d x)) e h.2) buf offset
              size,
        )
        refl

  fs_read-known :
      (found : Option (ℕ × ℕ)) (buf : Block) (size offset fi_flags fh : ℕ)
      → oft_lookup fh s.oft_fds ≡ found
      → OpenFile sb d found
      → fs_read buf size offset fi_flags fh s
        ≡ read_result sb d buf size offset (readable fi_flags) found s
  unfolding fs_read
  fs_read-known none buf size offset fi_flags fh e h = rw (fs_read, e) refl
  fs_read-known (some (inum, flags)) buf size offset fi_flags fh e h =
      rw (fs_read, e)
        (elim (Bool-cases (readable fi_flags)) [
          | inl t ↦ rw t (read_open inum buf size offset h)
          | inr t ↦ rw t refl
        ])

  -- On a volume in use fs_read gives the bytes of the file behind an open descriptor from the offset on,
  -- as many as are asked for and the file has, and changes nothing but the buffer; for a descriptor
  -- that is not in use, or not open to read, it reports EBADF and changes nothing. The inode of a
  -- descriptor in use is a valid one whose pointers all name data blocks or are 0 and whose size is below
  -- 2^31.
  pub fs_read-read_result :
      (buf : Block) (size offset fi_flags fh : ℕ)
      → OpenFile sb d (oft_lookup fh s.oft_fds)
      → fs_read buf size offset fi_flags fh s
        ≡ read_result sb d buf size offset (readable fi_flags) (oft_lookup fh s.oft_fds) s
  fs_read-read_result buf size offset fi_flags fh h =
      fs_read-known (oft_lookup fh s.oft_fds) buf size offset fi_flags fh refl h

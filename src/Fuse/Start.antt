-- ===== src/Fuse/Start.antt =====
-- fs_init: the file system begins with a volume in use.
use filesystem.Fuse.{fs_init}
use filesystem.Fuse.Mounted.{Mounted}
use filesystem.Layer0.{Superblock, Disk, Vol}
use filesystem.Layer1.Keeps.{InUse, NoLoop, Ends, well, badly, never}
use filesystem.Layer1.Keeps.Format.{mkfs-Ends}
use filesystem.Layer1.Mkfs.{layout, mkfs_blocks, mkfs}
use filesystem.Layer2.OpenFiles.{Fs, lifted}
use filesystem.Layer2.OpenFiles.Table.{IsTable}
use filesystem.Prelude.{ltb, Bool-cases, ℕ, ◌≤◌, ◌<◌, ◌≡◌, refl, ◌⊎◌, inl, inr, some, arith}
use filesystem.Prelude.Int.{pos, to_int}
use filesystem.Prelude.Run.{bad_uid, Run, done, fail, diverge, pure, and_then, caught, Returns}

to_int-pos : (w : ℕ) → w < 2147483648 → to_int w ≡ pos w
to_int-pos w h = ground (arith, h)

module _ (s : Fs) (t : IsTable s.oft_inodes s.oft_fds) {sb : Superblock} {n : ℕ} where
  started :
      {r : Run Vol (Unit {0})}
      → Ends NoLoop (InUse sb n) r
      → Returns (λ _ u. Mounted sb n u) (and_then (caught (lifted s r)) (λ _. pure tt))
  started (well u) = record { volume = u; table = t }
  started (badly u) = record { volume = u; table = t }
  started (never d) = absurd d

-- What fs_init leaves: a volume of 40000 blocks in use, or nothing has changed, because the user or the
-- group is negative as an int.
pub data Started (uid gid : ℕ) (s u : Fs) : Type 0 where
  mounted :
      uid < 2147483648 → gid < 2147483648 → Mounted (layout 40000) 40000 u → Started uid gid s u
  refused : (2147483648 ≤ uid) ⊎ (2147483648 ≤ gid) → u ≡ s → Started uid gid s u

Returns-mounted :
    (uid gid : ℕ) (s : Fs) (r : Run Fs (Unit {0}))
    → uid < 2147483648
    → gid < 2147483648
    → Returns (λ _ u. Mounted (layout 40000) 40000 u) r
    → Returns (λ _ u. Started uid gid s u) r
Returns-mounted uid gid s (done a u) user group m = mounted user group m
Returns-mounted uid gid s (fail e u) user group m = absurd m
Returns-mounted uid gid s diverge user group m = absurd m

module _ (d : Disk) (uid gid : ℕ) (s : Fs) where
  in_use_then :
      uid < 2147483648
      → gid < 2147483648
      → IsTable s.oft_inodes s.oft_fds
      → Returns (λ _ u. Started uid gid s u) (fs_init (some d) uid gid s)
  unfolding fs_init
  in_use_then user group t =
      rw (to_int-pos uid user, to_int-pos gid group)
        (Returns-mounted uid gid s _ user group
          (started s t (mkfs-Ends s.vol d 40000 uid gid (omega arith))))

  -- mkfs refuses the owner.
  bad_owner :
      (2147483648 ≤ uid) ⊎ (2147483648 ≤ gid)
      → mkfs (some d) (pos 40000) (to_int uid) (to_int gid) s.vol ≡ fail bad_uid s.vol
  unfolding mkfs mkfs_blocks
  bad_owner h = ground (arith, h)

  refused_then :
      (2147483648 ≤ uid) ⊎ (2147483648 ≤ gid)
      → Returns (λ _ u. Started uid gid s u) (fs_init (some d) uid gid s)
  unfolding fs_init
  refused_then h = rw (bad_owner h) (refused h refl)

  -- When malloc gives memory, fs_init ends, whatever the memory holds and whoever the owner is. If the
  -- numbers of the owner are below 2^31, it leaves a volume of 40000 blocks in use with the layout for
  -- that number; if one of them is not, and so negative as an int, it changes nothing.
  pub fs_init-Started :
      IsTable s.oft_inodes s.oft_fds
      → Returns (λ _ u. Started uid gid s u) (fs_init (some d) uid gid s)
  fs_init-Started t = elim (Bool-cases (ltb uid 2147483648)) [
    | inr e ↦ refused_then (inl (ground (arith, e)))
    | inl e ↦ elim (Bool-cases (ltb gid 2147483648)) [
      | inr e' ↦ refused_then (inr (ground (arith, e')))
      | inl e' ↦ in_use_then (ground (arith, e)) (ground (arith, e')) t
    ]
  ]

-- ===== src/Layer2/Keeps/Paths.antt =====
-- The path calls of layer2.c, and create_dir_base, keep a volume in use.
use filesystem.Layer0.{Superblock, Vol}
use filesystem.Layer1.Inode.{invalid_inode}
use filesystem.Layer1.Keeps.{
  MayLoop, Keeping, keep_pure, keep_throw, keep_if, keep_bool, keep_attempt, keep_get, keep_bind,
  keep_seq, keep_result,
}
use filesystem.Layer1.Keeps.Calls.{Keeps, inode_create-Keeps}
use filesystem.Layer1.Keeps.Format.{create_dir_base-Keeps}
use filesystem.Layer2.Keeps.{del-Keeps}
use filesystem.Layer2.Keeps.Dirs.{check_permissions-Keeps, search_by_name-Keeps, add_dirent-Keeps}
use filesystem.Layer2.Path.{
  max_filename, FilePath, tokens, Lookup, missed, step_into, walk, namei, check_new, enter_new,
  mkdir_fs, mknod_fs,
}
use filesystem.Prelude.{ltb, ◌==◌, length, ℕ, ◌||◌, not, List, [], ◌∷◌}
use filesystem.Prelude.Run.{
  Error, not_dir, not_in_dir, eacces, enoent, enotdir, enametoolong, eexist, enospc,
}

-- What becomes of a failed search changes nothing.
pub missed-Keeping :
    {D : Type 0} {P : Vol → Type 0} (parent : ℕ) (l : Lookup) (e : Error)
    → Keeping D P (missed parent l e)
missed-Keeping parent l not_dir = keep_throw enotdir
missed-Keeping parent l not_in_dir = keep_pure _
missed-Keeping parent l _ = keep_pure _

module _ (sb : Superblock) (n : ℕ) where
  step_into-Keeps :
      (token : List ℕ) (parent : ℕ) (l : Lookup) → Keeps MayLoop sb n (step_into token parent l)
  unfolding step_into
  step_into-Keeps token parent l =
      keep_bind (keep_attempt (search_by_name-Keeps sb n parent token))
        λ r. keep_result r (λ e. missed-Keeping parent l e) λ x. keep_pure _

  walk-Keeps :
      (uid gid : ℕ) (ts : List (List ℕ)) (l : Lookup) → Keeps MayLoop sb n (walk uid gid ts l)
  unfolding walk
  walk-Keeps uid gid [] l = keep_pure l
  walk-Keeps uid gid (token ∷ ts) l =
      keep_bool (l.target_inum == invalid_inode) (keep_throw enoent) (
        keep_bool (ltb max_filename (length token)) (keep_throw enametoolong) (
          keep_bind (check_permissions-Keeps sb n l.target_inum uid gid) λ a.
            keep_bool (not a.read || not a.exec) (keep_throw eacces)
              (keep_bind (step_into-Keeps token l.target_inum l) λ l'. walk-Keeps uid gid ts l')))

  pub namei-Keeps : (path : FilePath) (uid gid : ℕ) → Keeps MayLoop sb n (namei path uid gid)
  unfolding namei
  namei-Keeps path uid gid = walk-Keeps uid gid (tokens path) _

  check_new-Keeps : (path : FilePath) (uid gid : ℕ) → Keeps MayLoop sb n (check_new path uid gid)
  unfolding check_new
  check_new-Keeps path uid gid = keep_bind (namei-Keeps path uid gid) λ l.
      keep_bind (check_permissions-Keeps sb n l.parent_inum uid gid) λ a.
        keep_if (not a.read || not a.exec || not a.write) (keep_throw eacces)
          (keep_if (not (l.target_inum == 0)) (keep_throw eexist) (keep_pure l.parent_inum))

  enter_new-Keeps :
      (path : FilePath) (parent new_inum : ℕ) → Keeps MayLoop sb n (enter_new path parent new_inum)
  unfolding enter_new
  enter_new-Keeps path parent new_inum = keep_bind keep_get λ v.
      keep_bind (keep_attempt (add_dirent-Keeps sb n parent _)) λ r.
        keep_if _ (keep_pure tt)
          (keep_seq (keep_attempt (del-Keeps sb n new_inum)) (keep_throw enospc))

  pub mkdir_fs-Keeps :
      (path : FilePath) (mode uid gid : ℕ) → Keeps MayLoop sb n (mkdir_fs path mode uid gid)
  unfolding mkdir_fs
  mkdir_fs-Keeps path mode uid gid = keep_bind (check_new-Keeps path uid gid) λ parent.
      keep_bind (keep_attempt (create_dir_base-Keeps MayLoop sb n mode uid gid parent))
        λ r. keep_result r (λ e. keep_throw enospc) λ i. enter_new-Keeps path parent i

  pub mknod_fs-Keeps :
      (path : FilePath) (mode uid gid : ℕ) → Keeps MayLoop sb n (mknod_fs path mode uid gid)
  unfolding mknod_fs
  mknod_fs-Keeps path mode uid gid = keep_bind (check_new-Keeps path uid gid) λ parent.
      keep_bind (keep_attempt (inode_create-Keeps MayLoop sb n _))
        λ r. keep_result r (λ e. keep_throw enospc) λ i. enter_new-Keeps path parent i

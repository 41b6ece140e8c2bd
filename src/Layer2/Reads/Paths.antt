-- ===== src/Layer2/Reads/Paths.antt =====
-- layer2.c, check_permissions, get_stat and namei end, and leave the globals as they are.
use filesystem.Layer0.{Superblock, Disk, Vol}
use filesystem.Layer1.Inode.{invalid_inode}
use filesystem.Layer1.Keeps.{keep_pure, keep_throw, keep_bool, keep_attempt, keep_bind, keep_result}
use filesystem.Layer1.Ready.{Ready}
use filesystem.Layer2.Keeps.Paths.{missed-Keeping}
use filesystem.Layer2.Path.{max_filename, FilePath, tokens, Lookup, step_into, walk, namei}
use filesystem.Layer2.Perm.{check_permissions, get_stat}
use filesystem.Layer2.Reads.{Reads, now_Reads, inode_read-Reads}
use filesystem.Layer2.Reads.Search.{search_by_name-Ends}
use filesystem.Prelude.{ltb, ◌==◌, length, ℕ, ◌||◌, not, List, [], ◌∷◌}
use filesystem.Prelude.Int.{pos}
use filesystem.Prelude.Run.{eacces, enoent, enametoolong}

module _ {v : Vol} {sb : Superblock} {d : Disk} {n : ℕ} (r : Ready v sb d n) where
  pub check_permissions-Reads : (inum uid gid : ℕ) → Reads r (check_permissions inum uid gid)
  unfolding check_permissions
  check_permissions-Reads inum uid gid =
      keep_bind (keep_attempt (inode_read-Reads r (pos inum))) λ _. keep_pure _

  pub get_stat-Reads : (inum : ℕ) → Reads r (get_stat inum)
  unfolding get_stat
  get_stat-Reads inum = keep_bind (keep_attempt (inode_read-Reads r (pos inum))) λ _. keep_pure _

  step_into-Reads : (token : List ℕ) (parent : ℕ) (l : Lookup) → Reads r (step_into token parent l)
  unfolding step_into
  step_into-Reads token parent l =
      keep_bind (keep_attempt (now_Reads r (search_by_name-Ends r parent token)))
        λ q. keep_result q (missed-Keeping parent l) λ x. keep_pure _

  walk-Reads : (uid gid : ℕ) (ts : List (List ℕ)) (l : Lookup) → Reads r (walk uid gid ts l)
  unfolding walk
  walk-Reads uid gid [] l = keep_pure _
  walk-Reads uid gid (t ∷ ts) l = keep_bool (l.target_inum == invalid_inode) (keep_throw enoent) (
      keep_bool (ltb max_filename (length t)) (keep_throw enametoolong) (
        keep_bind (check_permissions-Reads l.target_inum uid gid) λ a.
          keep_bool (not a.read || not a.exec) (keep_throw eacces)
            (keep_bind (step_into-Reads t l.target_inum l) λ l'. walk-Reads uid gid ts l')))

  pub namei-Reads : (path : FilePath) (uid gid : ℕ) → Reads r (namei path uid gid)
  unfolding namei
  namei-Reads path uid gid = walk-Reads uid gid (tokens path) _

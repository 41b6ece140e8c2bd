-- ===== src/Layer2/Perm.antt =====
-- layer2.c, check_permissions and get_stat.
use filesystem.Layer0.{Op}
use filesystem.Layer1.Inode.{Inode, inode_read}
use filesystem.Prelude.{◌==◌, ℕ, bit_and, Bool, false, ◌&&◌, ◌||◌, not, Option, none, some}
use filesystem.Prelude.Int.{pos}
use filesystem.Prelude.Run.{ok, err, pure, ◌>>=◌, attempt}

-- What check_permissions leaves in `read`, `write` and `exec`.
pub record Access : Type 0 where
  pub read : Bool
  pub write : Bool
  pub exec : Bool

abbrev pub no_access : Access
no_access = record { read = false; write = false; exec = false }

abbrev pub has_bit : ℕ → ℕ → Bool
has_bit bit mode = not (bit_and bit mode == 0)

-- The three tests of the function, of the owner's bits, the group's and the others'.
unfoldable pub access_of : Inode → (uid gid : ℕ) → Access
access_of n uid gid =
    let owner : Bool = n.uid == uid in
    let group : Bool = n.gid == gid in
    let other : Bool = not (n.uid == uid) && not (n.gid == gid) in
    record {
      read =
          owner && has_bit 0o400 n.mode
          || group && has_bit 0o040 n.mode
          || other && has_bit 0o004 n.mode;
      write =
          owner && has_bit 0o200 n.mode
          || group && has_bit 0o020 n.mode
          || other && has_bit 0o002 n.mode;
      exec =
          owner && has_bit 0o100 n.mode
          || group && has_bit 0o010 n.mode
          || other && has_bit 0o001 n.mode;
    }

-- The three flags; every caller drops the status. They are false where the inode cannot be read.
unfoldable pub check_permissions : (inum uid gid : ℕ) → Op Access
check_permissions inum uid gid = do
  r ← attempt (inode_read (pos inum))
  pure (elim r [ ok n ↦ access_of n uid gid | err _ ↦ no_access ])

-- The fields of `struct stat` that get_stat sets.
pub record Stat : Type 0 where
  pub st_ino : ℕ
  pub st_mode : ℕ
  pub st_uid : ℕ
  pub st_gid : ℕ
  pub st_size : ℕ

-- `none` where the inode cannot be read: the fields then hold what the local variable held, since
-- sizeof(stat) is the size of the function of that name and memset clears one byte.
unfoldable pub get_stat : (inum : ℕ) → Op (Option Stat)
get_stat inum = do
  r ← attempt (inode_read (pos inum))
  pure (elim r [
    | err _ ↦ none
    | ok n ↦ some (record {
      st_ino = inum;
      st_mode = n.mode;
      st_uid = n.uid;
      st_gid = n.gid;
      st_size = n.size;
    })
  ])

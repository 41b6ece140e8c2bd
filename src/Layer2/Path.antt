-- ===== src/Layer2/Path.antt =====
-- layer2.c, namei, mkdir_fs and mknod_fs. A path is the list of its characters, none of them 0.
pub mod Entry
pub mod Names
use mathlib.Core.List.{reverse}
use filesystem.Bytes.{Block, set_u32, set_byte}
use filesystem.Layer0.{Op}
use filesystem.Layer1.Bitmap.{inode_create}
use filesystem.Layer1.Inode.{Inode, invalid_inode, zero_inode}
use filesystem.Layer1.Mkfs.{s_ifdir, s_ifreg, filebuf_size, sizeof_dir_ent, create_dir_base}
use filesystem.Layer2.Dir.{search_by_name, add_dirent}
use filesystem.Layer2.File.{del}
use filesystem.Layer2.Perm.{check_permissions}
use filesystem.Prelude.{
  ltb, ◌==◌, if◌then◌else◌, length, ℕ, zero, suc, ◌+◌, bit_and, bit_or, bit_xor, Bool, true, false,
  ◌||◌, not, List, [], ◌∷◌,
}
use filesystem.Prelude.Run.{
  Error, not_dir, not_in_dir, eacces, enoent, enotdir, enametoolong, eexist, enospc, ok, err, pure,
  throw, get, ◌>>=◌, ◌>>◌, attempt,
}

-- MAX_FILENAME
abbrev pub max_filename : ℕ
max_filename = 256

abbrev pub FilePath : Type 0
FilePath = List ℕ

-- The characters up to the next '/', reversed onto `acc`, and the tokens behind it: strtok skips
-- empty tokens.
unfoldable pub tokens_from : (acc : List ℕ) → FilePath → List (List ℕ)
tokens_from [] [] = []
tokens_from (a ∷ acc) [] = reverse (a ∷ acc) ∷ []
tokens_from [] (c ∷ cs) = tokens_from (if c == b'/' then [] else c ∷ []) cs
tokens_from (a ∷ acc) (c ∷ cs) =
    if c == b'/' then reverse (a ∷ acc) ∷ tokens_from [] cs else tokens_from (c ∷ a ∷ acc) cs

-- The tokens that strtok gives, with '/' for delimiter.
unfoldable pub tokens : FilePath → List (List ℕ)
tokens path = tokens_from [] path

-- strrchr(path, '/') + 1: the characters behind the last '/'. A path begins with '/'.
unfoldable pub last_name : FilePath → (name : List ℕ) → List ℕ
last_name [] name = name
last_name (c ∷ cs) name = last_name cs (if c == b'/' then cs else name)

-- What namei leaves in `parent_inum`, `target_inum` and `index`.
pub record Lookup : Type 0 where
  pub parent_inum : ℕ
  pub target_inum : ℕ
  pub index : ℕ

-- What becomes of a search that failed. A status other than NOT_DIR and NOT_IN_DIR is passed over.
abbrev pub missed : (parent : ℕ) → Lookup → Error → Op Lookup
missed parent l not_dir = throw enotdir
missed parent l not_in_dir =
    pure (record { parent_inum = parent; target_inum = 0; index = l.index })
missed parent l _ =
    pure (record { parent_inum = parent; target_inum = l.target_inum; index = l.index })

-- The search for one component, in the directory that was the target before.
unfoldable pub step_into : (token : List ℕ) (parent : ℕ) → Lookup → Op Lookup
step_into token parent l = do
  r ← attempt (search_by_name parent token)
  elim r [
    | ok (i, n) ↦ pure (record { parent_inum = parent; target_inum = n; index = i })
    | err e ↦ missed parent l e
  ]

-- The loop of namei over the tokens.
unfoldable pub walk : (uid gid : ℕ) → List (List ℕ) → Lookup → Op Lookup
walk uid gid [] l = pure l
walk uid gid (token ∷ ts) l = elim (l.target_inum == invalid_inode) [
  | true ↦ throw enoent
  | false ↦ elim (ltb max_filename (length token)) [
    | true ↦ throw enametoolong
    | false ↦ do
      a ← check_permissions l.target_inum uid gid
      elim (not a.read || not a.exec) [
        | true ↦ throw eacces
        | false ↦ do l' ← step_into token l.target_inum l; walk uid gid ts l'
      ]
  ]
]

-- ROOT_INODE
abbrev pub root_inum : ℕ
root_inum = 1

unfoldable pub namei : FilePath → (uid gid : ℕ) → Op Lookup
namei path uid gid =
    walk uid gid (tokens path)
      (record { parent_inum = root_inum; target_inum = root_inum; index = 0 })

-- strncpy(buf + o, s, n): the characters, and zeros up to n bytes.
unfoldable pub store_padded : Block → (o : ℕ) → List ℕ → (n : ℕ) → Block
store_padded b o s zero = b
store_padded b o [] (suc n) = store_padded (set_byte b o 0) (o + 1) [] n
store_padded b o (c ∷ cs) (suc n) = store_padded (set_byte b o c) (o + 1) cs n

-- The entry that mkdir_fs and mknod_fs add.
abbrev pub new_dir_ent : Block → FilePath → ℕ → Block
new_dir_ent junk path inum =
    set_u32 (store_padded junk 0 (last_name path []) filebuf_size) filebuf_size inum

-- The tests that mkdir_fs and mknod_fs share: the parent's number.
unfoldable pub check_new : FilePath → (uid gid : ℕ) → Op ℕ
check_new path uid gid = do
  l ← namei path uid gid
  a ← check_permissions l.parent_inum uid gid
  if not a.read || not a.exec || not a.write
      then throw eacces
      else if not (l.target_inum == 0)
      then throw eexist
      else pure l.parent_inum

-- The end that they share: the entry is added, or the new inode is deleted.
unfoldable pub enter_new : FilePath → (parent_inum new_inum : ℕ) → Op (Unit {0})
enter_new path parent new_inum = do
  v ← get
  r ← attempt (add_dirent parent (new_dir_ent v.junk path new_inum))
  let added : Bool = elim r [ ok n ↦ n == sizeof_dir_ent | err _ ↦ false ]
  if added then pure tt else (do attempt (del new_inum); throw enospc)

unfoldable pub mkdir_fs : FilePath → (mode uid gid : ℕ) → Op (Unit {0})
mkdir_fs path mode uid gid = do
  parent ← check_new path uid gid
  r ← attempt (create_dir_base mode uid gid parent)
  elim r [ err _ ↦ throw enospc | ok new_inum ↦ enter_new path parent new_inum ]

abbrev pub new_file : (mode uid gid : ℕ) → Inode
new_file mode uid gid = record zero_inode {
  mode = bit_and (bit_or s_ifreg mode) (bit_xor 0xffff s_ifdir);
  uid = uid;
  gid = gid;
}

unfoldable pub mknod_fs : FilePath → (mode uid gid : ℕ) → Op (Unit {0})
mknod_fs path mode uid gid = do
  parent ← check_new path uid gid
  r ← attempt (inode_create (new_file mode uid gid))
  elim r [ err _ ↦ throw enospc | ok new_inum ↦ enter_new path parent new_inum ]

-- ===== src/Layer2/OpenFiles.antt =====
-- layer2.c, the open file table: which inodes are open how often, and which descriptor stands for
-- which inode. Inode numbers, descriptors and flags are not negative.
pub mod Table
pub mod Add
pub mod Remove
pub mod Again
pub mod Close
use filesystem.Layer0.{Vol, Op}
use filesystem.Layer2.File.{del}
use filesystem.Prelude.{
  ◌==◌, if◌then◌else◌, length, ℕ, zero, suc, ◌+◌, ◌-◌, Bool, true, false, Option, none, some, List,
  [], ◌∷◌, ◌++◌,
}
use filesystem.Prelude.Run.{Run, done, fail, diverge, and_then, attempt}

pub record OftInode : Type 0 where
  pub inum : ℕ
  pub ref : ℕ
  pub pending_deletion : Bool

pub record OftFd : Type 0 where
  pub fd : ℕ
  pub fd_inum : ℕ
  pub flags : ℕ

-- The globals of layer 2 beside those of the layers below.
pub record Fs : Type 0 where
  pub vol : Vol
  pub oft_inodes : List OftInode
  pub oft_fds : List OftFd

-- A call of the layers below: the table stays.
abbrev pub lifted : {A : Type 0} → Fs → Run Vol A → Run Fs A
lifted s (done a v) = done a (record s { vol = v })
lifted s (fail e v) = fail e (record s { vol = v })
lifted s diverge = diverge

abbrev pub lift : {A : Type 0} → Op A → Fs → Run Fs A
lift m s = lifted s (m s.vol)

-- MIN_FD
abbrev pub min_fd : ℕ
min_fd = 10

-- The first table of oft_add: one reference more, or a new entry behind the others.
unfoldable pub add_ref : (inode : ℕ) → List OftInode → List OftInode
add_ref inode [] = record { inum = inode; ref = 1; pending_deletion = false } ∷ []
add_ref inode (n ∷ ns) =
    if n.inum == inode then record n { ref = n.ref + 1 } ∷ ns else n ∷ add_ref inode ns

-- Whether a descriptor is in use.
unfoldable pub fd_used : (fd : ℕ) → List OftFd → Bool
fd_used fd [] = false
fd_used fd (f ∷ fs) = if f.fd == fd then true else fd_used fd fs

-- The search of oft_add for a descriptor, from `fd`; there is always one among as many as there are
-- entries and one more.
unfoldable pub first_fd : (fuel : ℕ) (fd : ℕ) → List OftFd → ℕ
first_fd zero fd fds = fd
first_fd (suc fuel) fd fds = elim (fd_used fd fds) [
  | true ↦ first_fd fuel (fd + 1) fds
  | false ↦ fd
]

-- The new table and the descriptor.
unfoldable pub oft_add : (inode flags : ℕ) → Fs → Fs × ℕ
oft_add inode flags s =
    let fd : ℕ = first_fd (suc (length s.oft_fds)) min_fd s.oft_fds in
    (
      record s {
        oft_inodes = add_ref inode s.oft_inodes;
        oft_fds = s.oft_fds ++ record { fd = fd; fd_inum = inode; flags = flags } ∷ [];
      },
      fd,
    )

-- The second table of oft_remove, with the inode of the last entry removed. The loop goes on behind
-- a removal, and passes over the entry that moved into the place.
unfoldable pub drop_fd : (fd : ℕ) → List OftFd → List OftFd × Option ℕ
drop_fd fd [] = ([], none)
drop_fd fd (f ∷ []) = if f.fd == fd then ([], some f.fd_inum) else (f ∷ [], none)
drop_fd fd (f ∷ g ∷ fs) = elim (f.fd == fd) [
  | true ↦ let (r, i) = drop_fd fd fs in (g ∷ r, elim i [ some j ↦ some j | none ↦ some f.fd_inum ])
  | false ↦ let (r, i) = drop_fd fd (g ∷ fs) in (f ∷ r, i)
]

-- What the first table of oft_remove comes to: one reference less, and whether the inode is to be
-- deleted. `none`: it has no entry.
unfoldable pub drop_ref : (inode : ℕ) → List OftInode → Option (List OftInode × Bool)
drop_ref inode [] = none
drop_ref inode (n ∷ ns) =
    if n.inum == inode
    then if n.ref == 1
      then some (ns, n.pending_deletion)
      else some (record n { ref = n.ref - 1 } ∷ ns, false)
    else elim (drop_ref inode ns) [ none ↦ none | some (ms, b) ↦ some (n ∷ ms, b) ]

unfoldable pub oft_remove : (fd : ℕ) → Fs → Run Fs Bool
oft_remove fd s =
    let (fds, i) = drop_fd fd s.oft_fds in
    let s' : Fs = record s { oft_fds = fds } in
    elim i [
      | none ↦ done false s'
      | some inode ↦ elim (drop_ref inode s.oft_inodes) [
        | none ↦ done false s'
        | some (ns, dead) ↦ elim dead [
          | false ↦ done true (record s' { oft_inodes = ns })
          | true ↦
              and_then (attempt (lift (del inode)) s')
                λ _ t. done true (record t { oft_inodes = ns })
        ]
      ]
    ]

-- The table with the flag set on the first entry of an inode. `none`: it has no entry.
unfoldable pub set_pending : (inode : ℕ) → List OftInode → Option (List OftInode)
set_pending inode [] = none
set_pending inode (n ∷ ns) =
    if n.inum == inode
    then some (record n { pending_deletion = true } ∷ ns)
    else elim (set_pending inode ns) [ none ↦ none | some ms ↦ some (n ∷ ms) ]

unfoldable pub oft_attempt_delete : (inode : ℕ) → Fs → Run Fs Bool
oft_attempt_delete inode s = elim (set_pending inode s.oft_inodes) [
  | some ns ↦ done false (record s { oft_inodes = ns })
  | none ↦ and_then (attempt (lift (del inode)) s) λ _ t. done true t
]

-- The inode and the flags of a descriptor.
unfoldable pub oft_lookup : (fd : ℕ) → List OftFd → Option (ℕ × ℕ)
oft_lookup fd [] = none
oft_lookup fd (f ∷ fs) = if f.fd == fd then some (f.fd_inum, f.flags) else oft_lookup fd fs

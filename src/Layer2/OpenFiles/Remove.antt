-- ===== src/Layer2/OpenFiles/Remove.antt =====
-- The loops of oft_remove, as what they take out of the two tables.
use filesystem.Layer2.OpenFiles.{OftInode, OftFd, drop_fd, drop_ref, oft_lookup}
use filesystem.Layer2.OpenFiles.Add.{oft_lookup-none}
use filesystem.Layer2.OpenFiles.Table.{opens, fd_count, refs, inode_count, AllReferenced}
use filesystem.Prelude.{
  ◌==◌, if◌then◌else◌, ℕ, ◌+◌, ◌-◌, ◌≤◌, ◌<◌, ◌≡◌, refl, Bool, false, ◌&&◌, Option, none, some,
  List, [], ◌∷◌, arith,
}

-- The first entry of a descriptor taken out, and the inode it stands for.
abbrev pub remove_fd : (fd : ℕ) → List OftFd → List OftFd
remove_fd fd [] = []
remove_fd fd (f ∷ fs) = if f.fd == fd then fs else f ∷ remove_fd fd fs

abbrev pub inode_of : (fd : ℕ) → List OftFd → Option ℕ
inode_of fd [] = none
inode_of fd (f ∷ fs) = if f.fd == fd then some f.fd_inum else inode_of fd fs

pub drop_fd-absent : (fd : ℕ) (fs : List OftFd) → fd_count fd fs ≡ 0 → drop_fd fd fs ≡ (fs, none)
unfolding drop_fd
drop_fd-absent fd [] h = refl
drop_fd-absent fd (f ∷ []) h = ground arith
drop_fd-absent fd (f ∷ g ∷ fs) h = ground (arith, drop_fd-absent fd (g ∷ fs))

-- With distinct descriptors the loop that passes over an entry takes out the right one.
pub drop_fd_lem :
    (fd : ℕ) (fs : List OftFd)
    → fd_count fd fs ≤ 1
    → drop_fd fd fs ≡ (remove_fd fd fs, inode_of fd fs)
unfolding drop_fd
drop_fd_lem fd [] h = refl
drop_fd_lem fd (f ∷ []) h = ground arith
drop_fd_lem fd (f ∷ g ∷ fs) h = ground (arith, drop_fd-absent fd fs, drop_fd_lem fd (g ∷ fs))

pub inode_of-lookup :
    (fd : ℕ) (fs : List OftFd) {i flags : ℕ}
    → oft_lookup fd fs ≡ some (i, flags)
    → inode_of fd fs ≡ some i
unfolding oft_lookup
inode_of-lookup fd [] e = ground arith
inode_of-lookup fd (f ∷ fs) {i} {flags} e =
    ground (arith, inode_of-lookup fd fs {i = i} {flags = flags})

pub opens-remove_fd :
    (fd j : ℕ) (fs : List OftFd) {i : ℕ}
    → inode_of fd fs ≡ some i
    → opens j fs ≡ opens j (remove_fd fd fs) + (if i == j then 1 else 0)
opens-remove_fd fd j [] e = ground arith
opens-remove_fd fd j (f ∷ fs) {i} e = ground (arith, opens-remove_fd fd j fs {i = i})

pub fd_count-remove_fd : (fd x : ℕ) (fs : List OftFd) → fd_count x (remove_fd fd fs) ≤ fd_count x fs
fd_count-remove_fd fd x [] = omega arith
fd_count-remove_fd fd x (f ∷ fs) = ground (arith, fd_count-remove_fd fd x fs)

pub oft_lookup-remove_fd :
    (fd x : ℕ) (fs : List OftFd)
    → fd_count fd fs ≤ 1
    → oft_lookup x (remove_fd fd fs) ≡ (if fd == x then none else oft_lookup x fs)
unfolding oft_lookup
oft_lookup-remove_fd fd x [] h = ground arith
oft_lookup-remove_fd fd x (f ∷ fs) h =
    ground (arith, oft_lookup-remove_fd fd x fs, oft_lookup-none fd fs)

-- Whether the entry of an inode is to be deleted.
abbrev pub pending : (inode : ℕ) → List OftInode → Bool
pending inode [] = false
pending inode (n ∷ ns) = if n.inum == inode then n.pending_deletion else pending inode ns

-- One reference less, and the entry taken out with the last one.
abbrev pub remove_ref : (inode : ℕ) → List OftInode → List OftInode
remove_ref inode [] = []
remove_ref inode (n ∷ ns) =
    if n.inum == inode
    then if n.ref == 1 then ns else record n { ref = n.ref - 1 } ∷ ns
    else n ∷ remove_ref inode ns

pub refs-zero : (i : ℕ) (ns : List OftInode) → inode_count i ns ≡ 0 → refs i ns ≡ 0
refs-zero i [] h = refl
refs-zero i (n ∷ ns) h = ground (arith, refs-zero i ns)

-- The flag counts where the reference was the last.
pub drop_ref_lem :
    (i : ℕ) (ns : List OftInode)
    → inode_count i ns ≤ 1
    → 0 < refs i ns
    → drop_ref i ns ≡ some (remove_ref i ns, refs i ns == 1 && pending i ns)
unfolding drop_ref
drop_ref_lem i [] once h = absurd (omega arith)
drop_ref_lem i (n ∷ ns) once h = ground (arith, drop_ref_lem i ns, refs-zero i ns)

pub refs-remove_ref :
    (i j : ℕ) (ns : List OftInode)
    → inode_count i ns ≤ 1
    → 0 < refs i ns
    → refs j ns ≡ refs j (remove_ref i ns) + (if i == j then 1 else 0)
refs-remove_ref i j [] once h = absurd (omega arith)
refs-remove_ref i j (n ∷ ns) once h = ground (arith, refs-remove_ref i j ns, refs-zero i ns)

pub inode_count-remove_ref :
    (i j : ℕ) (ns : List OftInode) → inode_count j (remove_ref i ns) ≤ inode_count j ns
inode_count-remove_ref i j [] = omega arith
inode_count-remove_ref i j (n ∷ ns) = ground (arith, inode_count-remove_ref i j ns)

pub remove_ref-AllReferenced :
    (i : ℕ) (ns : List OftInode) → AllReferenced ns → AllReferenced (remove_ref i ns)
remove_ref-AllReferenced i [] h = h
remove_ref-AllReferenced i (n ∷ ns) h = ground (arith, h, remove_ref-AllReferenced i ns h.1)

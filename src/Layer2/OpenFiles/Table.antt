-- ===== src/Layer2/OpenFiles/Table.antt =====
-- The open file table: descriptors are distinct, and the reference counts are those of the descriptors.
use filesystem.Layer2.OpenFiles.{OftInode, OftFd, fd_used, first_fd}
use filesystem.Prelude.{
  leb, ◌==◌, if◌then◌else◌, Bool-cases, length, ℕ, zero, suc, ◌+◌, ◌≤◌, ◌<◌, ◌≡◌, refl, inl, inr,
  true, false, List, [], ◌∷◌, arith,
}

-- How many descriptors stand for an inode, and how many entries a descriptor has.
abbrev pub opens : (inode : ℕ) → List OftFd → ℕ
opens inode [] = 0
opens inode (f ∷ fs) = (if f.fd_inum == inode then 1 else 0) + opens inode fs

abbrev pub fd_count : (fd : ℕ) → List OftFd → ℕ
fd_count fd [] = 0
fd_count fd (f ∷ fs) = (if f.fd == fd then 1 else 0) + fd_count fd fs

-- The references that the first table counts for an inode, and how many entries it has.
abbrev pub refs : (inode : ℕ) → List OftInode → ℕ
refs inode [] = 0
refs inode (n ∷ ns) = (if n.inum == inode then n.ref else 0) + refs inode ns

abbrev pub inode_count : (inode : ℕ) → List OftInode → ℕ
inode_count inode [] = 0
inode_count inode (n ∷ ns) = (if n.inum == inode then 1 else 0) + inode_count inode ns

-- Every entry has a reference.
abbrev pub AllReferenced : List OftInode → Type 0
AllReferenced [] = Unit {0}
AllReferenced (n ∷ ns) = (0 < n.ref) × AllReferenced ns

-- The two tables agree.
pub record IsTable (ns : List OftInode) (fds : List OftFd) : Type 0 where
  pub counted : (inode : ℕ) → refs inode ns ≡ opens inode fds
  pub single_inode : (inode : ℕ) → inode_count inode ns ≤ 1
  pub single_fd : (fd : ℕ) → fd_count fd fds ≤ 1
  pub referenced : AllReferenced ns

-- The descriptors from `fd` on.
abbrev pub above : (fd : ℕ) → List OftFd → ℕ
above fd [] = 0
above fd (f ∷ fs) = (if leb fd f.fd then 1 else 0) + above fd fs

above-used :
    (fd : ℕ) (fds : List OftFd)
    → (above (fd + 1) fds ≤ above fd fds)
      × (fd_used fd fds ≡ true → above (fd + 1) fds + 1 ≤ above fd fds)
unfolding fd_used
above-used fd [] = ground arith
above-used fd (f ∷ fs) = ground (arith, above-used fd fs)

pub above-length : (fd : ℕ) (fds : List OftFd) → above fd fds ≤ length fds
above-length fd [] = omega arith
above-length fd (f ∷ fs) = ground (arith, above-length fd fs)

fd_used-count : (fd : ℕ) (fds : List OftFd) → fd_used fd fds ≡ false → fd_count fd fds ≡ 0
unfolding fd_used
fd_used-count fd [] e = refl
fd_used-count fd (f ∷ fs) e = ground (arith, fd_used-count fd fs)

-- The search ends at a descriptor that is not in use.
pub first_fd-free :
    (fuel fd : ℕ) (fds : List OftFd)
    → above fd fds < fuel
    → (fd ≤ first_fd fuel fd fds) × (fd_count (first_fd fuel fd fds) fds ≡ 0)
unfolding first_fd
first_fd-free zero fd fds h = absurd (omega arith)
first_fd-free (suc fuel) fd fds h = elim (Bool-cases (fd_used fd fds)) [
  | inl e ↦ ground (arith, e, above-used fd fds, first_fd-free fuel (fd + 1) fds)
  | inr e ↦ ground (arith, e, fd_used-count fd fds)
]

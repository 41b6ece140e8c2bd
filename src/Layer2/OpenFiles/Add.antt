-- ===== src/Layer2/OpenFiles/Add.antt =====
-- oft_add and oft_lookup.
use filesystem.Layer2.OpenFiles.{
  OftInode, OftFd, Fs, min_fd, add_ref, first_fd, oft_add, oft_lookup,
}
use filesystem.Layer2.OpenFiles.Table.{
  opens, fd_count, refs, inode_count, AllReferenced, IsTable, above-length, first_fd-free,
}
use filesystem.Prelude.{
  ◌==◌, if◌then◌else◌, length, ℕ, suc, ◌+◌, ◌≤◌, ◌≡◌, refl, ◌&&◌, none, some, List, [], ◌∷◌, ◌++◌,
  arith,
}

refs-add_ref :
    (inode i : ℕ) (ns : List OftInode)
    → refs i (add_ref inode ns) ≡ refs i ns + (if inode == i then 1 else 0)
unfolding add_ref
refs-add_ref inode i [] = ground arith
refs-add_ref inode i (n ∷ ns) = ground (arith, refs-add_ref inode i ns)

-- An inode gets an entry if it has none.
inode_count-add_ref :
    (inode i : ℕ) (ns : List OftInode)
    → inode_count i (add_ref inode ns)
      ≡ inode_count i ns + (if inode == i && inode_count i ns == 0 then 1 else 0)
unfolding add_ref
inode_count-add_ref inode i [] = ground arith
inode_count-add_ref inode i (n ∷ ns) = ground (arith, inode_count-add_ref inode i ns)

add_ref-AllReferenced :
    (inode : ℕ) (ns : List OftInode) → AllReferenced ns → AllReferenced (add_ref inode ns)
unfolding add_ref
add_ref-AllReferenced inode [] h = ground arith
add_ref-AllReferenced inode (n ∷ ns) h = ground (arith, h, add_ref-AllReferenced inode ns h.1)

opens-append : (i : ℕ) (fs gs : List OftFd) → opens i (fs ++ gs) ≡ opens i fs + opens i gs
opens-append i [] gs = omega arith
opens-append i (f ∷ fs) gs = omega (arith, opens-append i fs gs)

fd_count-append :
    (fd : ℕ) (fs gs : List OftFd) → fd_count fd (fs ++ gs) ≡ fd_count fd fs + fd_count fd gs
fd_count-append fd [] gs = omega arith
fd_count-append fd (f ∷ fs) gs = omega (arith, fd_count-append fd fs gs)

pub oft_lookup-none : (fd : ℕ) (fs : List OftFd) → fd_count fd fs ≡ 0 → oft_lookup fd fs ≡ none
unfolding oft_lookup
oft_lookup-none fd [] h = refl
oft_lookup-none fd (f ∷ fs) h = ground (arith, oft_lookup-none fd fs)

oft_lookup-append :
    (fd : ℕ) (fs : List OftFd) (g : OftFd)
    → fd_count g.fd fs ≡ 0
    → oft_lookup fd (fs ++ g ∷ [])
      ≡ (if g.fd == fd then some (g.fd_inum, g.flags) else oft_lookup fd fs)
unfolding oft_lookup
oft_lookup-append fd [] g h = ground arith
oft_lookup-append fd (f ∷ fs) g h = ground (arith, oft_lookup-append fd fs g)

-- What oft_add makes of the table: `t` with the descriptor `fd`.
pub record Added (inode flags : ℕ) (s t : Fs) (fd : ℕ) : Type 0 where
  pub table : IsTable t.oft_inodes t.oft_fds
  pub same_volume : t.vol ≡ s.vol
  pub in_range : min_fd ≤ fd
  pub unused : oft_lookup fd s.oft_fds ≡ none
  pub looked_up :
      (x : ℕ)
      → oft_lookup x t.oft_fds ≡ (if fd == x then some (inode, flags) else oft_lookup x s.oft_fds)
  pub opened_once : (i : ℕ) → opens i t.oft_fds ≡ opens i s.oft_fds + (if inode == i then 1 else 0)

-- oft_add of a table whose counts agree gives a descriptor from MIN_FD on that was not in use. Looking it up gives
-- the inode and the flags, every other lookup is as before, and the counts agree again.
pub oft_add-Added :
    (inode flags : ℕ) (s : Fs)
    → IsTable s.oft_inodes s.oft_fds
    → Added inode flags s (oft_add inode flags s).0 (oft_add inode flags s).1
unfolding oft_add
oft_add-Added inode flags s t =
    let fd : ℕ = first_fd (suc (length s.oft_fds)) min_fd s.oft_fds in
    let g : OftFd = record { fd = fd; fd_inum = inode; flags = flags } in
    let free =
      first_fd-free (suc (length s.oft_fds)) min_fd s.oft_fds
        (omega (arith, above-length min_fd s.oft_fds)) in
    record {
      table = record {
        counted = λ i. ground (
          arith,
          refs-add_ref inode i s.oft_inodes,
          t.counted i,
          opens-append i s.oft_fds (g ∷ []),
        );
        single_inode =
            λ i. ground (arith, inode_count-add_ref inode i s.oft_inodes, t.single_inode i);
        single_fd = λ x. ground (arith, free, fd_count-append x s.oft_fds (g ∷ []), t.single_fd x);
        referenced = add_ref-AllReferenced inode s.oft_inodes t.referenced;
      };
      same_volume = refl;
      in_range = free.0;
      unused = oft_lookup-none fd s.oft_fds free.1;
      looked_up = λ x. oft_lookup-append x s.oft_fds g free.1;
      opened_once = λ i. ground (arith, opens-append i s.oft_fds (g ∷ []));
    }

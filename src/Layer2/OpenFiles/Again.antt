-- ===== src/Layer2/OpenFiles/Again.antt =====
-- oft_remove of the descriptor that oft_add gave.
use filesystem.Layer2.OpenFiles.{
  OftInode, OftFd, Fs, min_fd, add_ref, first_fd, oft_add, drop_fd, drop_ref, oft_remove,
}
use filesystem.Layer2.OpenFiles.Table.{
  fd_count, AllReferenced, IsTable, above-length, first_fd-free,
}
use filesystem.Prelude.{length, ℕ, suc, ◌≡◌, true, false, some, List, [], ◌∷◌, ◌++◌, arith}
use filesystem.Prelude.Run.{done}

drop_fd-append :
    (fs : List OftFd) (g : OftFd)
    → fd_count g.fd fs ≡ 0
    → drop_fd g.fd (fs ++ g ∷ []) ≡ (fs, some g.fd_inum)
unfolding drop_fd
drop_fd-append [] g h = ground arith
drop_fd-append (f ∷ []) g h = ground arith
drop_fd-append (f ∷ h ∷ fs) g e = ground (arith, drop_fd-append (h ∷ fs) g)

drop_ref-add_ref :
    (inode : ℕ) (ns : List OftInode)
    → AllReferenced ns
    → drop_ref inode (add_ref inode ns) ≡ some (ns, false)
unfolding drop_ref add_ref
drop_ref-add_ref inode [] h = ground arith
drop_ref-add_ref inode (n ∷ ns) h = ground (arith, h, drop_ref-add_ref inode ns h.1)

-- Closing a descriptor whose inode stays.
oft_remove-live :
    (fd : ℕ) (s : Fs) {fds : List OftFd} {inode : ℕ} {ns : List OftInode}
    → drop_fd fd s.oft_fds ≡ (fds, some inode)
    → drop_ref inode s.oft_inodes ≡ some (ns, false)
    → oft_remove fd s ≡ done true (record s { oft_inodes = ns; oft_fds = fds })
unfolding oft_remove
oft_remove-live fd s e h = ground (arith, e, h)

-- In a table whose counts agree, oft_remove of the descriptor that oft_add gave takes it out again
-- and leaves everything as it was before oft_add.
pub oft_remove-oft_add :
    (inode flags : ℕ) (s : Fs)
    → IsTable s.oft_inodes s.oft_fds
    → oft_remove (oft_add inode flags s).1 (oft_add inode flags s).0 ≡ done true s
unfolding oft_remove oft_add
oft_remove-oft_add inode flags s t =
    let fd : ℕ = first_fd (suc (length s.oft_fds)) min_fd s.oft_fds in
    let g : OftFd = record { fd = fd; fd_inum = inode; flags = flags } in
    let free =
      first_fd-free (suc (length s.oft_fds)) min_fd s.oft_fds
        (omega (arith, above-length min_fd s.oft_fds)) in
    oft_remove-live fd _ (drop_fd-append s.oft_fds g free.1)
      (drop_ref-add_ref inode s.oft_inodes t.referenced)

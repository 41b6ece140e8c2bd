-- ===== src/Layer2/OpenFiles/Close.antt =====
-- oft_remove and oft_attempt_delete: when the file behind an inode is deleted.
use filesystem.Layer2.File.{del}
use filesystem.Layer2.OpenFiles.{
  OftInode, OftFd, Fs, lift, oft_remove, set_pending, oft_attempt_delete, oft_lookup,
}
use filesystem.Layer2.OpenFiles.Remove.{
  remove_fd, drop_fd-absent, drop_fd_lem, inode_of-lookup, opens-remove_fd, fd_count-remove_fd,
  oft_lookup-remove_fd, pending, remove_ref, refs-zero, drop_ref_lem, refs-remove_ref,
  inode_count-remove_ref, remove_ref-AllReferenced,
}
use filesystem.Layer2.OpenFiles.Table.{opens, fd_count, refs, inode_count, AllReferenced, IsTable}
use filesystem.Prelude.{
  ◌==◌, if◌then◌else◌, ℕ, ◌+◌, ◌<◌, ◌≡◌, refl, ◌≢◌, Bool, true, false, ◌&&◌, none, some, List, [],
  ◌∷◌, arith,
}
use filesystem.Prelude.Run.{Run, done, and_then, attempt}

-- The second table without a descriptor, and what is left to do for its inode.
opened_refs :
    (fd : ℕ) {i flags : ℕ} {ns : List OftInode} {fds : List OftFd}
    → IsTable ns fds
    → oft_lookup fd fds ≡ some (i, flags)
    → 0 < refs i ns
opened_refs fd {i} {flags} {ns} {fds} t e = ground (
  arith,
  t.counted i,
  opens-remove_fd fd i fds {i = i} (inode_of-lookup fd fds {i = i} {flags = flags} e),
)

closed_IsTable :
    (fd : ℕ) {i flags : ℕ} {ns : List OftInode} {fds : List OftFd}
    → IsTable ns fds
    → oft_lookup fd fds ≡ some (i, flags)
    → IsTable (remove_ref i ns) (remove_fd fd fds)
closed_IsTable fd {i} {flags} {ns} {fds} t e =
    let inode = inode_of-lookup fd fds {i = i} {flags = flags} e in
    let some_ref = opened_refs fd t e in
    record {
      counted = λ j. omega (
        arith,
        t.counted j,
        opens-remove_fd fd j fds {i = i} inode,
        refs-remove_ref i j ns (t.single_inode i) some_ref,
      );
      single_inode = λ j. omega (arith, t.single_inode j, inode_count-remove_ref i j ns);
      single_fd = λ x. omega (arith, t.single_fd x, fd_count-remove_fd fd x fds);
      referenced = remove_ref-AllReferenced i ns t.referenced;
    }

-- What a run of oft_remove of the descriptor `fd`, which stands for the inode `i`, comes to: the table
-- without the descriptor, and the deletion of the file where this was its last descriptor and it was
-- unlinked.
pub record Closed (fd i : ℕ) (s : Fs) (run : Run Fs Bool) : Type 0 where
  pub ns : List OftInode
  pub fds : List OftFd
  pub table : IsTable ns fds
  pub looked_up : (x : ℕ) → oft_lookup x fds ≡ (if fd == x then none else oft_lookup x s.oft_fds)
  pub closed_once : (j : ℕ) → opens j s.oft_fds ≡ opens j fds + (if i == j then 1 else 0)
  pub runs : run ≡ (
      if opens i s.oft_fds == 1 && pending i s.oft_inodes
      then and_then
          (attempt (lift (del i)) (record s { oft_fds = fds }))
          (λ _ t. done true (record t { oft_inodes = ns }))
      else done true (record s { oft_inodes = ns; oft_fds = fds }))

-- In a table whose counts agree, oft_remove of a descriptor in use takes out that descriptor and no
-- other, and the counts agree again. The file is deleted when the descriptor was the last one of its
-- inode and the inode is marked for deletion, and is left alone otherwise.
pub oft_remove-Closed :
    (fd : ℕ) (s : Fs) {i flags : ℕ}
    → IsTable s.oft_inodes s.oft_fds
    → oft_lookup fd s.oft_fds ≡ some (i, flags)
    → Closed fd i s (oft_remove fd s)
unfolding oft_remove
oft_remove-Closed fd s {i} {flags} t e =
    let inode = inode_of-lookup fd s.oft_fds {i = i} {flags = flags} e in
    record {
      ns = remove_ref i s.oft_inodes;
      fds = remove_fd fd s.oft_fds;
      table = closed_IsTable fd t e;
      looked_up = λ x. oft_lookup-remove_fd fd x s.oft_fds (t.single_fd fd);
      closed_once = λ j. opens-remove_fd fd j s.oft_fds {i = i} inode;
      runs = ground (
        arith,
        drop_fd_lem fd s.oft_fds (t.single_fd fd),
        inode,
        drop_ref_lem i s.oft_inodes (t.single_inode i) (opened_refs fd t e),
        t.counted i,
      );
    }

-- A descriptor that is not in use changes nothing.
pub oft_remove-unused :
    (fd : ℕ) (s : Fs) → fd_count fd s.oft_fds ≡ 0 → oft_remove fd s ≡ done false s
unfolding oft_remove
oft_remove-unused fd s h = ground (arith, drop_fd-absent fd s.oft_fds h)

-- The first table with the flag of an inode set.
abbrev mark : (inode : ℕ) → List OftInode → List OftInode
mark inode [] = []
mark inode (n ∷ ns) =
    if n.inum == inode then record n { pending_deletion = true } ∷ ns else n ∷ mark inode ns

set_pending_lem :
    (i : ℕ) (ns : List OftInode)
    → set_pending i ns ≡ (if inode_count i ns == 0 then none else some (mark i ns))
unfolding set_pending
set_pending_lem i [] = refl
set_pending_lem i (n ∷ ns) = ground (arith, set_pending_lem i ns)

mark_counts :
    (i j : ℕ) (ns : List OftInode)
    → (refs j (mark i ns) ≡ refs j ns) × (inode_count j (mark i ns) ≡ inode_count j ns)
mark_counts i j [] = ground arith
mark_counts i j (n ∷ ns) = ground (arith, mark_counts i j ns)

mark-AllReferenced : (i : ℕ) (ns : List OftInode) → AllReferenced ns → AllReferenced (mark i ns)
mark-AllReferenced i [] h = h
mark-AllReferenced i (n ∷ ns) h = ground (arith, h, mark-AllReferenced i ns h.1)

mark-pending : (i : ℕ) (ns : List OftInode) → 0 < refs i ns → pending i (mark i ns) ≡ true
mark-pending i [] h = absurd (omega arith)
mark-pending i (n ∷ ns) h = ground (arith, mark-pending i ns)

mark-pending_ne : (i j : ℕ) (ns : List OftInode) → i ≢ j → pending j (mark i ns) ≡ pending j ns
mark-pending_ne i j [] ne = refl
mark-pending_ne i j (n ∷ ns) ne = ground (arith, mark-pending_ne i j ns)

entry-refs : (i : ℕ) (ns : List OftInode) → AllReferenced ns → 0 < inode_count i ns → 0 < refs i ns
entry-refs i [] r h = absurd (omega arith)
entry-refs i (n ∷ ns) r h = ground (arith, r, entry-refs i ns r.1)

-- What a run of oft_attempt_delete of the inode `i` comes to: the mark, for a file that is open, and
-- the deletion, for one that is not.
pub record Unlinked (i : ℕ) (s : Fs) (run : Run Fs Bool) : Type 0 where
  pub ns : List OftInode
  pub table : IsTable ns s.oft_fds
  pub marked : 0 < opens i s.oft_fds → pending i ns ≡ true
  pub others : (j : ℕ) → i ≢ j → pending j ns ≡ pending j s.oft_inodes
  pub runs : run ≡ (
      if opens i s.oft_fds == 0
      then and_then (attempt (lift (del i)) s) (λ _ t. done true t)
      else done false (record s { oft_inodes = ns }))

mark-IsTable :
    (i : ℕ) {ns : List OftInode} {fds : List OftFd} → IsTable ns fds → IsTable (mark i ns) fds
mark-IsTable i {ns} t = record {
  counted = λ j. rw ((mark_counts i j ns).0) (t.counted j);
  single_inode = λ j. rw ((mark_counts i j ns).1) (t.single_inode j);
  single_fd = t.single_fd;
  referenced = mark-AllReferenced i ns t.referenced;
}

-- In a table whose counts agree, oft_attempt_delete of an inode that some descriptor stands for
-- deletes nothing and marks the inode, and no other; the counts agree as before. An inode that no descriptor stands for
-- is deleted at once.
pub oft_attempt_delete-Unlinked :
    (i : ℕ) (s : Fs) → IsTable s.oft_inodes s.oft_fds → Unlinked i s (oft_attempt_delete i s)
unfolding oft_attempt_delete
oft_attempt_delete-Unlinked i s t = record {
  ns = mark i s.oft_inodes;
  table = mark-IsTable i t;
  marked = λ h. mark-pending i s.oft_inodes (omega (arith, t.counted i));
  others = λ j ne. mark-pending_ne i j s.oft_inodes ne;
  runs = ground (
    arith,
    set_pending_lem i s.oft_inodes,
    t.counted i,
    entry-refs i s.oft_inodes t.referenced,
    refs-zero i s.oft_inodes,
  );
}

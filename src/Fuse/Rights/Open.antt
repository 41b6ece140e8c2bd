-- ===== src/Fuse/Rights/Open.antt =====
-- Which right fs_open asks for.
use filesystem.Fuse.{Handler, find_path, access_mode, o_wronly, o_rdwr, check_access, fs_open}
use filesystem.Fuse.Rights.{
  target_of, can_open, Permitted, refused, granted, find_path-Reads, inode_or_junk-Reads,
}
use filesystem.Layer0.{Superblock, Disk, Op}
use filesystem.Layer1.Ready.{Ready}
use filesystem.Layer2.Dir.{is_dir}
use filesystem.Layer2.OpenFiles.{Fs, lift, oft_add}
use filesystem.Layer2.Path.{FilePath, Lookup}
use filesystem.Layer2.Perm.{Access}
use filesystem.Layer2.Reads.{Reads, answer, refusal, Reads-Answers}
use filesystem.Layer2.Reads.Paths.{check_permissions-Reads}
use filesystem.Prelude.{◌==◌, if◌then◌else◌, ℕ, ◌≡◌, refl, Bool, true, false, ◌&&◌, ◌||◌, arith}
use filesystem.Prelude.Run.{Error, eisdir, Result, ok, err, done, throw, ◌>>=◌, ◌>>◌, from_result}

check_access-can_open :
    (flags : ℕ) (a : Access) → check_access flags a ≡ ok tt → can_open flags a ≡ true
unfolding check_access
check_access-can_open flags a h = ground arith

module _ {s : Fs} {sb : Superblock} {d : Disk} {n : ℕ} (r : Ready s.vol sb d n) where
  module _ {A : Type 0} {find : Op Lookup} {uid gid : ℕ} {who : Lookup → ℕ} {allows : Access → Bool}
      {act : Lookup → Handler A} where
    lift_bind :
        {B : Type 0} (m : Op B) (k : B → Handler A)
        → Reads r m
        → ((b : B) → m s.vol ≡ done b s.vol → Permitted find uid gid who allows act s (k b s))
        → Permitted find uid gid who allows act s ((lift m >>= k) s)
    lift_bind m k km kk = elim (Reads-Answers r km) [
      | refusal e q ↦ refused e (rw q refl)
      | answer b q ↦ rw q (kk b q)
    ]

    from_result_then :
        (q : Result (Unit {0})) (k : Handler A)
        → (q ≡ ok tt → Permitted find uid gid who allows act s (k s))
        → Permitted find uid gid who allows act s ((from_result q >> k) s)
    from_result_then (ok tt) k g = g refl
    from_result_then (err e) k g = refused e refl

    unless :
        (b : Bool) (e : Error) (k : Handler A)
        → Permitted find uid gid who allows act s (k s)
        → Permitted find uid gid who allows act s ((if b then throw e else k) s)
    unless true e k g = refused e refl
    unless false e k g = g

  -- On a volume in use fs_open fails and leaves everything as it was, or the caller has the right to read
  -- the file if it is opened to read, and to write it if it is opened to write, and the descriptor is
  -- entered in the table.
  pub fs_open-Permitted :
      (path : FilePath) (flags uid gid : ℕ)
      → Permitted
          (find_path path uid gid)
          uid
          gid
          target_of
          (can_open flags)
          (λ l t. done (oft_add l.target_inum flags t).1 (oft_add l.target_inum flags t).0)
          s
          (fs_open path flags uid gid s)
  unfolding fs_open
  fs_open-Permitted path flags uid gid = lift_bind _ _ (find_path-Reads r path uid gid) λ l f.
      lift_bind _ _ (check_permissions-Reads r l.target_inum uid gid) λ a c.
        from_result_then _ _ λ q. lift_bind _ _ (inode_or_junk-Reads r l.target_inum) λ m _.
          unless (is_dir m.mode && (access_mode flags == o_wronly || access_mode flags == o_rdwr))
            eisdir (λ t. done (oft_add l.target_inum flags t).1 (oft_add l.target_inum flags t).0)
            (granted l a f c (check_access-can_open flags a q) refl)

-- ===== src/Fuse/Rights.antt =====
-- The handlers that look a path up and ask for a right before they act: on a volume in use they fail
-- and change nothing, or the caller has the right on the inode that the path names.
pub mod Calls
pub mod Open
use filesystem.Fuse.{Handler, find_path, inode_or_junk, access_mode, o_rdonly, o_wronly}
use filesystem.Layer0.{Superblock, Disk, Vol, Op}
use filesystem.Layer1.Inode.{invalid_inode}
use filesystem.Layer1.Keeps.{keep_pure, keep_throw, keep_if, keep_attempt, keep_get, keep_bind}
use filesystem.Layer1.Ready.{Ready}
use filesystem.Layer2.OpenFiles.{Fs, lift}
use filesystem.Layer2.Path.{FilePath, Lookup}
use filesystem.Layer2.Perm.{Access, check_permissions}
use filesystem.Layer2.Reads.{Reads, answer, refusal, Reads-Answers, inode_read-Reads}
use filesystem.Layer2.Reads.Paths.{namei-Reads}
use filesystem.Prelude.{◌==◌, if◌then◌else◌, ℕ, ◌≡◌, refl, Bool, true, false, ◌&&◌, ◌||◌, not}
use filesystem.Prelude.Int.{pos}
use filesystem.Prelude.Run.{Error, enoent, Result, ok, err, Run, done, fail, throw, ◌>>=◌}

abbrev grants : Result (Unit {0}) → Bool
grants (ok _) = true
grants (err _) = false

-- Whose right is asked for, and which.
abbrev pub parent_of : Lookup → ℕ
parent_of l = l.parent_inum

abbrev pub target_of : Lookup → ℕ
target_of l = l.target_inum

abbrev pub can_write : Access → Bool
can_write a = a.write

-- Reading, writing and searching a directory, which a new entry needs.
abbrev pub can_enter : Access → Bool
can_enter a = a.read && a.write && a.exec

-- Opening to read needs the right to read, and to write the right to write.
abbrev pub can_open : (flags : ℕ) → Access → Bool
can_open flags a =
    not (access_mode flags == 3)
    && (access_mode flags == o_wronly || a.read)
    && (access_mode flags == o_rdonly || a.write)

module _ {B : Type 0} (find : Op Lookup) (uid gid : ℕ) (who : Lookup → ℕ) (allows : Access → Bool)
    (v : Vol) (out : Lookup → Run Vol B) where
  -- The tests of a call have passed, or it fails and leaves the globals as they are.
  pub data Guarded (run : Run Vol B) : Type 0 where
    stopped : (e : Error) → run ≡ fail e v → Guarded run
    passed :
        (l : Lookup) (a : Access)
        → find v ≡ done l v
        → check_permissions (who l) uid gid v ≡ done a v
        → allows a ≡ true
        → run ≡ out l
        → Guarded run

module _ {A : Type 0} (find : Op Lookup) (uid gid : ℕ) (who : Lookup → ℕ) (allows : Access → Bool)
    (act : Lookup → Handler A) (s : Fs) where
  -- A handler that is refused fails and changes nothing; where it is granted, the lookup succeeds, the
  -- caller's access to the inode `who` allows the call, and the handler does what `act` does.
  pub data Permitted (run : Run Fs A) : Type 0 where
    refused : (e : Error) → run ≡ fail e s → Permitted run
    granted :
        (l : Lookup) (a : Access)
        → find s.vol ≡ done l s.vol
        → check_permissions (who l) uid gid s.vol ≡ done a s.vol
        → allows a ≡ true
        → run ≡ act l s
        → Permitted run

module _ {A : Type 0} {find : Op Lookup} {uid gid : ℕ} {who : Lookup → ℕ} {allows : Access → Bool}
    {s : Fs} where
  pub then_handler :
      {B : Type 0} (m : Op B) (out : Lookup → B) (k : B → Handler A)
      → Guarded find uid gid who allows s.vol (λ l. done (out l) s.vol) (m s.vol)
      → Permitted find uid gid who allows (λ l. k (out l)) s ((lift m >>= k) s)
  then_handler m out k (stopped e q) = refused e (rw q refl)
  then_handler m out k (passed l a f c h q) = granted l a f c h (rw q refl)

  pub then_op :
      {B : Type 0} (m : Op B) (out : Lookup → B) (k : B → Op A)
      → Guarded find uid gid who allows s.vol (λ l. done (out l) s.vol) (m s.vol)
      → Permitted find uid gid who allows (λ l. lift (k (out l))) s (lift (m >>= k) s)
  then_op m out k (stopped e q) = refused e (rw q refl)
  then_op m out k (passed l a f c h q) = granted l a f c h (rw q refl)

  pub then_lift :
      (m : Op A) (act : Lookup → Op A)
      → Guarded find uid gid who allows s.vol (λ l. act l s.vol) (m s.vol)
      → Permitted find uid gid who allows (λ l. lift (act l)) s (lift m s)
  then_lift m act (stopped e q) = refused e (rw q refl)
  then_lift m act (passed l a f c h q) = granted l a f c h (rw q refl)

module _ {v : Vol} {sb : Superblock} {d : Disk} {n : ℕ} (r : Ready v sb d n) where
  pub find_path-Reads : (path : FilePath) (uid gid : ℕ) → Reads r (find_path path uid gid)
  unfolding find_path
  find_path-Reads path uid gid =
      keep_bind (namei-Reads r path uid gid)
        λ l. keep_if (l.target_inum == invalid_inode) (keep_throw enoent) (keep_pure l)

  pub inode_or_junk-Reads : (inum : ℕ) → Reads r (inode_or_junk inum)
  unfolding inode_or_junk
  inode_or_junk-Reads inum =
      keep_bind keep_get
        λ w. keep_bind (keep_attempt (inode_read-Reads r (pos inum))) λ q. keep_pure _

  module _ {A : Type 0} {find : Op Lookup} {uid gid : ℕ} {who : Lookup → ℕ} {allows : Access → Bool}
      {out : Lookup → Run Vol A} where
    -- A call that changes nothing comes first.
    pub guard_bind :
        {B : Type 0} {m : Op B} (k : B → Op A)
        → Reads r m
        → ((b : B) → m v ≡ done b v → Guarded find uid gid who allows v out (k b v))
        → Guarded find uid gid who allows v out ((m >>= k) v)
    guard_bind k km kk = elim (Reads-Answers r km) [
      | refusal e q ↦ stopped e (rw q refl)
      | answer b q ↦ rw q (kk b q)
    ]

    -- A test that does not depend on the right, and the right itself.
    pub other_test :
        (b : Bool) (e : Error) (m : Op A)
        → Guarded find uid gid who allows v out (m v)
        → Guarded find uid gid who allows v out ((if b then throw e else m) v)
    other_test true e m g = stopped e refl
    other_test false e m g = g

    pub right_test :
        (b : Bool) (e : Error) (m : Op A)
        → (b ≡ false → Guarded find uid gid who allows v out (m v))
        → Guarded find uid gid who allows v out ((if b then throw e else m) v)
    right_test true e m g = stopped e refl
    right_test false e m g = g refl

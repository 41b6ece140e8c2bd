-- ===== src/Fuse/Mounted.antt =====
-- What the handlers keep: a volume in use with the layout that it was made with, and an open file table
-- whose counts agree.
use filesystem.Fuse.{Handler}
use filesystem.Layer0.{Superblock, Vol, Op}
use filesystem.Layer1.Keeps.{InUse, MayLoop, Ends, well, badly, never, Keeping}
use filesystem.Layer1.Keeps.Calls.{Keeps}
use filesystem.Layer2.OpenFiles.{Fs, lifted, lift}
use filesystem.Layer2.OpenFiles.Table.{IsTable}
use filesystem.Prelude.{ℕ}
use filesystem.Prelude.Run.{Result, ok, err, Run, from_result}

pub record Mounted (sb : Superblock) (n : ℕ) (s : Fs) : Type 0 where
  pub volume : InUse sb n s.vol
  pub table : IsTable s.oft_inodes s.oft_fds

module _ (sb : Superblock) (n : ℕ) where
  abbrev pub KeepsMounted : {A : Type 0} → Handler A → Type 0
  KeepsMounted h = Keeping MayLoop (Mounted sb n) h

  Mounted-vol :
      {s : Fs} (v : Vol) → Mounted sb n s → InUse sb n v → Mounted sb n (record s { vol = v })
  Mounted-vol v m u = record { volume = u; table = m.table }

  module _ {A : Type 0} where
    Ends-lifted :
        {s : Fs} {r : Run Vol A}
        → Mounted sb n s
        → Ends MayLoop (InUse sb n) r
        → Ends MayLoop (Mounted sb n) (lifted s r)
    Ends-lifted h (well {s = v} u) = well (Mounted-vol v h u)
    Ends-lifted h (badly {s = v} u) = badly (Mounted-vol v h u)
    Ends-lifted h (never d) = never d

    pub keep_lift : {m : Op A} → Keeps MayLoop sb n m → KeepsMounted (lift m)
    keep_lift km = record { keep = λ s h. Ends-lifted h (km.keep s.vol h.volume) }

    pub keep_from_result : (r : Result A) → KeepsMounted (from_result r)
    keep_from_result (ok a) = record { keep = λ s h. well h }
    keep_from_result (err e) = record { keep = λ s h. badly h }

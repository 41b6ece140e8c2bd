-- ===== src/Layer1/Keeps.antt =====
-- What every call keeps: a volume in use stays in use, with the same layout. The rules below follow
-- the way the calls are put together.
pub mod Data
pub mod Calls
pub mod Format
pub mod Tables
use filesystem.Layer0.{Superblock, Disk, Vol}
use filesystem.Layer1.Ready.{Ready}
use filesystem.Prelude.{if◌then◌else◌, ℕ, ◌≡◌, Bool, true, false, Option, none, some}
use filesystem.Prelude.Run.{
  Error, Result, ok, err, Run, done, fail, diverge, pure, throw, get, and_then, ◌>>=◌, ◌>>◌, caught,
  attempt,
}

-- Two superblocks that name the same areas.
pub record SameLayout (sb sb' : Superblock) : Type 0 where
  pub ibitmap : sb'.ibitmap_block_offset ≡ sb.ibitmap_block_offset
  pub ibitmap_length : sb'.ibitmap_size ≡ sb.ibitmap_size
  pub ilist : sb'.ilist_block_offset ≡ sb.ilist_block_offset
  pub ilist_length : sb'.ilist_size ≡ sb.ilist_size
  pub data_area : sb'.data_block_offset ≡ sb.data_block_offset
  pub data_length : sb'.data_size ≡ sb.data_size
  pub inodes : sb'.num_inodes ≡ sb.num_inodes

-- A volume in use, with the areas that `sb` names on a disk of `n` blocks.
pub record InUse (sb : Superblock) (n : ℕ) (v : Vol) : Type 0 where
  pub now : Superblock
  pub disk_now : Disk
  pub ready : Ready v now disk_now n
  pub same : SameLayout sb now

-- Whether a call has a loop that the model bounds by fuel.
abbrev pub MayLoop : Type 0
MayLoop = Unit {0}

abbrev pub NoLoop : Type 0
NoLoop = ⊥

-- However a run ends, its state has the property. That it does not end is left open where `D` holds.
pub data Ends {S A : Type 0} (D : Type 0) (P : S → Type 0) : Run S A → Type 0 where
  well : {a : A} {s : S} → P s → Ends D P (done a s)
  badly : {e : Error} {s : S} → P s → Ends D P (fail e s)
  never : D → Ends D P diverge

-- A call that keeps the property.
pub record Keeping {S A : Type 0} (D : Type 0) (P : S → Type 0) (m : S → Run S A) : Type 0 where
  pub keep : (s : S) → P s → Ends D P (m s)

module _ {S A : Type 0} {D : Type 0} {P : S → Type 0} where
  pub keep_pure : (a : A) → Keeping D P (pure a)
  keep_pure a = record { keep = λ s h. well h }

  pub keep_throw : (e : Error) → Keeping D P (throw {A = A} e)
  keep_throw e = record { keep = λ s h. badly h }

  pub keep_if :
      (b : Bool) {m k : S → Run S A}
      → Keeping D P m
      → Keeping D P k
      → Keeping D P (if b then m else k)
  keep_if true km kk = km
  keep_if false km kk = kk

  pub keep_bool :
      (b : Bool) {m k : S → Run S A}
      → Keeping D P m
      → Keeping D P k
      → Keeping D P (elim b [ true ↦ m | false ↦ k ])
  keep_bool true km kk = km
  keep_bool false km kk = kk

  Ends-caught : {r : Run S A} → Ends D P r → Ends D P (caught r)
  Ends-caught (well h) = well h
  Ends-caught (badly h) = well h
  Ends-caught (never d) = never d

  pub keep_attempt : {m : S → Run S A} → Keeping D P m → Keeping D P (attempt m)
  keep_attempt km = record { keep = λ s h. Ends-caught (km.keep s h) }

module _ {S : Type 0} {D : Type 0} {P : S → Type 0} where
  pub keep_get : Keeping D P get
  keep_get = record { keep = λ s h. well h }

module _ {S A B : Type 0} {D : Type 0} {P : S → Type 0} where
  Ends-and_then :
      {r : Run S A} {k : A → S → Run S B}
      → Ends D P r
      → ((a : A) → Keeping D P (k a))
      → Ends D P (and_then r k)
  Ends-and_then (well {a} {s} h) kk = (kk a).keep s h
  Ends-and_then (badly h) kk = badly h
  Ends-and_then (never d) kk = never d

  pub keep_bind :
      {m : S → Run S A} {k : A → S → Run S B}
      → Keeping D P m
      → ((a : A) → Keeping D P (k a))
      → Keeping D P (m >>= k)
  keep_bind km kk = record { keep = λ s h. Ends-and_then (km.keep s h) kk }

  pub keep_seq :
      {m : S → Run S A} {k : S → Run S B} → Keeping D P m → Keeping D P k → Keeping D P (m >> k)
  keep_seq km kk = record { keep = λ s h. Ends-and_then (km.keep s h) (λ _. kk) }

  -- A branch on an option, and one on a result.
  pub keep_option :
      (o : Option A) {k : S → Run S B} {f : A → S → Run S B}
      → Keeping D P k
      → ((a : A) → Keeping D P (f a))
      → Keeping D P (elim o [ none ↦ k | some a ↦ f a ])
  keep_option none kk kf = kk
  keep_option (some a) kk kf = kf a

  pub keep_result :
      (r : Result A) {k : Error → S → Run S B} {f : A → S → Run S B}
      → ((e : Error) → Keeping D P (k e))
      → ((a : A) → Keeping D P (f a))
      → Keeping D P (elim r [ err e ↦ k e | ok a ↦ f a ])
  keep_result (err e) kk kf = kk e
  keep_result (ok a) kk kf = kf a

-- ===== src/Prelude/Run.antt =====
-- C functions that return a status code and change global state. `Result` is what a call returns,
-- `Run` the call with the state that it leaves: a negative code leaves a state too.
use Prim.Native.Nat.{ℕ}
use mathlib.Core.Option.{Option, none, some}
use mathlib.Core.Path.{◌≡◌, refl}

-- The codes of globals.h, layer1.h and errno.h that the code returns. `short` is a count of bytes
-- that a function returns in place of a code.
pub data Error : Type 0 where
  disc_uninitialized invalid_block : Error
  totalblocks_invalid fs_too_small blocksize_too_small bad_uid unexpected_error : Error
  data_full bad_inode ilist_full : Error
  malformed_directory not_dir bad_index not_in_dir invalid_page : Error
  eacces enoent enotdir enametoolong eexist enospc eisdir einval ebadf : Error
  short : ℕ → Error

pub data Result (A : Type 0) : Type 0 where
  ok : A → Result A
  err : Error → Result A

-- `diverge`: a loop that does not end in the fuel given.
pub data Run (S A : Type 0) : Type 0 where
  done : A → S → Run S A
  fail : Error → S → Run S A
  diverge : Run S A

module _ {S : Type 0} where
  abbrev pub pure : {A : Type 0} → A → S → Run S A
  pure a s = done a s

  abbrev pub throw : {A : Type 0} → Error → S → Run S A
  throw e s = fail e s

  abbrev pub get : S → Run S S
  get s = done s s

module _ {S A B : Type 0} where
  abbrev pub and_then : Run S A → (A → S → Run S B) → Run S B
  and_then (done a s) k = k a s
  and_then (fail e s) k = fail e s
  and_then diverge k = diverge

  infixl 5 ◌>>=◌ ◌>>◌
  abbrev pub ◌>>=◌ : (S → Run S A) → (A → S → Run S B) → S → Run S B
  ◌>>=◌ m k s = and_then (m s) k

  abbrev pub ◌>>◌ : (S → Run S A) → (S → Run S B) → S → Run S B
  ◌>>◌ m k s = and_then (m s) λ _. k

module _ {S A : Type 0} where
  abbrev pub caught : Run S A → Run S (Result A)
  caught (done a s) = done (ok a) s
  caught (fail e s) = done (err e) s
  caught diverge = diverge

  -- A call whose status the caller looks at itself, or drops.
  abbrev pub attempt : (S → Run S A) → S → Run S (Result A)
  attempt m s = caught (m s)

  -- The status that a call returned, returned by the caller.
  abbrev pub from_result : Result A → S → Run S A
  from_result (ok a) s = done a s
  from_result (err e) s = fail e s

  -- A total run: it ends well, and the result and the state have the property.
  abbrev pub Returns : (A → S → Type 0) → Run S A → Type 0
  Returns P (done a s) = P a s
  Returns P (fail e s) = ⊥
  Returns P diverge = ⊥

  -- What a call returns, its state forgotten.
  abbrev pub value : Run S A → Option A
  value (done a s) = some a
  value (fail e s) = none
  value diverge = none

module _ {S A : Type 0} {P : A → S → Type 0} where
  -- What a total run returns, and what follows from it.
  pub Returns-done : (r : Run S A) → Returns P r → (a : A) × (s : S) × (r ≡ done a s) × P a s
  Returns-done (done a s) h = (a, s, refl, h)
  Returns-done (fail e s) h = absurd h
  Returns-done diverge h = absurd h

  pub Returns-imp :
      {Q : A → S → Type 0} (r : Run S A)
      → ((a : A) (s : S) → P a s → Q a s)
      → Returns P r
      → Returns Q r
  Returns-imp (done a s) f h = f a s h
  Returns-imp (fail e s) f h = absurd h
  Returns-imp diverge f h = absurd h

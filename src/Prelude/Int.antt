-- ===== src/Prelude/Int.antt =====
-- C's `int` where a function tests its sign: an argument that is a block, inode or user number.
use Prim.Native.Nat.{ℕ, ◌-◌}
use filesystem.Prelude.Tests.{ltb, if◌then◌else◌}

-- `negsuc n` is -(n + 1).
pub data ℤ : Type 0 where
  pos : ℕ → ℤ
  negsuc : ℕ → ℤ

-- An unsigned word of 32 bits that is passed as an int.
abbrev pub to_int : ℕ → ℤ
to_int w = if ltb w 2147483648 then pos w else negsuc (4294967295 - w)

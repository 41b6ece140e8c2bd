-- ===== src/Prelude/Bits.antt =====
-- The & of a number with a mask, taken twice.
use Prim.Native.Nat.{ℕ, zero, suc, ◌+◌, ◌*◌, ◌/◌, ◌%◌, ◌≤◌, min, bit_and, digits, bit_and-bitwise}
use mathlib.Core.Path.{◌≡◌, refl}
use native.Mathlib.Omega.{arith}

-- The digits that bit_and goes through, with enough rounds for the first number.
abbrev both : (rounds a b : ℕ) → ℕ
both rounds a b = digits (λ _. zero) min rounds a b

both-rounds : (r s a b : ℕ) → a ≤ r → a ≤ s → both r a b ≡ both s a b
both-rounds zero zero a b h k = refl
both-rounds zero (suc s) zero b h k = refl
both-rounds zero (suc s) (suc a) b h k = absurd (omega arith)
both-rounds (suc r) zero zero b h k = refl
both-rounds (suc r) zero (suc a) b h k = absurd (omega arith)
both-rounds (suc r) (suc s) zero b h k = refl
both-rounds (suc r) (suc s) (suc a) b h k =
    omega (arith, both-rounds r s (suc a / 2) (b / 2) (omega arith) (omega arith))

none_and : (b : ℕ) → bit_and 0 b ≡ 0
none_and b = bit_and-bitwise 0 b

-- The lowest digit apart.
pub bit_and_halves : (a b : ℕ) → bit_and a b ≡ 2 * bit_and (a / 2) (b / 2) + min (a % 2) (b % 2)
bit_and_halves zero b = omega (arith, none_and b, none_and (b / 2))
bit_and_halves (suc a) b = omega (
  arith,
  bit_and-bitwise (suc a) b,
  bit_and-bitwise (suc a / 2) (b / 2),
  both-rounds a (suc a / 2) (suc a / 2) (b / 2) (omega arith) (omega arith),
)

-- The lowest digit of a number that is made of one.
half-double :
    (q low c : ℕ) → low ≤ 1 → bit_and (2 * q + low) c ≡ 2 * bit_and q (c / 2) + min low (c % 2)
half-double q low c h =
    let e : (2 * q + low) / 2 ≡ q = omega arith in
    let e' : (2 * q + low) % 2 ≡ low = omega arith in rw (e, e') at (bit_and_halves (2 * q + low) c)

masked : (rounds a c : ℕ) → a ≤ rounds → (bit_and (bit_and a c) c ≡ bit_and a c) × (bit_and a c ≤ c)
masked rounds zero c h = ground (arith, none_and c)
masked zero (suc a) c h = absurd (omega arith)
masked (suc rounds) (suc a) c h =
    let q : ℕ = bit_and (suc a / 2) (c / 2) in
    let ih = masked rounds (suc a / 2) (c / 2) (omega arith) in
    let e = bit_and_halves (suc a) c in
    let low : ℕ = min (suc a % 2) (c % 2) in
    (rw e (omega (arith, half-double q low c (omega arith), ih.0)), omega (arith, e, ih.1))

pub bit_and_idem : (a c : ℕ) → bit_and (bit_and a c) c ≡ bit_and a c
bit_and_idem a c = (masked a a c (omega arith)).0

pub bit_and-le : (a c : ℕ) → bit_and a c ≤ c
bit_and-le a c = (masked a a c (omega arith)).1

-- ===== src/Layer1/Bitmap/Bits.antt =====
-- The bits of a byte of the bitmap, by tables over all bytes.
use filesystem.Layer1.Bitmap.{bit_mask, clear_bit}
use filesystem.Prelude.{
  ltb, ◌==◌, ltb→lt, ℕ, zero, suc, ◌*◌, ◌^◌, ◌<◌, bit_and, bit_or, ◌≡◌, refl, sym, Bool, true,
  false, ◌&&◌, ◌||◌, not, arith,
}

-- The test of inode_create: whether a bit is set, the most significant one being 0.
abbrev pub bit_set : (byte bit : ℕ) → Bool
bit_set byte bit = not (bit_and (byte * 2 ^ bit) 128 == 0)

-- A test of all numbers below a bound, by evaluation.
all_below : ℕ → (ℕ → Bool) → Bool
all_below zero p = true
all_below (suc n) p = p n && all_below n p

all_below-true : (n : ℕ) (p : ℕ → Bool) (x : ℕ) → all_below n p ≡ true → x < n → p x ≡ true
unfolding all_below
all_below-true zero p x h l = absurd (omega arith)
all_below-true (suc n) p x h l = ground (arith, all_below-true n p x)

abbrev same_bool : Bool → Bool → Bool
same_bool true b = b
same_bool false b = not b

same_bool-eq : (a b : Bool) → same_bool a b ≡ true → a ≡ b
same_bool-eq true b h = sym h
same_bool-eq false true h = h
same_bool-eq false false h = refl

abbrev for_bits : (ℕ → ℕ → ℕ → Bool) → Bool
for_bits p = all_below 256 λ byte. all_below 8 λ i. all_below 8 λ j. p byte i j

for_bits-true :
    (p : ℕ → ℕ → ℕ → Bool) (byte i j : ℕ)
    → for_bits p ≡ true
    → byte < 256
    → i < 8
    → j < 8
    → p byte i j ≡ true
for_bits-true p byte i j h a b c =
    all_below-true 8 (p byte i) j
      (all_below-true 8 (λ i. all_below 8 (p byte i)) i
        (all_below-true 256 (λ byte. all_below 8 λ i. all_below 8 (p byte i)) byte h a) b)
      c

set_table :
    for_bits (λ byte i j.
      same_bool (bit_set (bit_or byte (bit_mask i)) j) (i == j || bit_set byte j)
      && ltb (bit_or byte (bit_mask i)) 256)
    ≡ true
unfolding all_below
set_table = refl

clear_table :
    for_bits (λ byte i j.
      same_bool (bit_set (clear_bit byte i) j) (not (i == j) && bit_set byte j)
      && ltb (clear_bit byte i) 256)
    ≡ true
unfolding all_below
clear_table = refl

and-true : (a b : Bool) → a && b ≡ true → (a ≡ true) × (b ≡ true)
and-true true b h = (refl, h)
and-true false b h = absurd (cc)

-- Setting a bit sets it and no other, and leaves a byte.
pub bit_set-bit_or :
    (byte i j : ℕ)
    → byte < 256
    → i < 8
    → j < 8
    → (bit_set (bit_or byte (bit_mask i)) j ≡ (i == j || bit_set byte j))
      × (bit_or byte (bit_mask i) < 256)
bit_set-bit_or byte i j a b c =
    let h = and-true _ _ (for_bits-true _ byte i j set_table a b c) in
    (same_bool-eq _ _ h.0, ltb→lt _ _ h.1)

pub bit_set-clear_bit :
    (byte i j : ℕ)
    → byte < 256
    → i < 8
    → j < 8
    → (bit_set (clear_bit byte i) j ≡ (not (i == j) && bit_set byte j)) × (clear_bit byte i < 256)
bit_set-clear_bit byte i j a b c =
    let h = and-true _ _ (for_bits-true _ byte i j clear_table a b c) in
    (same_bool-eq _ _ h.0, ltb→lt _ _ h.1)

full_table : all_below 8 (bit_set 255) ≡ true
unfolding all_below
full_table = refl

-- A byte of 255 has no bit that is not set.
pub bit_set-full : (i : ℕ) → i < 8 → bit_set 255 i ≡ true
bit_set-full i h = all_below-true 8 (bit_set 255) i full_table h

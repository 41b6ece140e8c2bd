-- ===== src/Layer1/Bitmap/Scan.antt =====
-- The search of inode_create for the first bit that is not set, over the bits of a byte and over the
-- bytes of a block.
use filesystem.Bytes.{Block}
use filesystem.Layer1.Bitmap.{Search, found, over, miss, scan_bits, scan_bytes}
use filesystem.Layer1.Bitmap.Bits.{bit_set, bit_set-full}
use filesystem.Layer1.FreeList.Entries.{used}
use filesystem.Prelude.{
  ltb, ◌==◌, if◌then◌else◌, ==_iff, Bool-cases, lt_or_le, ℕ, zero, suc, ◌+◌, ◌-◌, ◌*◌, ◌^◌, ◌≤◌,
  ◌<◌, bit_and, ◌≡◌, refl, ap, ◌∙◌, inl, inr, Bool, true, false, not, arith,
}

-- All indices from `lo` up to `hi` are in use.
abbrev pub AllUsed : (used : ℕ → Bool) (lo hi : ℕ) → Type 0
AllUsed used lo hi = (k : ℕ) → lo ≤ k → k < hi → used k ≡ true

pub AllUsed-join :
    (used : ℕ → Bool) (lo mid hi : ℕ)
    → AllUsed used lo mid
    → AllUsed used mid hi
    → AllUsed used lo hi
AllUsed-join used lo mid hi u u' k l l' = elim (lt_or_le k mid) [
  | inl h ↦ u k l h
  | inr h ↦ u' k h l'
]

module _ (used : ℕ → Bool) (num base : ℕ) where
  -- What the search of the indices from `lo` up to `hi` comes to.
  abbrev pub Searched : (lo hi : ℕ) → Search → Type 0
  Searched lo hi (found y i) =
      (lo ≤ base + y * 8 + i)
      × (base + y * 8 + i < hi)
      × (base + y * 8 + i < num)
      × (i < 8)
      × (used (base + y * 8 + i) ≡ false)
      × AllUsed used lo (base + y * 8 + i)
  Searched lo hi over = (num < hi) × AllUsed used lo num
  Searched lo hi miss = AllUsed used lo hi

  -- Indices in use come before.
  pub Searched-before :
      (lo mid hi : ℕ) (s : Search)
      → lo ≤ mid
      → AllUsed used lo mid
      → Searched mid hi s
      → Searched lo hi s
  Searched-before lo mid hi (found y i) l u h =
      (omega (arith, h.0), h.1, h.2, h.3, h.4, AllUsed-join used lo mid (base + y * 8 + i) u h.5)
  Searched-before lo mid hi over l u h = (h.0, AllUsed-join used lo mid num u h.1)
  Searched-before lo mid hi miss l u h = AllUsed-join used lo mid hi u h

  scan_bits-Searched :
      (y byte bit rounds lo hi : ℕ)
      → lo ≡ base + y * 8 + bit
      → hi ≡ lo + rounds
      → bit + rounds ≤ 8
      → ((i : ℕ) → i < 8 → used (base + y * 8 + i) ≡ bit_set byte i)
      → Searched lo hi (scan_bits num (base + y * 8) y byte bit rounds)
  unfolding scan_bits
  scan_bits-Searched y byte bit zero lo hi a b h e = λ k l l'. absurd (omega arith)
  scan_bits-Searched y byte bit (suc rounds) lo hi a b h e =
      elim (Bool-cases (ltb num (base + y * 8 + bit + 1))) [
        | inl t ↦ rw t (ground arith, λ k l l'. absurd (ground arith))
        | inr t ↦ rw t (elim (Bool-cases (bit_and (byte * 2 ^ bit) 128 == 0)) [
          | inl z ↦ rw z (
            omega arith,
            omega arith,
            ground arith,
            omega arith,
            e bit (omega arith) ∙ ap not z,
            λ k l l'. absurd (omega arith),
          )
          | inr z ↦ rw z (
              Searched-before lo (lo + 1) hi _ (omega arith)
                (λ k l l'. ap used (omega arith) ∙ e bit (omega arith) ∙ ap not z)
                (scan_bits-Searched y byte (bit + 1) rounds (lo + 1) hi (omega arith) (omega arith)
                  (omega arith) e))
        ])
      ]

  -- The bits of one byte, and the bytes behind it.
  next_byte :
      (lo mid hi : ℕ) (s rest : Search)
      → lo ≤ mid
      → mid ≤ hi
      → Searched lo mid s
      → Searched mid hi rest
      → Searched lo hi (elim s [ found y i ↦ found y i | over ↦ over | miss ↦ rest ])
  next_byte lo mid hi (found y i) rest a b h h' = (h.0, omega (arith, h.1), h.2, h.3, h.4, h.5)
  next_byte lo mid hi over rest a b h h' = (omega (arith, h.0), h.1)
  next_byte lo mid hi miss rest a b h h' = Searched-before lo mid hi rest a h h'

  full_or :
      (full : Bool) (lo hi : ℕ) (s rest : Search)
      → (full ≡ true → Searched lo hi rest)
      → (full ≡ false → Searched lo hi s)
      → Searched lo hi (if full then rest else s)
  full_or true lo hi s rest a b = a refl
  full_or false lo hi s rest a b = b refl

  pub scan_bytes-Searched :
      (b : Block) (y rounds lo hi : ℕ)
      → lo ≡ base + y * 8
      → hi ≡ lo + rounds * 8
      → ((z i : ℕ) → y ≤ z → z < y + rounds → i < 8 → used (base + z * 8 + i) ≡ bit_set (b z) i)
      → Searched lo hi (scan_bytes num base b y rounds)
  unfolding scan_bytes
  scan_bytes-Searched b y zero lo hi a c e = λ k l l'. absurd (omega arith)
  scan_bytes-Searched b y (suc rounds) lo hi a c e =
      let rest = scan_bytes num base b (y + 1) rounds in
      let behind : Searched (lo + 8) hi rest =
        scan_bytes-Searched b (y + 1) rounds (lo + 8) hi (omega arith) (omega arith)
          (λ z i l l' h. e z i (omega arith) (omega arith) h) in
      full_or (b y == 255) lo hi _ rest
        (λ t.
          Searched-before lo (lo + 8) hi rest (omega arith)
            (λ k l l'.
              ap used (omega arith)
              ∙ e y (k - lo) (omega arith) (omega arith) (omega arith)
              ∙ rw ((==_iff (b y) 255).0 t) (bit_set-full (k - lo) (omega arith)))
            behind)
        (λ t.
          next_byte lo (lo + 8) hi (scan_bits num (base + y * 8) y (b y) 0 8) rest (omega arith)
            (omega arith)
            (scan_bits-Searched y (b y) 0 8 lo (lo + 8) (omega arith) (omega arith) (omega arith)
              (λ i h. e y i (omega arith) (omega arith) h))
            behind)

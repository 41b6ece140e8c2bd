-- ===== src/Bytes/Words.antt =====
-- Reading back the words that were written, and the bytes that a write leaves alone.
use filesystem.Bytes.{Block, u32_at, set_u32, set_words}
use filesystem.Prelude.{
  length, get_or, ℕ, zero, suc, ◌+◌, ◌*◌, ◌≤◌, ◌<◌, ◌≡◌, refl, ◌⊎◌, List, [], ◌∷◌, arith,
}

-- A word below 2 ^ 32 is read back as it was written.
pub u32_at-set_u32_self : (b : Block) (o w : ℕ) → w < 4294967296 → u32_at (set_u32 b o w) o ≡ w
unfolding u32_at set_u32
u32_at-set_u32_self b o w h = ground arith

-- A byte outside the word keeps its value.
pub set_u32_out : (b : Block) (o w i : ℕ) → (i < o) ⊎ (o + 4 ≤ i) → set_u32 b o w i ≡ b i
unfolding set_u32
set_u32_out b o w i h = ground arith

-- A word apart from the one written keeps its value.
pub u32_at-set_u32_ne :
    (b : Block) (o w p : ℕ) → (p + 4 ≤ o) ⊎ (o + 4 ≤ p) → u32_at (set_u32 b o w) p ≡ u32_at b p
unfolding u32_at
u32_at-set_u32_ne b o w p h = ground (
  arith,
  set_u32_out b o w p,
  set_u32_out b o w (p + 1),
  set_u32_out b o w (p + 2),
  set_u32_out b o w (p + 3),
)

pub set_words_out :
    (ws : List ℕ) (b : Block) (o i : ℕ)
    → (i < o) ⊎ (o + 4 * length ws ≤ i)
    → set_words b o ws i ≡ b i
unfolding set_words
set_words_out [] b o i h = refl
set_words_out (w ∷ ws) b o i h =
    ground (arith, set_words_out ws (set_u32 b o w) (o + 4) i, set_u32_out b o w i)

-- A list whose members fit 32 bits.
abbrev pub AllWords : List ℕ → Type 0
AllWords [] = Unit {0}
AllWords (w ∷ ws) = (w < 4294967296) × AllWords ws

-- A word in front of an array that is written keeps its value, and so does one behind it.
pub u32_at-set_words_out :
    (ws : List ℕ) (b : Block) (o p : ℕ)
    → (p + 4 ≤ o) ⊎ (o + 4 * length ws ≤ p)
    → u32_at (set_words b o ws) p ≡ u32_at b p
unfolding u32_at
u32_at-set_words_out ws b o p h = ground (
  arith,
  set_words_out ws b o p,
  set_words_out ws b o (p + 1),
  set_words_out ws b o (p + 2),
  set_words_out ws b o (p + 3),
)

-- The words of an array are read back as they were written.
pub u32_at-set_words :
    (ws : List ℕ) (b : Block) (o k : ℕ)
    → AllWords ws
    → k < length ws
    → u32_at (set_words b o ws) (o + 4 * k) ≡ get_or ws k 0
unfolding set_words
u32_at-set_words [] b o k h lt = absurd (omega arith)
u32_at-set_words (w ∷ ws) b o zero h lt =
    ground (arith, u32_at-set_words_out ws (set_u32 b o w) (o + 4) o, u32_at-set_u32_self b o w)
u32_at-set_words (w ∷ ws) b o (suc k) h lt =
    let e : o + 4 * suc k ≡ o + 4 + 4 * k = omega arith in
    rw e (u32_at-set_words ws (set_u32 b o w) (o + 4) k h.1 (omega arith))

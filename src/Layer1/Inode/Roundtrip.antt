-- ===== src/Layer1/Inode/Roundtrip.antt =====
-- inode_read after inode_write.
use mathlib.Core.Path.{subst}
use filesystem.Bytes.{Block, u32_at, words, set_words}
use filesystem.Bytes.Words.{AllWords, u32_at-set_words_out, u32_at-set_words}
use filesystem.Layer1.Inode.{Inode, num_direct, sizeof_inode, inode_words, inode_at}
use filesystem.Prelude.{
  length, length-append, get_or, ℕ, ◌+◌, ◌*◌, ◌≤◌, ◌<◌, ◌≡◌, refl, sym, ◌⊎◌, List, [], ◌∷◌, arith,
}

-- An inode whose fields fit their 32 bits.
pub record IsInode (n : Inode) : Type 0 where
  pub word_fields : AllWords (inode_words n)
  pub directs : length n.direct_blocks ≡ num_direct

-- The words of a struct, and the struct.
abbrev inode_of : (md lk ui gi sz at mt d0 d1 d2 d3 d4 d5 d6 d7 d8 d9 i1 i2 i3 : ℕ) → Inode
inode_of md lk ui gi sz at mt d0 d1 d2 d3 d4 d5 d6 d7 d8 d9 i1 i2 i3 = record {
  mode = md;
  links = lk;
  uid = ui;
  gid = gi;
  size = sz;
  access_time = at;
  mod_time = mt;
  direct_blocks = d0 ∷ d1 ∷ d2 ∷ d3 ∷ d4 ∷ d5 ∷ d6 ∷ d7 ∷ d8 ∷ d9 ∷ [];
  indirect = i1;
  double_indirect = i2;
  triple_indirect = i3;
}

-- The array of words behind an offset, without the sums of sums.
words_ten :
    (b : Block) (o : ℕ)
    → words b (o + 28) 10
      ≡ u32_at b (o + 28)
        ∷ u32_at b (o + 32)
        ∷ u32_at b (o + 36)
        ∷ u32_at b (o + 40)
        ∷ u32_at b (o + 44)
        ∷ u32_at b (o + 48)
        ∷ u32_at b (o + 52)
        ∷ u32_at b (o + 56)
        ∷ u32_at b (o + 60)
        ∷ u32_at b (o + 64)
        ∷ []
unfolding words
words_ten b o = ground arith

inode_at-inode_of :
    (b : Block) (o md lk ui gi sz at mt d0 d1 d2 d3 d4 d5 d6 d7 d8 d9 i1 i2 i3 : ℕ)
    → let n = inode_of md lk ui gi sz at mt d0 d1 d2 d3 d4 d5 d6 d7 d8 d9 i1 i2 i3 in
      AllWords (inode_words n) → inode_at (set_words b o (inode_words n)) o ≡ n
unfolding inode_at inode_words
inode_at-inode_of b o md lk ui gi sz at mt d0 d1 d2 d3 d4 d5 d6 d7 d8 d9 i1 i2 i3 w =
    let ws : List ℕ =
      md ∷ lk ∷ ui ∷ gi ∷ sz ∷ at ∷ mt ∷ d0 ∷ d1 ∷ d2 ∷ d3 ∷ d4 ∷ d5 ∷ d6 ∷ d7 ∷ d8 ∷ d9 ∷ i1 ∷ i2
      ∷ i3 ∷ [] in
    let at_word : (k : ℕ) → k < 20 → u32_at (set_words b o ws) (o + 4 * k) ≡ get_or ws k 0 =
      λ k lt. u32_at-set_words ws b o k w lt in
    ground (
      arith,
      words_ten (set_words b o ws) o,
      at_word 0 (omega arith),
      at_word 1 (omega arith),
      at_word 2 (omega arith),
      at_word 3 (omega arith),
      at_word 4 (omega arith),
      at_word 5 (omega arith),
      at_word 6 (omega arith),
      at_word 7 (omega arith),
      at_word 8 (omega arith),
      at_word 9 (omega arith),
      at_word 10 (omega arith),
      at_word 11 (omega arith),
      at_word 12 (omega arith),
      at_word 13 (omega arith),
      at_word 14 (omega arith),
      at_word 15 (omega arith),
      at_word 16 (omega arith),
      at_word 17 (omega arith),
      at_word 18 (omega arith),
      at_word 19 (omega arith),
    )

-- A list of ten members is the list of its first ten.
ten :
    (l : List ℕ)
    → length l ≡ num_direct
    → l
      ≡ get_or l 0 0
        ∷ get_or l 1 0
        ∷ get_or l 2 0
        ∷ get_or l 3 0
        ∷ get_or l 4 0
        ∷ get_or l 5 0
        ∷ get_or l 6 0
        ∷ get_or l 7 0
        ∷ get_or l 8 0
        ∷ get_or l 9 0
        ∷ []
ten ([]) e = absurd (omega arith)
ten (a0 ∷ []) e = absurd (omega arith)
ten (a0 ∷ a1 ∷ []) e = absurd (omega arith)
ten (a0 ∷ a1 ∷ a2 ∷ []) e = absurd (omega arith)
ten (a0 ∷ a1 ∷ a2 ∷ a3 ∷ []) e = absurd (omega arith)
ten (a0 ∷ a1 ∷ a2 ∷ a3 ∷ a4 ∷ []) e = absurd (omega arith)
ten (a0 ∷ a1 ∷ a2 ∷ a3 ∷ a4 ∷ a5 ∷ []) e = absurd (omega arith)
ten (a0 ∷ a1 ∷ a2 ∷ a3 ∷ a4 ∷ a5 ∷ a6 ∷ []) e = absurd (omega arith)
ten (a0 ∷ a1 ∷ a2 ∷ a3 ∷ a4 ∷ a5 ∷ a6 ∷ a7 ∷ []) e = absurd (omega arith)
ten (a0 ∷ a1 ∷ a2 ∷ a3 ∷ a4 ∷ a5 ∷ a6 ∷ a7 ∷ a8 ∷ []) e = absurd (omega arith)
ten (a0 ∷ a1 ∷ a2 ∷ a3 ∷ a4 ∷ a5 ∷ a6 ∷ a7 ∷ a8 ∷ a9 ∷ []) e = refl
ten (a0 ∷ a1 ∷ a2 ∷ a3 ∷ a4 ∷ a5 ∷ a6 ∷ a7 ∷ a8 ∷ a9 ∷ a10 ∷ r) e = absurd (omega arith)

-- A struct that was copied into a buffer is what the buffer holds there.
pub inode_at-set_words :
    (b : Block) (o : ℕ) {n : Inode} → IsInode n → inode_at (set_words b o (inode_words n)) o ≡ n
inode_at-set_words b o {n} h =
    let e : n
        ≡ inode_of n.mode n.links n.uid n.gid n.size n.access_time n.mod_time
            (get_or n.direct_blocks 0 0) (get_or n.direct_blocks 1 0) (get_or n.direct_blocks 2 0)
            (get_or n.direct_blocks 3 0) (get_or n.direct_blocks 4 0) (get_or n.direct_blocks 5 0)
            (get_or n.direct_blocks 6 0) (get_or n.direct_blocks 7 0) (get_or n.direct_blocks 8 0)
            (get_or n.direct_blocks 9 0) n.indirect n.double_indirect n.triple_indirect =
      λ i. record n { direct_blocks = ten n.direct_blocks h.directs i } in
    subst (λ m. AllWords (inode_words m) → inode_at (set_words b o (inode_words m)) o ≡ m) (sym e)
      (inode_at-inode_of b o _ _ _ _ _ _ _ _ _ _ _ _ _ _ _ _ _ _ _ _) h.word_fields

-- A struct apart from the bytes that are written keeps its fields.
pub inode_at-set_words_out :
    (ws : List ℕ) (b : Block) (o p : ℕ)
    → (p + sizeof_inode ≤ o) ⊎ (o + 4 * length ws ≤ p)
    → inode_at (set_words b o ws) p ≡ inode_at b p
unfolding inode_at
inode_at-set_words_out ws b o p h =
    let same : (q : ℕ)
        → (q + 4 ≤ o) ⊎ (o + 4 * length ws ≤ q)
        → u32_at (set_words b o ws) q ≡ u32_at b q =
      λ q. u32_at-set_words_out ws b o q in
    ground (
      arith,
      words_ten (set_words b o ws) p,
      words_ten b p,
      same p,
      same (p + 4),
      same (p + 8),
      same (p + 12),
      same (p + 16),
      same (p + 20),
      same (p + 24),
      same (p + 28),
      same (p + 32),
      same (p + 36),
      same (p + 40),
      same (p + 44),
      same (p + 48),
      same (p + 52),
      same (p + 56),
      same (p + 60),
      same (p + 64),
      same (p + 68),
      same (p + 72),
      same (p + 76),
    )

pub length-inode_words : {n : Inode} → IsInode n → length (inode_words n) ≡ 20
unfolding inode_words
length-inode_words {n} h = omega (
  arith,
  h.directs,
  length-append n.direct_blocks (n.indirect ∷ n.double_indirect ∷ n.triple_indirect ∷ []),
)

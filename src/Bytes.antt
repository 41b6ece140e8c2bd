-- ===== src/Bytes.antt =====
-- Memory as C sees it: a buffer is a function from an offset to a byte, and the packed structs of
-- layer1.h and layer2.h are little-endian 32-bit words at fixed offsets of a buffer. A block is a
-- buffer of which the offsets below `block_size` are used.
pub mod Words
use filesystem.Prelude.{
  ltb, leb, ◌==◌, if◌then◌else◌, ℕ, zero, suc, ◌+◌, ◌-◌, ◌*◌, ◌/◌, ◌%◌, Bool, true, false, ◌&&◌,
  List, [], ◌∷◌,
}

abbrev pub Block : Type 0
Block = ℕ → ℕ

-- BLOCK_SIZE of globals.h
abbrev pub block_size : ℕ
block_size = 4096

-- memset(buf, 0, ...)
abbrev pub zero_block : Block
zero_block o = 0

-- The uint32_t at an offset.
unfoldable pub u32_at : Block → ℕ → ℕ
u32_at b o = b o + 256 * b (o + 1) + 65536 * b (o + 2) + 16777216 * b (o + 3)

-- An assignment to the uint32_t at an offset.
unfoldable pub set_u32 : Block → ℕ → ℕ → Block
set_u32 b o w i =
    if i == o
    then w % 256
    else if i == o + 1
    then w / 256 % 256
    else if i == o + 2
    then w / 65536 % 256
    else if i == o + 3
    then w / 16777216 % 256
    else b i

-- Consecutive words, as an array of uint32_t or a packed struct of them.
unfoldable pub words : Block → ℕ → ℕ → List ℕ
words b o zero = []
words b o (suc n) = u32_at b o ∷ words b (o + 4) n

unfoldable pub set_words : Block → ℕ → List ℕ → Block
set_words b o [] = b
set_words b o (w ∷ ws) = set_words (set_u32 b o w) (o + 4) ws

-- memcpy(dst + at, src + from, n)
unfoldable pub copy : Block → ℕ → Block → ℕ → ℕ → Block
copy dst at src from n i = if leb at i && ltb i (at + n) then src (from + (i - at)) else dst i

-- memcmp(buf + from, zeros, n) == 0
unfoldable pub all_zero : Block → ℕ → ℕ → Bool
all_zero b from zero = true
all_zero b from (suc n) = elim (b from == 0) [ true ↦ all_zero b (from + 1) n | false ↦ false ]

-- buf[o] = c
unfoldable pub set_byte : Block → ℕ → ℕ → Block
set_byte b o c i = if i == o then c else b i

-- strcpy(buf + o, s): the characters, then the byte 0.
unfoldable pub store_str : Block → ℕ → List ℕ → Block
unfolding set_byte
store_str b o [] = set_byte b o 0
store_str b o (c ∷ cs) = store_str (set_byte b o c) (o + 1) cs

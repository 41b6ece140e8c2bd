-- ===== src/Layer1/Inode.antt =====
-- layer1.c, inode_read and inode_write, and the layout of `struct inode`: 20 words, 51 to a block.
-- Inodes are numbered from 1.
pub mod Roundtrip
pub mod Store
use filesystem.Bytes.{Block, u32_at, words, set_words}
use filesystem.Layer0.{Superblock, Vol, Op, write_block, read_block}
use filesystem.Layer1.Super.{read_superblock}
use filesystem.Prelude.{
  ltb, if◌then◌else◌, ℕ, zero, suc, ◌+◌, ◌*◌, ◌/◌, ◌%◌, ◌≤◌, ◌<◌, ◌≡◌, refl, Option, none, some,
  List, [], ◌∷◌, ◌++◌, arith,
}
use filesystem.Prelude.Int.{ℤ, pos, negsuc}
use filesystem.Prelude.Run.{bad_inode, Run, done, fail, diverge, pure, throw, ◌>>=◌, ◌>>◌}

-- `direct_blocks` has num_direct entries.
pub record Inode : Type 0 where
  pub mode : ℕ
  pub links : ℕ
  pub uid : ℕ
  pub gid : ℕ
  pub size : ℕ
  pub access_time : ℕ
  pub mod_time : ℕ
  pub direct_blocks : List ℕ
  pub indirect : ℕ
  pub double_indirect : ℕ
  pub triple_indirect : ℕ

abbrev pub num_direct : ℕ
num_direct = 10

abbrev pub sizeof_inode : ℕ
sizeof_inode = 80

-- INODES_PER_BLOCK
abbrev pub inodes_in_block : ℕ
inodes_in_block = 51

abbrev pub invalid_inode : ℕ
invalid_inode = 0

-- memset(&node, 0, sizeof(inode))
abbrev pub zero_inode : Inode
zero_inode = record {
  mode = 0;
  links = 0;
  uid = 0;
  gid = 0;
  size = 0;
  access_time = 0;
  mod_time = 0;
  direct_blocks = 0 ∷ 0 ∷ 0 ∷ 0 ∷ 0 ∷ 0 ∷ 0 ∷ 0 ∷ 0 ∷ 0 ∷ [];
  indirect = 0;
  double_indirect = 0;
  triple_indirect = 0;
}

unfoldable pub inode_words : Inode → List ℕ
inode_words n =
    n.mode
    ∷ n.links
    ∷ n.uid
    ∷ n.gid
    ∷ n.size
    ∷ n.access_time
    ∷ n.mod_time
    ∷ (n.direct_blocks ++ (n.indirect ∷ n.double_indirect ∷ n.triple_indirect ∷ []))

-- The inode at an offset of a buffer.
unfoldable pub inode_at : Block → ℕ → Inode
unfolding words
inode_at b o = record {
  mode = u32_at b o;
  links = u32_at b (o + 4);
  uid = u32_at b (o + 8);
  gid = u32_at b (o + 12);
  size = u32_at b (o + 16);
  access_time = u32_at b (o + 20);
  mod_time = u32_at b (o + 24);
  direct_blocks = words b (o + 28) num_direct;
  indirect = u32_at b (o + 68);
  double_indirect = u32_at b (o + 72);
  triple_indirect = u32_at b (o + 76);
}

-- A number from 1 to `n`, as an index from 0.
unfoldable pub one_based : ℤ → ℕ → Option ℕ
one_based (negsuc _) n = none
one_based (pos zero) n = none
one_based (pos (suc k)) n = if ltb n (suc k) then none else some k

pub one_based-some : (k n : ℕ) → k < n → one_based (pos (suc k)) n ≡ some k
unfolding one_based
one_based-some k n h = ground arith

pub one_based-zero : (n : ℕ) → one_based (pos zero) n ≡ none
unfolding one_based
one_based-zero n = refl

pub one_based-none : (k n : ℕ) → n ≤ k → one_based (pos (suc k)) n ≡ none
unfolding one_based
one_based-none k n h = ground arith

-- A read whose status is dropped: where it fails, the buffer keeps what it held.
abbrev pub fill : Run Vol Block → Run Vol Block
fill (done b v) = done b v
fill (fail e v) = done v.junk v
fill diverge = diverge

abbrev pub filled : Op Block → Op Block
filled m v = fill (m v)

-- total_block_offset, for the inode of an index
abbrev pub inode_block : Superblock → ℕ → ℤ
inode_block sb k = pos (sb.ilist_block_offset + k / inodes_in_block)

abbrev pub inode_offset : ℕ → ℕ
inode_offset k = sizeof_inode * (k % inodes_in_block)

unfoldable pub inode_read : ℤ → Op Inode
inode_read inode_num = do
  sb ← read_superblock
  elim (one_based inode_num sb.num_inodes) [
    | none ↦ throw bad_inode
    | some k ↦ do
      block ← filled (read_block (inode_block sb k))
      pure (inode_at block (inode_offset k))
  ]

unfoldable pub inode_write : ℤ → Inode → Op (Unit {0})
inode_write inode_num modified = do
  sb ← read_superblock
  elim (one_based inode_num sb.num_inodes) [
    | none ↦ throw bad_inode
    | some k ↦ do
      block ← filled (read_block (inode_block sb k))
      write_block (inode_block sb k) (set_words block (inode_offset k) (inode_words modified))
  ]

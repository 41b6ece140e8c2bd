-- ===== src/Layer2/Contents/Inodes.antt =====
-- The inode that write_i stores after each round, and the disk then.
use mathlib.Core.Path.{subst}
use filesystem.Bytes.{Block}
use filesystem.Bytes.Words.{AllWords}
use filesystem.Layer0.{Superblock, Disk, Vol}
use filesystem.Layer1.Inode.{Inode, num_direct, inodes_in_block, inode_words}
use filesystem.Layer1.Inode.Roundtrip.{IsInode}
use filesystem.Layer1.Inode.Store.{stored}
use filesystem.Layer1.Keeps.{SameLayout}
use filesystem.Layer1.Ready.{Ready}
use filesystem.Layer2.BlockMap.{Root, direct, single, double, triple, locate, get_root}
use filesystem.Layer2.Contents.{levels_of, block_of}
use filesystem.Layer2.Contents.Roots.{num_roots, root_of, SameFields, file_count}
use filesystem.Layer2.Contents.Sum.{sum-same}
use filesystem.Layer2.Contents.Tree.{tree_count}
use filesystem.Layer2.File.{set_id_bits, grown}
use filesystem.Prelude.{
  Option-cases, length, get_or, ℕ, suc, ◌+◌, ◌/◌, ◌<◌, bit_xor, ◌≡◌, refl, ap, ◌∙◌, inl, inr, List,
  [], ◌∷◌, ◌++◌, arith,
}
use filesystem.Prelude.Bits.{bit_and_idem, bit_and-le}

-- Two inodes with the same pointers are made of the same blocks.
module _ (f : ℕ → Block) (m m' : Inode) (same : (r : Root) → get_root r m' ≡ get_root r m) where
  pub block_of-same : (k : ℕ) → block_of f m' k ≡ block_of f m k
  unfolding block_of
  block_of-same k = elim (Option-cases (locate k)) [
    | inl e ↦ rw (block_of, e) refl
    | inr ((root, levels, offset), e) ↦ rw (block_of, e, same root) refl
  ]

  pub file_count-same : (a : ℕ) → file_count f m' a ≡ file_count f m a
  file_count-same a =
      sum-same _ _ num_roots
        λ c h. ap (λ (p : ℕ). tree_count f (levels_of (root_of c)) p a) (same (root_of c))

pub get_root-grown :
    (original offset bytes : ℕ) (m : Inode) (r : Root)
    → get_root r (grown original offset bytes m) ≡ get_root r m
unfolding get_root
get_root-grown original offset bytes m (direct i) = refl
get_root-grown original offset bytes m single = refl
get_root-grown original offset bytes m double = refl
get_root-grown original offset bytes m triple = refl

-- Growing twice is growing once.
pub grown-grown :
    (original offset bytes bytes' : ℕ) (m : Inode)
    → grown original offset bytes' (grown original offset bytes m) ≡ grown original offset bytes' m
grown-grown original offset bytes bytes' m =
    rw (bit_and_idem m.mode (bit_xor 0xffff set_id_bits)) refl

words_below : (l : List ℕ) → ((i : ℕ) → i < length l → get_or l i 0 < 4294967296) → AllWords l
words_below [] h = tt
words_below (x ∷ l) h = (h 0 (omega arith), words_below l λ i lt. h (suc i) (omega (arith, lt)))

AllWords-append : (l k : List ℕ) → AllWords l → AllWords k → AllWords (l ++ k)
AllWords-append [] k h h' = h'
AllWords-append (x ∷ l) k h h' = (h.0, AllWords-append l k h.1 h')

root_of-direct : (i : ℕ) → i < num_direct → root_of i ≡ direct i
root_of-direct i h = ground (arith, h)

-- An inode fits its words if the pointers do.
pub grown-IsInode :
    (original offset bytes : ℕ) {t m : Inode}
    → IsInode t
    → SameFields t m
    → ((c : ℕ) → c < num_roots → get_root (root_of c) m < 4294967296)
    → IsInode (grown original offset bytes m)
unfolding inode_words get_root
grown-IsInode original offset bytes {t} {m} im same small =
    let direct_word : (i : ℕ) → i < num_direct → get_or m.direct_blocks i 0 < 4294967296 = λ i h.
      subst (λ (x : Root). get_root x m < 4294967296) (root_of-direct i h)
        (small i (omega (arith, h))) in
    let links_kept : m.links ≡ t.links = ap (λ (x : Inode). x.links) same.0 in
    let uid_kept : m.uid ≡ t.uid = ap (λ (x : Inode). x.uid) same.0 in
    let gid_kept : m.gid ≡ t.gid = ap (λ (x : Inode). x.gid) same.0 in
    let access_kept : m.access_time ≡ t.access_time = ap (λ (x : Inode). x.access_time) same.0 in
    let mod_kept : m.mod_time ≡ t.mod_time = ap (λ (x : Inode). x.mod_time) same.0 in
    record {
      word_fields = (
        omega (arith, bit_and-le m.mode (bit_xor 0xffff set_id_bits)),
        (
          rw links_kept im.word_fields.1.0,
          (
            rw uid_kept im.word_fields.1.1.0,
            (
              rw gid_kept im.word_fields.1.1.1.0,
              (
                omega arith,
                (
                  rw access_kept im.word_fields.1.1.1.1.1.0,
                  (
                    rw mod_kept im.word_fields.1.1.1.1.1.1.0,
                    AllWords-append m.direct_blocks
                        (m.indirect ∷ m.double_indirect ∷ m.triple_indirect ∷ [])
                        (words_below m.direct_blocks
                          λ i h. direct_word i (omega (arith, h, same.1, im.directs)))
                        (
                          small 10 (omega arith),
                          (small 11 (omega arith), (small 12 (omega arith), tt)),
                        ),
                  ),
                ),
              ),
            ),
          ),
        ),
      );
      directs = same.1 ∙ im.directs;
    }

module _ {v : Vol} {sb : Superblock} {d : Disk} {n : ℕ} (r : Ready v sb d n) where
  pub stored_same :
      {sb' : Superblock} {d' : Disk}
      → SameLayout sb sb'
      → ((a : ℕ) → 0 < a → a < sb.data_block_offset → d' a ≡ d a)
      → (j : ℕ) → j < sb.num_inodes
      → stored sb' d' j ≡ stored sb d j
  stored_same same kept j h =
      let place : ℕ = sb.ilist_block_offset + j / inodes_in_block in
      rw (same.ilist, kept place (omega (arith, r.geometry)) (omega (arith, r.geometry))) refl

-- The superblock and the disk of a volume in use.
pub Ready-same :
    {v : Vol} {sb sb' : Superblock} {d d' : Disk} {n n' : ℕ}
    → Ready v sb d n
    → Ready v sb' d' n'
    → (sb' ≡ sb) × (d' ≡ d)
Ready-same r r' = ground (arith, r.cached, r'.cached, r.opens.has_disk, r'.opens.has_disk)

-- ===== src/Layer2/Contents/Writing.antt =====
-- The state between two rounds of write_i: what of the bytes is in the file, and what stays.
use filesystem.Bytes.{Block, block_size}
use filesystem.Layer0.{Superblock, Disk, Vol}
use filesystem.Layer1.Data.View.{view}
use filesystem.Layer1.FreeList.Chain.{free_blocks, IsFreeList}
use filesystem.Layer1.Inode.{Inode, num_direct}
use filesystem.Layer1.Inode.Roundtrip.{IsInode}
use filesystem.Layer1.Inode.Store.{stored}
use filesystem.Layer1.Keeps.{SameLayout}
use filesystem.Layer1.Keeps.Calls.{SameLayout-refl}
use filesystem.Layer1.Ready.{Ready}
use filesystem.Layer2.BlockMap.{triple_limit}
use filesystem.Layer2.Contents.{byte_at}
use filesystem.Layer2.Contents.NewBlock.{FileBudget}
use filesystem.Layer2.Contents.Roots.{SameFields, file_count}
use filesystem.Prelude.{
  ltb, leb, if◌then◌else◌, length, count, ℕ, ◌+◌, ◌-◌, ◌/◌, ◌<◌, ◌≡◌, refl, ◌∙◌, ◌≢◌, ◌&&◌, List,
  arith,
}

-- A file of a volume in use that no other file shares blocks with: it has the inode with index `k`,
-- and no block is free, twice in the file or in use elsewhere. `outside` counts the uses elsewhere.
pub record IsWritable (v : Vol) (sb : Superblock) (d : Disk) (n : ℕ) (ps : List ℕ) (k : ℕ)
    (outside : ℕ → ℕ) : Type 0 where
  pub ready : Ready v sb d n
  pub free_list : IsFreeList sb.data_size (view sb d) sb.free_list_head ps
  pub valid : k < sb.num_inodes
  pub fits : IsInode (stored sb d k)
  pub budget : FileBudget (view sb d) sb.data_size ps (stored sb d k) outside

-- The bytes of a file with `bytes` bytes of a buffer at an offset.
abbrev pub overlaid : (old : ℕ → ℕ) (buf : Block) (offset bytes p : ℕ) → ℕ
overlaid old buf offset bytes p =
    if leb offset p && ltb p (offset + bytes) then buf (p - offset) else old p

-- `bytes` bytes of `buf` are in the file at the offset; the inode is `m`, and `t` but for its pointers.
pub record Writing (sb : Superblock) (d : Disk) (n : ℕ) (ps : List ℕ) (k : ℕ) (outside : ℕ → ℕ)
    (buf : Block) (offset bytes : ℕ) (t m : Inode) (v' : Vol) : Type 0 where
  pub sb' : Superblock
  pub d' : Disk
  pub ps' : List ℕ
  pub ready : Ready v' sb' d' n
  pub same_layout : SameLayout sb sb'
  pub free_list : IsFreeList sb'.data_size (view sb' d') sb'.free_list_head ps'
  pub conserved :
      (a : ℕ)
      → count a (free_blocks (view sb' d') ps') + file_count (view sb' d') m a
        ≡ count a (free_blocks (view sb d) ps) + file_count (view sb d) (stored sb d k) a
  pub written :
      (p : ℕ)
      → p / block_size < triple_limit
      → byte_at (view sb' d') m p
        ≡ overlaid (byte_at (view sb d) (stored sb d k)) buf offset bytes p
  pub frame : (a : ℕ) → 0 < outside a → view sb' d' a ≡ view sb d a
  pub fits : IsInode t
  pub fields : SameFields t m
  pub inode : stored sb' d' k ≡ m
  pub others : (j : ℕ) → j < sb.num_inodes → j ≢ k → stored sb' d' j ≡ stored sb d j

module _ {v : Vol} {sb : Superblock} {d : Disk} {n : ℕ} {ps : List ℕ} {k : ℕ} {outside : ℕ → ℕ}
    (w : IsWritable v sb d n ps k outside) where
  -- Before the first round.
  pub Writing-start :
      (buf : Block) (offset : ℕ)
      → Writing sb d n ps k outside buf offset 0 (stored sb d k) (stored sb d k) v
  Writing-start buf offset = record {
    sb' = sb;
    d' = d;
    ps' = ps;
    ready = w.ready;
    same_layout = SameLayout-refl sb;
    free_list = w.free_list;
    conserved = λ a. refl;
    written = λ p h. ground arith;
    frame = λ a h. refl;
    fits = w.fits;
    fields = (refl, refl);
    inode = refl;
    others = λ j h ne. refl;
  }

  module _ {buf : Block} {offset bytes : ℕ} {t m : Inode} {v' : Vol}
      (s : Writing sb d n ps k outside buf offset bytes t m v') where
    pub Writing-budget : FileBudget (view s.sb' s.d') s.sb'.data_size s.ps' m outside
    Writing-budget a = rw s.same_layout.data_length (omega (arith, s.conserved a, w.budget a))

    pub Writing-directs : length m.direct_blocks ≡ num_direct
    Writing-directs = s.fields.1 ∙ s.fits.directs

-- ===== src/Layer2/Contents/Extend.antt =====
-- get_nth_datablock creates a block of a file: the field of the inode and the tree under it.
use mathlib.Core.Path.{subst}
use filesystem.Bytes.{Block}
use filesystem.Layer0.{Superblock, Disk, Vol}
use filesystem.Layer1.Data.View.{view}
use filesystem.Layer1.FreeList.{invalid_data}
use filesystem.Layer1.FreeList.Chain.{free_blocks, IsFreeList}
use filesystem.Layer1.Inode.{Inode}
use filesystem.Layer1.Ready.{Ready}
use filesystem.Layer2.BlockMap.{addresses_per_block, Root, triple_limit, locate, get_root, Nth}
use filesystem.Layer2.BlockMap.Locate.{indices, AllBelow, is_field}
use filesystem.Layer2.Contents.{lookup, levels_of, block_of}
use filesystem.Layer2.Contents.Grow.{Grew}
use filesystem.Layer2.Contents.Nth.{locate-levels, locate-in, locate-some}
use filesystem.Layer2.Contents.Roots.{
  num_roots, root_of, code_of, code_of-lt, root_of-code_of, SameFields, root_count, file_count,
  other_roots, file_count-split, root_agrees, file_count-join,
}
use filesystem.Layer2.Contents.Tree.{tree_count, contents-same}
use filesystem.Prelude.{
  Option-cases, eq_or_ne, count, ℕ, ◌+◌, ◌<◌, ◌≡◌, refl, sym, ap, ◌∙◌, ◌≢◌, ◌⊎◌, inl, inr, true,
  some, List, arith,
}
use filesystem.Prelude.Run.{data_full, Result, ok, err}

-- Where a block number of a file lies.
pub record At (k : ℕ) : Type 0 where
  pub code : ℕ
  pub offset : ℕ
  pub code_fits : code < num_roots
  pub within_blocks : AllBelow addresses_per_block (indices (levels_of (root_of code)) offset)
  pub located : locate k ≡ some (root_of code, levels_of (root_of code), offset)

At-locate :
    (k : ℕ) {root : Root} {levels offset : ℕ} → locate k ≡ some (root, levels, offset) → At k
At-locate k {root} {levels} {offset} e =
    let in_field : is_field root ≡ true = (locate-in k e).0 in
    let same : root_of (code_of root) ≡ root = root_of-code_of root in_field in
    let depth : levels ≡ levels_of root = locate-levels k e in
    record {
      code = code_of root;
      offset = offset;
      code_fits = code_of-lt root in_field;
      within_blocks = rw (same, sym depth) ((locate-in k e).1);
      located = rw (same, sym depth) e;
    }

pub At-below : (k : ℕ) → k < triple_limit → At k
At-below k h = elim (Option-cases (locate k)) [
  | inl e ↦ absurd (locate-some k h e)
  | inr ((root, levels, offset), e) ↦ At-locate k e
]

pub block_of-At :
    (f : ℕ → Block) (m : Inode) {k : ℕ} (a : At k)
    → block_of f m k ≡ lookup f (levels_of (root_of a.code)) (get_root (root_of a.code) m) a.offset
unfolding block_of
block_of-At f m a = rw (block_of, a.located) refl

-- What get_nth_datablock leaves of a file when it creates the block `k`: no block is lost or used twice,
-- every block of the file holds what it held, zeros where there was none, blocks in use elsewhere stay,
-- and the block is there, unless no block is free.
pub record FileGrew (n : ℕ) (sb : Superblock) (d : Disk) (ps : List ℕ) (m : Inode) (k : ℕ)
    (outside : ℕ → ℕ) (q : Nth) (v' : Vol) : Type 0 where
  pub sb' : Superblock
  pub d' : Disk
  pub ps' : List ℕ
  pub ready : Ready v' sb' d' n
  pub same_size : sb'.data_size ≡ sb.data_size
  pub free_list : IsFreeList sb'.data_size (view sb' d') sb'.free_list_head ps'
  pub conserved :
      (a : ℕ)
      → count a (free_blocks (view sb' d') ps') + file_count (view sb' d') q.inode a
        ≡ count a (free_blocks (view sb d) ps) + file_count (view sb d) m a
  pub contents :
      (i : ℕ)
      → i < triple_limit
      → view sb' d' (block_of (view sb' d') q.inode i) ≡ view sb d (block_of (view sb d) m i)
  pub frame : (a : ℕ) → 0 < outside a → view sb' d' a ≡ view sb d a
  pub ended :
      ((q.block ≡ err data_full) × (sb'.free_list_head ≡ invalid_data))
      ⊎ ((q.block ≡ ok (block_of (view sb' d') q.inode k)) × (block_of (view sb' d') q.inode k ≢ 0))
  pub fields : SameFields m q.inode

-- The state in which the tree under the field `j` grows, when the state before was `sb`, `d`, `ps` with
-- the inode `m`.
pub record Rooted (sb : Superblock) (d : Disk) (ps : List ℕ) (m : Inode) (j : ℕ) (outside : ℕ → ℕ)
    (sb2 : Superblock) (d2 : Disk) (ps2 : List ℕ) (m2 : Inode) : Type 0 where
  pub field_fits : j < num_roots
  pub size_kept : sb2.data_size ≡ sb.data_size
  pub fields_kept : SameFields m m2
  pub roots_kept :
      (c : ℕ) → c < num_roots → c ≢ j → get_root (root_of c) m2 ≡ get_root (root_of c) m
  pub untouched :
      (a : ℕ) → 0 < outside a + other_roots (view sb d) m j a → view sb2 d2 a ≡ view sb d a
  pub counts :
      (a : ℕ)
      → count a (free_blocks (view sb2 d2) ps2)
          + tree_count (view sb2 d2) (levels_of (root_of j)) (get_root (root_of j) m2) a
        ≡ count a (free_blocks (view sb d) ps) + root_count (view sb d) m a j
  pub held :
      (o : ℕ)
      → AllBelow addresses_per_block (indices (levels_of (root_of j)) o)
      → view sb2 d2 (lookup (view sb2 d2) (levels_of (root_of j)) (get_root (root_of j) m2) o)
        ≡ view sb d (lookup (view sb d) (levels_of (root_of j)) (get_root (root_of j) m) o)

module _ {n : ℕ} {sb : Superblock} {d : Disk} {ps : List ℕ} {m : Inode} {k : ℕ} (at : At k)
    {outside : ℕ → ℕ} {sb2 : Superblock} {d2 : Disk} {ps2 : List ℕ} {m2 : Inode} {res : Result ℕ}
    {v' : Vol} (h : Rooted sb d ps m at.code outside sb2 d2 ps2 m2)
    (g : Grew n sb2 d2 ps2
      (levels_of (root_of at.code))
      (get_root (root_of at.code) m2)
      at.offset
      (λ a. outside a + other_roots (view sb d) m at.code a)
      res
      v') where
  frame_kept : (a : ℕ) → 0 < other_roots (view sb d) m at.code a → view g.sb' g.d' a ≡ view sb d a
  frame_kept a l = g.frame a (omega (arith, l)) ∙ h.untouched a (omega (arith, l))

  contents_field :
      (c o : ℕ)
      → c < num_roots
      → AllBelow addresses_per_block (indices (levels_of (root_of c)) o)
      → view g.sb' g.d'
          (lookup (view g.sb' g.d') (levels_of (root_of c)) (get_root (root_of c) m2) o)
        ≡ view sb d (lookup (view sb d) (levels_of (root_of c)) (get_root (root_of c) m) o)
  contents_field c o l b = elim (eq_or_ne c at.code) [
    | inl e ↦
        subst
          (λ (x : ℕ).
            AllBelow addresses_per_block (indices (levels_of (root_of x)) o)
            → view g.sb' g.d'
                (lookup (view g.sb' g.d') (levels_of (root_of x)) (get_root (root_of x) m2) o)
              ≡ view sb d (lookup (view sb d) (levels_of (root_of x)) (get_root (root_of x) m) o))
          (sym e) (λ b. g.contents o b ∙ h.held o b) b
    | inr other ↦
        ap (λ (x : ℕ). view g.sb' g.d' (lookup (view g.sb' g.d') (levels_of (root_of c)) x o))
          (h.roots_kept c l other)
        ∙ contents-same (view sb d) (view g.sb' g.d') (levels_of (root_of c))
            (get_root (root_of c) m) o refl refl b
            (root_agrees (view sb d) (view g.sb' g.d') m m2 at.code h.field_fits h.roots_kept
              frame_kept c l other)
  ]

  contents_file :
      (i : ℕ)
      → i < triple_limit
      → view g.sb' g.d' (block_of (view g.sb' g.d') m2 i) ≡ view sb d (block_of (view sb d) m i)
  contents_file i l =
      let a : At i = At-below i l in
      rw (block_of-At (view g.sb' g.d') m2 a, block_of-At (view sb d) m a)
        (contents_field a.code a.offset a.code_fits a.within_blocks)

  pub FileGrew-Rooted :
      (q : Nth) → q.inode ≡ m2 → q.block ≡ res → FileGrew n sb d ps m k outside q v'
  FileGrew-Rooted q same e = record {
    sb' = g.sb';
    d' = g.d';
    ps' = g.ps';
    ready = g.ready;
    same_size = g.same_size ∙ h.size_kept;
    free_list = g.free_list;
    conserved = λ a. rw same (
        omega (
          arith,
          file_count-join (view sb d) (view g.sb' g.d') m m2 at.code h.field_fits h.roots_kept
              frame_kept a,
          file_count-split (view sb d) m at.code a h.field_fits,
          g.conserved a,
          h.counts a,
        ));
    contents = λ i l. rw same (contents_file i l);
    frame = λ a l. g.frame a (omega (arith, l)) ∙ h.untouched a (omega (arith, l));
    ended = rw (same, e, block_of-At (view g.sb' g.d') m2 at) g.ended;
    fields = rw same h.fields_kept;
  }

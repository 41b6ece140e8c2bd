-- ===== src/Layer2/Contents/WriteStep.antt =====
-- From one round of write_i to the next: the round, and the inode that is stored after it.
use mathlib.Core.Path.{subst}
use filesystem.Bytes.{Block, block_size}
use filesystem.Layer0.{Superblock, Disk, Vol}
use filesystem.Layer1.Bitmap.Marks.{view-stored_disk}
use filesystem.Layer1.Data.View.{view}
use filesystem.Layer1.Inode.{Inode}
use filesystem.Layer1.Inode.Roundtrip.{IsInode}
use filesystem.Layer1.Inode.Store.{stored, stored_disk, stored-stored_disk}
use filesystem.Layer1.Keeps.{SameLayout}
use filesystem.Layer1.Ready.{with_disk, Ready-with_disk}
use filesystem.Layer2.BlockMap.{Root, triple_limit, get_root}
use filesystem.Layer2.Contents.{block_of, byte_at}
use filesystem.Layer2.Contents.Inodes.{
  block_of-same, file_count-same, get_root-grown, grown-IsInode, stored_same,
}
use filesystem.Layer2.Contents.NewBlock.{FileBudget}
use filesystem.Layer2.Contents.Roots.{with_pointers, SameFields}
use filesystem.Layer2.Contents.Valid.{root_pointer-le}
use filesystem.Layer2.Contents.WriteRound.{FileWrote}
use filesystem.Layer2.Contents.Writing.{IsWritable, overlaid, Writing}
use filesystem.Layer2.File.{grown}
use filesystem.Prelude.{
  ltb, leb, ◌==◌, if◌then◌else◌, eq_or_ne, ℕ, ◌+◌, ◌-◌, ◌*◌, ◌/◌, ◌%◌, ◌≤◌, ◌<◌, ◌≡◌, refl, ap, ◌∙◌,
  ◌≢◌, inl, inr, ◌&&◌, List, arith,
}

-- What a block holds after `len` bytes of the buffer were put at `start`.
abbrev pub IsPut : (blk old buf : Block) (start len bytes : ℕ) → Type 0
IsPut blk old buf start len bytes =
    (o : ℕ)
    → o < block_size
    → blk o ≡ (if leb start o && ltb o (start + len) then buf (bytes + (o - start)) else old o)

overlaid-next :
    (old : ℕ → ℕ) (buf : Block) (offset bytes len i start p b : ℕ)
    → i * block_size + start ≡ offset + bytes
    → start + len ≤ block_size
    → (p / block_size ≡ i
        → b ≡ (
            if leb start (p % block_size) && ltb (p % block_size) (start + len)
            then buf (bytes + (p % block_size - start))
            else overlaid old buf offset bytes p))
    → (p / block_size ≢ i → b ≡ overlaid old buf offset bytes p)
    → b ≡ overlaid old buf offset (bytes + len) p
overlaid-next old buf offset bytes len i start p b at fits here there =
    elim (eq_or_ne (p / block_size) i) [
      | inl e ↦ here e ∙ ground arith
      | inr ne ↦ there ne ∙ ground arith
    ]

if_same : (x y : Block) {a b : ℕ} → a ≡ b → (if a == b then x else y) ≡ x
if_same x y e = ground (arith, e)

if_other : (x y : Block) {a b : ℕ} → a ≢ b → (if a == b then x else y) ≡ y
if_other x y ne = ground (arith, ne)

module _ {v : Vol} {sb : Superblock} {d : Disk} {n : ℕ} {ps : List ℕ} {k : ℕ} {outside : ℕ → ℕ}
    (w : IsWritable v sb d n ps k outside) {buf : Block} {offset bytes : ℕ} {t m : Inode} {v' : Vol}
    (s : Writing sb d n ps k outside buf offset bytes t m v') {i : ℕ} {blk : Block} {m1 : Inode}
    {v1 : Vol} (g : FileWrote n s.sb' s.d' s.ps' m i outside blk m1 v1)
    (layout : SameLayout s.sb' g.sb')
    (tables : (a : ℕ) → 0 < a → a < s.sb'.data_block_offset → g.d' a ≡ s.d' a) where
  abbrev old_bytes : ℕ → ℕ
  old_bytes = byte_at (view sb d) (stored sb d k)

  layout_now : SameLayout sb g.sb'
  layout_now = ground (arith, layout, s.same_layout)

  fields_now : SameFields t m1
  fields_now =
      (g.fields.0 ∙ ap (λ (x : Inode). with_pointers x m1) s.fields.0, g.fields.1 ∙ s.fields.1)

  budget_now : FileBudget (view g.sb' g.d') g.sb'.data_size g.ps' m1 outside
  budget_now a = rw layout_now.data_length (omega (arith, g.conserved a, s.conserved a, w.budget a))

  bytes_now :
      (start len p : ℕ)
      → i * block_size + start ≡ offset + bytes
      → start + len ≤ block_size
      → IsPut blk (view s.sb' s.d' (block_of (view s.sb' s.d') m i)) buf start len bytes
      → p / block_size < triple_limit
      → byte_at (view g.sb' g.d') m1 p ≡ overlaid old_bytes buf offset (bytes + len) p
  bytes_now start len p at fits is_put h =
      let o : ℕ = p % block_size in
      let old : Block = view s.sb' s.d' (block_of (view s.sb' s.d') m (p / block_size)) in
      let before : old o ≡ overlaid old_bytes buf offset bytes p = s.written p h in
      let now = g.contents (p / block_size) h in
      overlaid-next old_bytes buf offset bytes len i start p _ at fits
        (λ e.
          let same : view s.sb' s.d' (block_of (view s.sb' s.d') m i) o
              ≡ overlaid old_bytes buf offset bytes p =
            subst
              (λ (x : ℕ).
                view s.sb' s.d' (block_of (view s.sb' s.d') m x) o
                ≡ overlaid old_bytes buf offset bytes p)
              e before in
          ap (λ (b : Block). b o) (now ∙ if_same blk old e)
          ∙ is_put o (omega arith)
          ∙ ap
              (λ (x : ℕ).
                if leb start o && ltb o (start + len) then buf (bytes + (o - start)) else x)
              same)
        (λ ne. ap (λ (b : Block). b o) (now ∙ if_other blk old ne) ∙ before)

  module _ (original start len : ℕ) (at : i * block_size + start ≡ offset + bytes)
      (fits : start + len ≤ block_size)
      (is_put : IsPut blk (view s.sb' s.d' (block_of (view s.sb' s.d') m i)) buf start len bytes)
      (basis : grown original offset (bytes + len) t
        ≡ grown original offset (bytes + len) (stored sb d k)) where
    -- The inode that is stored.
    abbrev pub new_inode : Inode
    new_inode = grown original offset (bytes + len) m1

    same_roots : (r : Root) → get_root r new_inode ≡ get_root r m1
    same_roots = get_root-grown original offset (bytes + len) m1

    new_fields : SameFields (grown original offset (bytes + len) (stored sb d k)) new_inode
    new_fields =
        subst (λ (x : Inode). SameFields x new_inode) basis
          (ap (grown original offset (bytes + len)) fields_now.0, fields_now.1)

    new_IsInode : IsInode new_inode
    new_IsInode = grown-IsInode original offset (bytes + len) s.fits fields_now λ c h. omega (
      arith,
      root_pointer-le (view g.sb' g.d') g.sb'.data_size g.ps' m1 outside refl budget_now c h,
      g.ready.geometry,
    )

    new_view : view g.sb' (stored_disk g.sb' g.d' k new_inode) ≡ view g.sb' g.d'
    new_view =
        view-stored_disk g.ready.geometry g.d' k (omega (arith, w.valid, layout_now)) new_inode

    pub Writing-round :
        Writing sb d n ps k outside buf offset
          (bytes + len)
          (grown original offset (bytes + len) (stored sb d k))
          new_inode
          (with_disk v1 (stored_disk g.sb' g.d' k new_inode))
    Writing-round = record {
      sb' = g.sb';
      d' = stored_disk g.sb' g.d' k new_inode;
      ps' = g.ps';
      ready = Ready-with_disk g.ready (stored_disk g.sb' g.d' k new_inode);
      same_layout = layout_now;
      free_list = rw new_view g.free_list;
      conserved = λ a. rw new_view (
          omega (
            arith,
            file_count-same (view g.sb' g.d') m1 new_inode same_roots a,
            g.conserved a,
            s.conserved a,
          ));
      written = λ p h.
          ap (λ (f : ℕ → Block). f (block_of f new_inode (p / block_size)) (p % block_size))
            new_view
          ∙ ap (λ (x : ℕ). view g.sb' g.d' x (p % block_size))
              (block_of-same (view g.sb' g.d') m1 new_inode same_roots (p / block_size))
          ∙ bytes_now start len p at fits is_put h;
      frame = λ a h. ap (λ (f : ℕ → Block). f a) new_view ∙ g.frame a h ∙ s.frame a h;
      fits =
          grown-IsInode original offset (bytes + len) w.fits (refl, refl)
            λ c h. omega (
              arith,
              root_pointer-le (view sb d) sb.data_size ps (stored sb d k) outside refl w.budget c h,
              w.ready.geometry,
            );
      fields = new_fields;
      inode = stored-stored_disk g.ready k k new_IsInode ∙ ground arith;
      others = λ j h ne.
          stored-stored_disk g.ready k j new_IsInode
          ∙ ground (arith, ne)
          ∙ stored_same s.ready layout tables j (omega (arith, h, s.same_layout))
          ∙ s.others j h ne;
    }

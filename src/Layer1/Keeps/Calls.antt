-- ===== src/Layer1/Keeps/Calls.antt =====
-- The calls of layer0.c and layer1.c keep a volume in use, whatever their arguments and however they
-- end.
use filesystem.Bytes.{Block, block_size, zero_block, set_words}
use filesystem.Layer0.{Superblock, Disk, Vol, Op, block_index, write_disk, write_block, read_block}
use filesystem.Layer0.Blocks.{read_block-fail, write_block-fail, read_block-at, write_block-at}
use filesystem.Layer1.Bitmap.{
  bits_per_block, Search, found, over, miss, scan_bytes, create_from, inode_create, inode_free,
}
use filesystem.Layer1.Data.{data_read, data_write}
use filesystem.Layer1.Inode.{
  Inode, inode_at, one_based, inode_block, inode_offset, inode_read, inode_write,
}
use filesystem.Layer1.Keeps.{
  SameLayout, InUse, MayLoop, Ends, well, badly, never, Keeping, keep_pure, keep_throw, keep_if,
  keep_attempt, keep_get, keep_bind, keep_seq, keep_option,
}
use filesystem.Layer1.Keeps.Data.{Kept, DataCalls, keep_filled, Kept-DataCalls}
use filesystem.Layer1.Ready.{
  with_disk, Ready-with_disk, read_superblock-done, write_superblock-done, Ready-with_superblock,
}
use filesystem.Layer1.Super.{
  superblock_words, uninitialized, or_uninitialized, read_superblock, write_superblock,
}
use filesystem.Prelude.{ltb, ◌==◌, Option-cases, ℕ, zero, suc, ◌+◌, ◌*◌, inl, inr, arith}
use filesystem.Prelude.Int.{ℤ, pos, negsuc}
use filesystem.Prelude.Run.{invalid_block, bad_inode, ilist_full, Run, ◌>>=◌}

pub SameLayout-refl : (sb : Superblock) → SameLayout sb sb
SameLayout-refl sb = ground arith

module _ {D : Type 0} {P : Vol → Type 0} where
  module _ {A : Type 0} where
    Ends-uninitialized : {r : Run Vol A} → Ends D P r → Ends D P (uninitialized r)
    Ends-uninitialized (well h) = well h
    Ends-uninitialized (badly h) = badly h
    Ends-uninitialized (never d) = never d

    pub keep_or_uninitialized : {m : Op A} → Keeping D P m → Keeping D P (or_uninitialized m)
    keep_or_uninitialized km = record { keep = λ s h. Ends-uninitialized (km.keep s h) }

InUse-with_disk :
    {sb : Superblock} {n : ℕ} {v : Vol} (d : Disk) → InUse sb n v → InUse sb n (with_disk v d)
InUse-with_disk d u = record {
  now = u.now;
  disk_now = d;
  ready = Ready-with_disk u.ready d;
  same = u.same;
}

module _ (D : Type 0) (sb : Superblock) (n : ℕ) where
  abbrev pub Keeps : {A : Type 0} → Op A → Type 0
  Keeps m = Keeping D (InUse sb n) m

  -- The superblock that a call reads names the areas that it should.
  pub keep_superblock :
      {A : Type 0} {k : Superblock → Op A}
      → ((s : Superblock) → SameLayout sb s → Keeps (k s))
      → Keeps (read_superblock >>= k)
  keep_superblock kk = record {
    keep = λ v u. rw (read_superblock-done u.ready) ((kk u.now u.same).keep v u);
  }

  read_block-Ends : (b : ℤ) {v : Vol} → InUse sb n v → Ends D (InUse sb n) (read_block b v)
  read_block-Ends b u = elim (Option-cases (block_index b n)) [
    | inl e ↦ rw (read_block-fail u.ready.opens b e) (badly u)
    | inr (k, e) ↦ rw (read_block-at u.ready.opens b {k = k} e) (well u)
  ]

  write_block-Ends :
      (b : ℤ) (buf : Block) {v : Vol} → InUse sb n v → Ends D (InUse sb n) (write_block b buf v)
  write_block-Ends b buf u = elim (Option-cases (block_index b n)) [
    | inl e ↦ rw (write_block-fail u.ready.opens b buf e) (badly u)
    | inr (k, e) ↦
        rw (write_block-at u.ready.opens b buf {k = k} e)
          (well (InUse-with_disk (write_disk u.disk_now k buf) u))
  ]

  pub read_block-Keeps : (b : ℤ) → Keeps (read_block b)
  read_block-Keeps b = record { keep = λ v u. read_block-Ends b u }

  pub write_block-Keeps : (b : ℤ) (buf : Block) → Keeps (write_block b buf)
  write_block-Keeps b buf = record { keep = λ v u. write_block-Ends b buf u }

  pub write_superblock-Keeps : (s : Superblock) → SameLayout sb s → Keeps (write_superblock s)
  write_superblock-Keeps s same = record {
    keep = λ v u. rw (write_superblock-done u.ready s (omega (arith, u.ready.geometry))) (
        well (record {
          now = s;
          disk_now = write_disk u.disk_now 0 (set_words v.junk 0 (superblock_words s));
          ready = Ready-with_superblock u.ready s (ground (arith, u.ready.geometry, u.same));
          same = same;
        }));
  }

  pub inode_read-Keeps : (i : ℤ) → Keeps (inode_read i)
  unfolding inode_read
  inode_read-Keeps i = keep_superblock λ s same.
      keep_option (one_based i s.num_inodes) (keep_throw bad_inode) λ k.
        keep_bind (keep_filled (read_block-Keeps (inode_block s k)))
          λ b. keep_pure (inode_at b (inode_offset k))

  pub inode_write-Keeps : (i : ℤ) (m : Inode) → Keeps (inode_write i m)
  unfolding inode_write
  inode_write-Keeps i m = keep_superblock λ s same.
      keep_option (one_based i s.num_inodes) (keep_throw bad_inode)
        λ k. keep_bind (keep_filled (read_block-Keeps (inode_block s k))) λ b. write_block-Keeps _ _

  pub inode_free-Keeps : (i : ℤ) → Keeps (inode_free i)
  unfolding inode_free
  inode_free-Keeps i = keep_superblock λ s same.
      keep_option (one_based i s.num_inodes) (keep_throw bad_inode)
        λ k. keep_bind (keep_filled (read_block-Keeps _)) λ b. write_block-Keeps _ _

  keep_search :
      {A : Type 0} (f : Search) {o m : Op A} {k : ℕ → ℕ → Op A}
      → Keeps o
      → Keeps m
      → ((y i : ℕ) → Keeps (k y i))
      → Keeps (elim f [ over ↦ o | miss ↦ m | found y i ↦ k y i ])
  keep_search (found y i) ko km kf = kf y i
  keep_search over ko km kf = ko
  keep_search miss ko km kf = km

  create_from-Keeps :
      (s : Superblock) (m : Inode) (buf : Block) (cur rounds : ℕ)
      → Keeps (create_from s m buf cur rounds)
  unfolding create_from
  create_from-Keeps s m buf cur zero = keep_throw ilist_full
  create_from-Keeps s m buf cur (suc rounds) = keep_bind (keep_attempt (read_block-Keeps _)) λ r.
      keep_search (scan_bytes s.num_inodes (cur * bits_per_block) _ 0 block_size)
        (keep_throw ilist_full) (create_from-Keeps s m _ (cur + 1) rounds)
        λ y i.
          keep_seq (keep_attempt (write_block-Keeps _ _))
            (keep_seq (inode_write-Keeps _ m) (keep_pure _))

  pub inode_create-Keeps : (m : Inode) → Keeps (inode_create m)
  unfolding inode_create
  inode_create-Keeps m =
      keep_superblock
        λ s same. keep_bind keep_get λ v. create_from-Keeps s m v.junk 0 s.ibitmap_size

  pub data_read-Keeps : (p : ℤ) → Keeps (data_read p)
  unfolding data_read
  data_read-Keeps (negsuc k) = keep_superblock λ s same. keep_throw invalid_block
  data_read-Keeps (pos k) = keep_superblock λ s same.
      keep_if (ltb s.data_size k) (keep_throw invalid_block)
        (keep_if (k == 0) (keep_pure zero_block) (read_block-Keeps _))

  pub data_write-Keeps : (p : ℤ) (b : Block) → Keeps (data_write p b)
  unfolding data_write
  data_write-Keeps p b = keep_superblock λ s same.
      keep_option (one_based p s.data_size) (keep_throw invalid_block) λ k. write_block-Keeps _ _

  pub InUse-Kept : Kept D sb (InUse sb n)
  InUse-Kept = record {
    known = λ v u. (u.now, read_superblock-done u.ready, u.same);
    reads = data_read-Keeps;
    writes = data_write-Keeps;
    writes_super = write_superblock-Keeps;
  }

-- The walk of data_free is the loop that needs fuel.
pub InUse-DataCalls : (sb : Superblock) (n : ℕ) → DataCalls MayLoop (InUse sb n)
InUse-DataCalls sb n = Kept-DataCalls (InUse-Kept MayLoop sb n) tt

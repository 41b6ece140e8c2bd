-- ===== src/Layer1/Keeps/Tables.antt =====
-- The calls on data blocks leave the bitmap and the inodes alone: of the disk they write the superblock
-- and the data blocks only.
use filesystem.Bytes.{Block, zero_block, set_words}
use filesystem.Layer0.{Superblock, Disk, Vol, block_index, write_disk, write_block, read_block}
use filesystem.Layer0.Blocks.{write_block-done, read_block-fail, write_block-fail, read_block-at}
use filesystem.Layer1.Data.{data_read, data_write}
use filesystem.Layer1.Inode.{one_based}
use filesystem.Layer1.Keeps.{
  SameLayout, MayLoop, Ends, well, badly, Keeping, keep_pure, keep_throw, keep_if, keep_option,
}
use filesystem.Layer1.Keeps.Data.{DataCalls, with_known, Kept-DataCalls}
use filesystem.Layer1.Ready.{
  Ready, with_disk, Ready-with_disk, read_superblock-done, write_superblock-done,
  Ready-with_superblock,
}
use filesystem.Layer1.Super.{superblock_words, read_superblock, write_superblock}
use filesystem.Prelude.{ltb, ◌==◌, Option-cases, lt_or_le, ℕ, ◌≤◌, ◌<◌, ◌≡◌, inl, inr, none, arith}
use filesystem.Prelude.Int.{ℤ, pos, negsuc}
use filesystem.Prelude.Run.{invalid_block, done}

-- A volume in use, whose blocks between the superblock and the data area are those of `d`.
pub record TablesKept (sb : Superblock) (d : Disk) (n : ℕ) (v : Vol) : Type 0 where
  pub now : Superblock
  pub disk_now : Disk
  pub ready : Ready v now disk_now n
  pub same : SameLayout sb now
  pub tables : (a : ℕ) → 0 < a → a < sb.data_block_offset → disk_now a ≡ d a

TablesKept-write :
    {sb : Superblock} {d : Disk} {n : ℕ} {v : Vol} (k : ℕ) (b : Block) (u : TablesKept sb d n v)
    → u.now.data_block_offset ≤ k
    → TablesKept sb d n (with_disk v (write_disk u.disk_now k b))
TablesKept-write k b u h = record {
  now = u.now;
  disk_now = write_disk u.disk_now k b;
  ready = Ready-with_disk u.ready (write_disk u.disk_now k b);
  same = u.same;
  tables = λ a l l'. ground (arith, u.same, u.tables a l l');
}

past_end : (n k : ℕ) → n ≤ k → block_index (pos k) n ≡ none
unfolding block_index
past_end n k h = ground arith

module _ (D : Type 0) (sb : Superblock) (d : Disk) (n : ℕ) where
  abbrev P : Vol → Type 0
  P = TablesKept sb d n

  known_TablesKept :
      (v : Vol) → P v → (s : Superblock) × (read_superblock v ≡ done s v) × SameLayout sb s
  known_TablesKept v u = (u.now, read_superblock-done u.ready, u.same)

  read_block-Tables : (b : ℤ) {v : Vol} → P v → Ends D P (read_block b v)
  read_block-Tables b u = elim (Option-cases (block_index b n)) [
    | inl e ↦ rw (read_block-fail u.ready.opens b e) (badly u)
    | inr (k, e) ↦ rw (read_block-at u.ready.opens b {k = k} e) (well u)
  ]

  data_read-Tables : (p : ℤ) → Keeping D P (data_read p)
  unfolding data_read
  data_read-Tables (negsuc k) = with_known known_TablesKept λ s same. keep_throw invalid_block
  data_read-Tables (pos k) = with_known known_TablesKept λ s same.
      keep_if (ltb s.data_size k) (keep_throw invalid_block)
        (keep_if (k == 0) (keep_pure zero_block) (record { keep = λ v u. read_block-Tables _ u }))

  write_block-Tables :
      (k : ℕ) (b : Block) {v : Vol}
      → P v
      → sb.data_block_offset ≤ k
      → Ends D P (write_block (pos k) b v)
  write_block-Tables k b u h = elim (lt_or_le k n) [
    | inl l ↦
        rw (write_block-done u.ready.opens k b l)
          (well (TablesKept-write k b u (omega (arith, u.same, h))))
    | inr l ↦ rw (write_block-fail u.ready.opens (pos k) b (past_end n k l)) (badly u)
  ]

  data_write-Tables : (p : ℤ) (b : Block) → Keeping D P (data_write p b)
  unfolding data_write
  data_write-Tables p b = with_known known_TablesKept λ s same.
      keep_option (one_based p s.data_size) (keep_throw invalid_block)
        λ k. record { keep = λ v u. write_block-Tables _ b u (omega (arith, same)) }

  write_superblock-Tables : (s : Superblock) → SameLayout sb s → Keeping D P (write_superblock s)
  write_superblock-Tables s same = record {
    keep = λ v u. rw (write_superblock-done u.ready s (omega (arith, u.ready.geometry))) (
        well (record {
          now = s;
          disk_now = write_disk u.disk_now 0 (set_words v.junk 0 (superblock_words s));
          ready = Ready-with_superblock u.ready s (ground (arith, u.ready.geometry, u.same));
          same = same;
          tables = λ a l l'. ground (arith, u.tables a l l');
        }));
  }

pub TablesKept-DataCalls :
    (sb : Superblock) (d : Disk) (n : ℕ) → DataCalls MayLoop (TablesKept sb d n)
TablesKept-DataCalls sb d n =
    Kept-DataCalls
      (record {
        known = known_TablesKept MayLoop sb d n;
        reads = data_read-Tables MayLoop sb d n;
        writes = data_write-Tables MayLoop sb d n;
        writes_super = write_superblock-Tables MayLoop sb d n;
      })
      tt

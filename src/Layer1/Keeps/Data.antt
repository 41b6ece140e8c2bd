-- ===== src/Layer1/Keeps/Data.antt =====
-- data_allocate and data_free keep what the calls keep that they are made of.
use filesystem.Bytes.{Block}
use filesystem.Layer0.{Superblock, Vol, Op}
use filesystem.Layer1.Data.{data_read, data_write}
use filesystem.Layer1.FreeList.{
  addr_per_node, invalid_data, first_empty, first_used, put_in_node, new_head, data_free,
  data_allocate,
}
use filesystem.Layer1.Inode.{one_based, fill, filled}
use filesystem.Layer1.Keeps.{
  SameLayout, Ends, well, badly, never, Keeping, keep_pure, keep_throw, keep_if, keep_bool,
  keep_attempt, keep_get, keep_bind, keep_seq, keep_option,
}
use filesystem.Layer1.Super.{read_superblock, write_superblock}
use filesystem.Prelude.{◌==◌, ℕ, zero, suc, ◌≡◌, true, false, arith}
use filesystem.Prelude.Int.{ℤ, pos}
use filesystem.Prelude.Run.{invalid_block, data_full, Run, done, ◌>>=◌}

-- A property of the globals that the calls on a data block and on the superblock keep.
pub record Kept (D : Type 0) (sb : Superblock) (P : Vol → Type 0) : Type 0 where
  pub known : (v : Vol) → P v → (s : Superblock) × (read_superblock v ≡ done s v) × SameLayout sb s
  pub reads : (p : ℤ) → Keeping D P (data_read p)
  pub writes : (p : ℤ) (b : Block) → Keeping D P (data_write p b)
  pub writes_super : (s : Superblock) → SameLayout sb s → Keeping D P (write_superblock s)

-- The calls that the block map and the contents of files are made of.
pub record DataCalls (D : Type 0) (P : Vol → Type 0) : Type 0 where
  pub read : (p : ℤ) → Keeping D P (data_read p)
  pub write : (p : ℤ) (b : Block) → Keeping D P (data_write p b)
  pub take : (b : Block) → Keeping D P (data_allocate b)
  pub free : (p : ℤ) → Keeping D P (data_free p)

module _ {D : Type 0} {P : Vol → Type 0} where
  Ends-fill : {r : Run Vol Block} → Ends D P r → Ends D P (fill r)
  Ends-fill (well h) = well h
  Ends-fill (badly h) = well h
  Ends-fill (never d) = never d

  pub keep_filled : {m : Op Block} → Keeping D P m → Keeping D P (filled m)
  keep_filled km = record { keep = λ s h. Ends-fill (km.keep s h) }

-- The superblock that a call reads names the areas that it should.
pub with_known :
    {D : Type 0} {sb : Superblock} {P : Vol → Type 0}
    → ((v : Vol) → P v → (s : Superblock) × (read_superblock v ≡ done s v) × SameLayout sb s)
    → {A : Type 0} {k : Superblock → Op A}
    → ((s : Superblock) → SameLayout sb s → Keeping D P (k s))
    → Keeping D P (read_superblock >>= k)
with_known known kk = record {
  keep = λ v h. let (s, e, same) = known v h in rw e ((kk s same).keep v h);
}

module _ {D : Type 0} {sb : Superblock} {P : Vol → Type 0} (kept : Kept D sb P) where
  new_head_keeps : (s : Superblock) (b : ℕ) → SameLayout sb s → Keeping D P (new_head s b)
  unfolding new_head
  new_head_keeps s b same =
      keep_seq (keep_attempt (kept.writes (pos b) _))
        (keep_seq (keep_attempt (kept.writes_super _ (ground (arith, same)))) (keep_pure tt))

  pub data_allocate_keeps : (b : Block) → Keeping D P (data_allocate b)
  unfolding data_allocate
  data_allocate_keeps b = with_known kept.known λ s same.
      keep_if (s.free_list_head == invalid_data) (keep_throw data_full) (
        keep_bind (keep_filled (kept.reads (pos s.free_list_head))) λ cur.
          keep_option (first_used cur 0 addr_per_node)
            (keep_seq (keep_attempt (kept.writes_super _ (ground (arith, same))))
              (keep_seq (kept.writes _ b) (keep_pure _)))
            λ i.
              keep_seq (keep_attempt (kept.writes _ _)) (keep_seq (kept.writes _ b) (keep_pure _)))

  -- The walk of data_free is the loop that needs fuel.
  module _ (loops : D) where
    put_in_node_keeps :
        (fuel cur : ℕ) (node : Block) (b : ℕ) → Keeping D P (put_in_node fuel cur node b)
    unfolding put_in_node
    put_in_node_keeps zero cur node b = record { keep = λ v u. never loops }
    put_in_node_keeps (suc fuel) cur node b = keep_bool (cur == invalid_data) (keep_pure false) (
        keep_bind (keep_attempt (kept.reads (pos cur))) λ r.
          keep_option (first_empty _ 0 addr_per_node) (put_in_node_keeps fuel _ _ b)
            λ i. keep_seq (keep_attempt (kept.writes (pos cur) _)) (keep_pure true))

    pub data_free_keeps : (p : ℤ) → Keeping D P (data_free p)
    unfolding data_free
    data_free_keeps p = with_known kept.known λ s same. keep_bind keep_get λ v.
        keep_option (one_based p s.data_size) (keep_throw invalid_block) λ k.
          keep_bind (put_in_node_keeps _ _ _ _)
            λ put. keep_if put (keep_pure tt) (new_head_keeps s (suc k) same)

    pub Kept-DataCalls : DataCalls D P
    Kept-DataCalls = record {
      read = kept.reads;
      write = kept.writes;
      take = data_allocate_keeps;
      free = data_free_keeps;
    }

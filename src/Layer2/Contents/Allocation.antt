-- ===== src/Layer2/Contents/Allocation.antt =====
-- The two ways in which data_allocate ends where get_nth_datablock asks for a block of zeros.
use filesystem.Bytes.{zero_block}
use filesystem.Layer0.{Superblock, Disk, Vol, Op}
use filesystem.Layer1.Data.View.{view}
use filesystem.Layer1.FreeList.{invalid_data, data_allocate}
use filesystem.Layer1.FreeList.Allocate.{Took, data_allocate-Took, data_allocate-full}
use filesystem.Layer1.FreeList.Chain.{IsFreeList}
use filesystem.Layer1.Ready.{Ready}
use filesystem.Layer2.BlockMap.{Nth}
use filesystem.Prelude.{eq_or_ne, ℕ, ◌≡◌, inl, inr, List}
use filesystem.Prelude.Run.{
  data_full, Result, ok, err, Run, done, fail, diverge, and_then, caught, Returns,
}

-- How data_allocate ends for a new block of zeros.
pub data Allocation (n : ℕ) (sb : Superblock) (d : Disk) (ps : List ℕ) (v : Vol)
    : Run Vol ℕ → Type 0 where
  none_free : sb.free_list_head ≡ invalid_data → Allocation n sb d ps v (fail data_full v)
  took : {w : ℕ} {v1 : Vol} → Took n sb d ps zero_block w v1 → Allocation n sb d ps v (done w v1)

Allocation-Took :
    {n : ℕ} {sb : Superblock} {d : Disk} {ps : List ℕ} {v : Vol} (run : Run Vol ℕ)
    → Returns (Took n sb d ps zero_block) run
    → Allocation n sb d ps v run
Allocation-Took (done w v1) t = took t
Allocation-Took (fail e s) t = absurd t
Allocation-Took diverge t = absurd t

pub data_allocate-Allocation :
    {v : Vol} {sb : Superblock} {d : Disk} {n : ℕ} {ps : List ℕ} (r : Ready v sb d n)
    → IsFreeList sb.data_size (view sb d) sb.free_list_head ps
    → Allocation n sb d ps v (data_allocate zero_block v)
data_allocate-Allocation {v} {sb} r l = elim (eq_or_ne sb.free_list_head invalid_data) [
  | inl e ↦ rw (data_allocate-full r e zero_block) (none_free e)
  | inr some_free ↦
      Allocation-Took (data_allocate zero_block v) (data_allocate-Took r l some_free zero_block)
]

pub alloc_then :
    {n : ℕ} {sb : Superblock} {d : Disk} {ps : List ℕ} {v : Vol} {run : Run Vol ℕ}
    (P : Nth → Vol → Type 0) (k : Result ℕ → Op Nth)
    → Allocation n sb d ps v run
    → (sb.free_list_head ≡ invalid_data → Returns P (k (err data_full) v))
    → ((w : ℕ) (v1 : Vol) → Took n sb d ps zero_block w v1 → Returns P (k (ok w) v1))
    → Returns P (and_then (caught run) k)
alloc_then P k (none_free e) hn ht = hn e
alloc_then P k (took {w} {v1} t) hn ht = ht w v1 t

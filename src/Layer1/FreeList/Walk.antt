-- ===== src/Layer1/FreeList/Walk.antt =====
-- The walk of data_free over the nodes: where it ends, and that the fuel is enough for it.
use filesystem.Bytes.{Block}
use filesystem.Layer0.{Superblock, Disk, Vol}
use filesystem.Layer1.Data.View.{view, write_data, data_read-done, data_write-done}
use filesystem.Layer1.FreeList.{
  addr_per_node, invalid_data, next_of, addr, set_addr, first_empty, put_in_node, new_head,
  data_free,
}
use filesystem.Layer1.FreeList.Chain.{IsChain, valid_once}
use filesystem.Layer1.FreeList.Entries.{first_empty-some}
use filesystem.Layer1.Inode.{one_based, one_based-some}
use filesystem.Layer1.Ready.{Ready, with_disk, read_superblock-done}
use filesystem.Layer1.Super.{read_superblock}
use filesystem.Prelude.{
  if◌then◌else◌, Option-cases, length, count, ℕ, zero, suc, ◌+◌, ◌≤◌, ◌<◌, ◌≡◌, ◌∙◌, inl, inr, Bool,
  true, false, some, List, [], ◌∷◌, arith,
}
use filesystem.Prelude.Int.{pos}
use filesystem.Prelude.Run.{Run, done, pure, and_then}

data_free_at :
    {v : Vol} {sb : Superblock} (k : ℕ)
    → read_superblock v ≡ done sb v
    → one_based (pos (suc k)) sb.data_size ≡ some k
    → data_free (pos (suc k)) v
      ≡ and_then
          (put_in_node (sb.data_size + 1) sb.free_list_head v.junk (suc k) v)
          (λ put. if put then pure tt else new_head sb (suc k))
unfolding data_free
data_free_at k e g = rw (e, and_then) (rw g)

-- The call is the walk, and what is done where it finds no place.
pub data_free_lem :
    {v : Vol} {sb : Superblock} {d : Disk} {n : ℕ} (r : Ready v sb d n) (b : ℕ)
    → 0 < b
    → b ≤ sb.data_size
    → data_free (pos b) v
      ≡ and_then
          (put_in_node (sb.data_size + 1) sb.free_list_head v.junk b v)
          (λ put. if put then pure tt else new_head sb b)
data_free_lem r zero positive valid = absurd (omega arith)
data_free_lem {sb} r (suc k) positive valid =
    data_free_at k (read_superblock-done r) (one_based-some k sb.data_size (omega arith))

module _ {v : Vol} {sb : Superblock} {d : Disk} {n : ℕ} (r : Ready v sb d n) (b : ℕ) where
  -- The disk with the block in the entry `i` of the node `q`.
  abbrev pub filled_disk : ℕ → ℕ → Disk
  filled_disk q i = write_data sb d q (set_addr (view sb d q) i b)

  -- How the walk over the nodes `ps` ends: with the block in an empty entry, or without one.
  pub data Walk (ps : List ℕ) (run : Run Vol Bool) : Type 0 where
    placed :
        (q i : ℕ)
        → 0 < count q ps
        → i < addr_per_node
        → addr (view sb d q) i ≡ invalid_data
        → run ≡ done true (with_disk v (filled_disk q i))
        → Walk ps run
    ended : run ≡ done false v → Walk ps run

  Walk-cons : (p : ℕ) (ps : List ℕ) {s t : Run Vol Bool} → s ≡ t → Walk ps t → Walk (p ∷ ps) s
  Walk-cons p ps e (placed q i node inside empty g) = placed q i (ground arith) inside empty (e ∙ g)
  Walk-cons p ps e (ended g) = ended (e ∙ g)

  pub put_in_node-Walk :
      (fuel h : ℕ) (ps : List ℕ) (cur_node : Block)
      → IsChain (view sb d) h ps
      → ((a : ℕ) → count a ps ≤ valid_once sb.data_size a)
      → length ps < fuel
      → Walk ps (put_in_node fuel h cur_node b v)
  unfolding put_in_node
  put_in_node-Walk zero h ps node c once enough = absurd (omega arith)
  put_in_node-Walk (suc fuel) h [] node c once enough = ended (ground arith)
  put_in_node-Walk (suc fuel) h (p ∷ ps) node c once enough =
      let small : p ≤ sb.data_size = ground (arith, once p) in
      elim (Option-cases (first_empty (view sb d p) 0 addr_per_node)) [
        | inl e ↦ Walk-cons p ps (ground (arith, e, c.0, c.1, data_read-done r p small)) (
            put_in_node-Walk fuel (next_of (view sb d p)) ps (view sb d p) c.2
              (λ a. ground (arith, once a)) (omega arith))
        | inr (i, e) ↦
            let found = first_empty-some (view sb d p) 0 addr_per_node {j = i} e in
            placed p i (ground arith) found.1 found.2 (
              ground (
                arith,
                e,
                c.0,
                c.1,
                data_read-done r p small,
                data_write-done r p (set_addr (view sb d p) i b),
              ))
      ]

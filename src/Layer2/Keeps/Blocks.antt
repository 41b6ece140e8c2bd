-- ===== src/Layer2/Keeps/Blocks.antt =====
-- The block map and the rounds of write_i keep what the calls on data blocks keep.
use filesystem.Bytes.{Block, block_size, zero_block, all_zero}
use filesystem.Layer0.{Vol}
use filesystem.Layer1.Inode.{Inode}
use filesystem.Layer1.Keeps.{
  Keeping, keep_pure, keep_throw, keep_if, keep_bool, keep_attempt, keep_bind, keep_seq,
  keep_option, keep_result,
}
use filesystem.Layer1.Keeps.Data.{DataCalls}
use filesystem.Layer2.BlockMap.{
  addresses_per_block, int_pow, locate, get_root, set_root, address, Nth, descend,
  get_nth_datablock, Level, walk_down, clear_entry, free_up, rm_nth_datablock,
}
use filesystem.Layer2.File.{rm_block, put_bytes, is_data_full, write_round}
use filesystem.Prelude.{◌==◌, ℕ, zero, suc, ◌-◌, ◌/◌, Bool, true, false, ◌&&◌, not, List, [], ◌∷◌}
use filesystem.Prelude.Int.{pos}
use filesystem.Prelude.Run.{invalid_block, data_full}

module _ {D : Type 0} {P : Vol → Type 0} (calls : DataCalls D P) where
  descend_keeps :
      (create : Bool) (inod : Inode) (created : Bool) (levels next offset : ℕ)
      → Keeping D P (descend create inod created levels next offset)
  unfolding descend
  descend_keeps create inod created zero next offset = keep_pure _
  descend_keeps create inod created (suc i) next offset =
      keep_bool (next == 0 && not create) (keep_pure _) (
        keep_bind (keep_attempt (calls.read _)) λ r.
          keep_result r (λ e. keep_pure _)
            λ b.
              keep_bool (address b (offset / int_pow addresses_per_block i) == 0 && create)
                (keep_bind (keep_attempt (calls.take _)) λ a.
                  keep_result a (λ e. keep_pure _)
                    λ new_block. keep_bind (keep_attempt (calls.write _ _)) λ w.
                      keep_result w (λ e. keep_pure _) λ _. descend_keeps create inod true i _ _)
                (descend_keeps create inod created i _ _))

  pub get_nth_datablock_keeps :
      (inod : Inode) (m : ℕ) (create : Bool) → Keeping D P (get_nth_datablock inod m create)
  unfolding get_nth_datablock
  get_nth_datablock_keeps inod m create = keep_option (locate m) (keep_pure _) λ l.
      keep_bool (get_root l.0 inod == 0 && create)
        (keep_bind (keep_attempt (calls.take zero_block)) λ a.
          keep_result a (λ e. keep_pure _)
            λ b. descend_keeps create (set_root l.0 inod b) true l.1 b l.2)
        (descend_keeps create inod false l.1 (get_root l.0 inod) l.2)

  walk_down_keeps :
      (levels next offset : ℕ) (acc : List Level) → Keeping D P (walk_down levels next offset acc)
  unfolding walk_down
  walk_down_keeps zero next offset acc = keep_pure _
  walk_down_keeps (suc j) next offset acc =
      keep_bool (next == 0) (keep_pure _) (keep_bind (calls.read _) λ b. walk_down_keeps j _ _ _)

  free_up_keeps : (ls : List Level) → Keeping D P (free_up ls)
  unfolding free_up clear_entry
  free_up_keeps [] = keep_pure _
  free_up_keeps (l ∷ ls) =
      keep_bind
        (keep_if (address l.block l.index == 0) (keep_pure _)
          (keep_seq (calls.free _) (keep_seq (keep_attempt (calls.write _ _)) (keep_pure _))))
        λ b. keep_bool (all_zero b 0 block_size) (free_up_keeps ls) (keep_pure _)

  rm_nth_datablock_keeps : (inod : Inode) (m : ℕ) → Keeping D P (rm_nth_datablock inod m)
  unfolding rm_nth_datablock
  rm_nth_datablock_keeps inod m = keep_option (locate m) (keep_throw invalid_block) λ l.
      keep_bind (walk_down_keeps l.1 (get_root l.0 inod) l.2 []) λ path.
        keep_bind (free_up_keeps path) λ emptied.
          keep_bool (emptied && not (get_root l.0 inod == 0))
            (keep_seq (calls.free (pos (get_root l.0 inod))) (keep_pure (set_root l.0 inod 0)))
            (keep_pure inod)

  pub rm_block_keeps : (inod : Inode) (m : ℕ) → Keeping D P (rm_block inod m)
  unfolding rm_block
  rm_block_keeps inod m = keep_bind (keep_attempt (rm_nth_datablock_keeps inod m)) λ r. keep_pure _

  put_bytes_keeps :
      (nth : Nth) (buf : Block) (i start write_size bytes : ℕ)
      → Keeping D P (put_bytes nth buf i start write_size bytes)
  unfolding put_bytes
  put_bytes_keeps nth buf i start size bytes =
      keep_if (size == block_size && start == 0) (keep_seq (calls.write _ _) (keep_pure nth.inode))
        (keep_bind (keep_if nth.created (keep_pure zero_block) (calls.read _)) λ old.
          keep_if (all_zero _ 0 block_size) (rm_block_keeps nth.inode i)
            (keep_seq (calls.write _ _) (keep_pure nth.inode)))

  pub write_round_keeps :
      (inod : Inode) (buf : Block) (i start write_size bytes : ℕ)
      → Keeping D P (write_round inod buf i start write_size bytes)
  unfolding write_round
  write_round_keeps inod buf i start size bytes =
      keep_if (all_zero buf start (size - start) && (size == block_size && start == 0))
        (rm_block_keeps inod i)
        (keep_bind (get_nth_datablock_keeps inod i true) λ nth.
          keep_if (not (is_data_full nth.block)) (put_bytes_keeps nth buf i start size bytes) (
            keep_if (all_zero buf start (size - start)) (rm_block_keeps nth.inode i)
              (keep_seq (rm_block_keeps nth.inode i) (keep_throw data_full))))

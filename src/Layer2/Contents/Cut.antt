-- ===== src/Layer2/Contents/Cut.antt =====
-- The two loops of rm_nth_datablock, down the tree and up again, as one recursion.
use filesystem.Bytes.{Block, block_size, all_zero}
use filesystem.Layer0.{Superblock, Disk, Vol, Op}
use filesystem.Layer1.Data.{data_read}
use filesystem.Layer1.Data.View.{view, data_read-done}
use filesystem.Layer1.Ready.{Ready}
use filesystem.Layer2.BlockMap.{
  addresses_per_block, address, Level, walk_down, clear_entry, free_up,
}
use filesystem.Layer2.BlockMap.Locate.{indices, AllBelow}
use filesystem.Layer2.Contents.{IsTree}
use filesystem.Layer2.Contents.Grow.{entry_at, rest_at}
use filesystem.Prelude.{
  ◌==◌, Bool-cases, ℕ, zero, suc, ◌≡◌, refl, ◌∙◌, inl, inr, Bool, true, false, List, ◌∷◌,
}
use filesystem.Prelude.Int.{pos}
use filesystem.Prelude.Run.{Run, done, fail, diverge, pure, and_then, ◌>>=◌}

-- Removes the block at an offset from the tree under `p`: whether all entries of `p` are then 0. The
-- block `p` itself is left to the caller.
unfoldable pub cut : (levels p offset : ℕ) → Op Bool
cut zero p offset = pure true
cut (suc i) p offset = elim (p == 0) [
  | true ↦ pure true
  | false ↦ do
    b ← data_read (pos p)
    let index : ℕ = entry_at i offset
    emptied ← cut i (address b index) (rest_at i offset)
    elim emptied [
      | false ↦ pure false
      | true ↦ do
        b' ← clear_entry (record { block_addr = p; block = b; index = index })
        pure (all_zero b' 0 block_size)
    ]
]

-- The loop upwards goes on above a block of which all entries are 0.
abbrev pub go_on : List Level → Bool → Op Bool
go_on ls emptied = elim emptied [ true ↦ free_up ls | false ↦ pure false ]

abbrev pub clear_at : Level → Bool → Op Bool
clear_at l emptied = elim emptied [
  | false ↦ pure false
  | true ↦ do b' ← clear_entry l; pure (all_zero b' 0 block_size)
]

go_on-suc :
    (l : Level) (ls : List Level) (run : Run Vol Bool)
    → and_then run (go_on (l ∷ ls)) ≡ and_then (and_then run (clear_at l)) (go_on ls)
unfolding free_up
go_on-suc l ls (done true v) = cleared (clear_entry l v)
  where
    cleared :
        (run : Run Vol Block)
        → and_then run
            (λ b. elim (all_zero b 0 block_size) [ true ↦ free_up ls | false ↦ pure false ])
          ≡ and_then (and_then run (λ b. pure (all_zero b 0 block_size))) (go_on ls)
    cleared (done b v) = refl
    cleared (fail e v) = refl
    cleared diverge = refl
go_on-suc l ls (done false v) = refl
go_on-suc l ls (fail e v) = refl
go_on-suc l ls diverge = refl

module _ {v : Vol} {sb : Superblock} {d : Disk} {n : ℕ} (r : Ready v sb d n) where
  pub walk_down-cut :
      (levels p offset : ℕ) (acc : List Level)
      → IsTree (view sb d) sb.data_size levels p
      → AllBelow addresses_per_block (indices levels offset)
      → (walk_down levels p offset acc >>= free_up) v ≡ (cut levels p offset >>= go_on acc) v
  unfolding walk_down cut indices
  walk_down-cut zero p offset acc h b = refl
  walk_down-cut (suc i) p offset acc h b = elim (Bool-cases (p == 0)) [
    | inl e ↦ rw (walk_down, cut, e) refl
    | inr e ↦
        rw (walk_down, cut, e)
          (rw (data_read-done r p h.0) (
            walk_down-cut i (address (view sb d p) (entry_at i offset)) (rest_at i offset) _
              (h.1 _ b.0) b.1
            ∙ go_on-suc _ acc _))
  ]

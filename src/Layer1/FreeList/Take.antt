-- ===== src/Layer1/FreeList/Take.antt =====
-- What taking a block from the free list makes of the list: one entry of the head node is cleared, or
-- the head node itself goes.
use filesystem.Bytes.{Block}
use filesystem.Layer1.Data.View.{upd}
use filesystem.Layer1.FreeList.{addr_per_node, invalid_data, next_of, addr, set_addr}
use filesystem.Layer1.FreeList.Chain.{
  IsChain, free_blocks, IsFreeList, count-free_blocks, IsChain-upd, free_blocks-upd,
}
use filesystem.Layer1.FreeList.Entries.{entries, entry_count, next_of-set_addr, count-set_addr}
use filesystem.Prelude.{
  ◌==◌, if◌then◌else◌, count, ℕ, ◌+◌, ◌≤◌, ◌<◌, ◌≡◌, ◌∙◌, ◌≢◌, List, [], ◌∷◌, arith,
}

-- The counts of a node's entries when one of them is cleared.
abbrev cleared : (ℕ → Block) → (p j : ℕ) → ℕ → Block
cleared f p j = upd f p (set_addr (f p) j invalid_data)

abbrev pub after_entry : (ℕ → Block) → (p j : ℕ) → Block → ℕ → Block
after_entry f p j new = upd (cleared f p j) (addr (f p) j) new

module _ {size : ℕ} {f : ℕ → Block} {h p : ℕ} {ps : List ℕ} (l : IsFreeList size f h (p ∷ ps)) where
  -- The head is a data block, and no other node or entry.
  pub head_once :
      (p ≤ size) × (0 < p) × (count p (free_blocks f ps) ≡ 0) × (count p (entries (f p)) ≡ 0)
  head_once = ground (arith, l.once p, count-free_blocks f p ps p)

  module _ (j : ℕ) (inside : j < addr_per_node) (some_block : addr (f p) j ≢ invalid_data)
      (new : Block) where
    -- The numbers of the cleared entry.
    entry_counts :
        (a : ℕ)
        → count a (entries (set_addr (f p) j invalid_data)) + entry_count (addr (f p) j) a
          ≡ count a (entries (f p))
    entry_counts a = omega (
      arith,
      count-set_addr (f p) invalid_data a 0 j addr_per_node (omega arith) (omega arith)
          (omega arith),
    )

    -- A block named by an entry is a data block, and stands nowhere else in the list.
    pub entry_once :
        (addr (f p) j ≤ size) × (addr (f p) j ≢ p) × (count (addr (f p) j) (free_blocks f ps) ≡ 0)
    entry_once = ground (
      arith,
      l.once (addr (f p) j),
      count-free_blocks f p ps (addr (f p) j),
      entry_counts (addr (f p) j),
    )

    p_out : count p (free_blocks f ps) ≡ 0
    p_out = head_once.2

    rest_cleared : free_blocks (cleared f p j) ps ≡ free_blocks f ps
    rest_cleared = free_blocks-upd f p (set_addr (f p) j invalid_data) ps p_out

    w_out : count (addr (f p) j) (free_blocks (cleared f p j) ps) ≡ 0
    w_out = rw rest_cleared entry_once.2

    rest_same : free_blocks (after_entry f p j new) ps ≡ free_blocks f ps
    rest_same = free_blocks-upd (cleared f p j) (addr (f p) j) new ps w_out ∙ rest_cleared

    head_same : after_entry f p j new p ≡ set_addr (f p) j invalid_data
    head_same = ground (arith, entry_once)

    IsChain-same : IsChain (after_entry f p j new) h (p ∷ ps)
    IsChain-same = (
      l.chain.0,
      l.chain.1,
      rw (head_same, next_of-set_addr)
          (IsChain-upd (cleared f p j) (addr (f p) j) new (next_of (f p)) ps w_out
            (IsChain-upd f p (set_addr (f p) j invalid_data) (next_of (f p)) ps p_out l.chain.2)),
    )

    -- The list loses the number of the entry, and nothing else.
    pub count_entry :
        (a : ℕ)
        → count a (free_blocks f (p ∷ ps))
          ≡ count a (free_blocks (after_entry f p j new) (p ∷ ps))
            + (if addr (f p) j == a then 1 else 0)
    count_entry a =
        rw
          (
            count-free_blocks f p ps a,
            count-free_blocks (after_entry f p j new) p ps a,
            rest_same,
            head_same,
          )
          (ground (arith, entry_counts a))

    pub entry_IsFreeList : IsFreeList size (after_entry f p j new) h (p ∷ ps)
    entry_IsFreeList = record {
      chain = IsChain-same;
      once = λ a. omega (arith, count_entry a, l.once a);
    }

  module _ (empty : entries (f p) ≡ []) (new : Block) where
    -- The head itself is taken: it holds no other block.
    pub count_head :
        (a : ℕ)
        → count a (free_blocks f (p ∷ ps))
          ≡ count a (free_blocks (upd f p new) ps) + (if p == a then 1 else 0)
    count_head a =
        rw (count-free_blocks f p ps a, free_blocks-upd f p new ps head_once.2, empty) (omega arith)

    pub head_IsFreeList : IsFreeList size (upd f p new) (next_of (f p)) ps
    head_IsFreeList = record {
      chain = IsChain-upd f p new (next_of (f p)) ps head_once.2 l.chain.2;
      once = λ a. omega (arith, count_head a, l.once a);
    }

-- What taking the block `w` for the contents `new` makes of the data blocks `f` and the free list
-- with the nodes `ps`: a free list again, with the same blocks but `w`.
pub record Taken (size : ℕ) (f : ℕ → Block) (ps : List ℕ) (new : Block) (w : ℕ) (f' : ℕ → Block)
    (h' : ℕ) (ps' : List ℕ) : Type 0 where
  pub free_list : IsFreeList size f' h' ps'
  pub taken :
      (a : ℕ)
      → count a (free_blocks f ps) ≡ count a (free_blocks f' ps') + (if w == a then 1 else 0)
  pub holds : f' w ≡ new
  pub others : (q : ℕ) → count q (free_blocks f ps) ≡ 0 → f' q ≡ f q

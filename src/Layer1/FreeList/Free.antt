-- ===== src/Layer1/FreeList/Free.antt =====
-- data_free puts a block into the free list.
use filesystem.Bytes.{Block, zero_block, u32_at}
use filesystem.Bytes.Words.{u32_at-set_u32_self, u32_at-set_u32_ne}
use filesystem.Layer1.Data.View.{upd}
use filesystem.Layer1.FreeList.{addr_per_node, invalid_data, next_of, set_next, addr, set_addr}
use filesystem.Layer1.FreeList.Chain.{
  IsChain, free_blocks, IsFreeList, count-free_blocks, IsChain-upd, free_blocks-upd,
}
use filesystem.Layer1.FreeList.Entries.{used, entries, next_of-set_addr, count-set_addr}
use filesystem.Layer1.FreeList.Length.{count-nodes}
use filesystem.Prelude.{
  ◌==◌, if◌then◌else◌, eq_or_ne, count, ℕ, zero, suc, ◌+◌, ◌*◌, ◌≤◌, ◌<◌, ◌≡◌, refl, ◌≢◌, inl, inr,
  List, [], ◌∷◌, arith,
}

-- What giving the block `b` back makes of the data blocks `f` and the free list with the nodes `ps`:
-- a free list again, with the same blocks and `b`. Outside the list only `b` may change.
pub record Given (size : ℕ) (f : ℕ → Block) (ps : List ℕ) (b : ℕ) (f' : ℕ → Block) (h' : ℕ)
    (ps' : List ℕ) : Type 0 where
  pub free_list : IsFreeList size f' h' ps'
  pub given :
      (a : ℕ)
      → count a (free_blocks f' ps') ≡ count a (free_blocks f ps) + (if b == a then 1 else 0)
  pub others : (q : ℕ) → count q (free_blocks f ps) ≡ 0 → q ≢ b → f' q ≡ f q

module _ (f : ℕ → Block) (q i b : ℕ) (word : b < 4294967296) (block : b ≢ invalid_data)
    (inside : i < addr_per_node) (empty : addr (f q) i ≡ invalid_data) where
  abbrev filled_node : Block
  filled_node = set_addr (f q) i b

  count-filled :
      (a : ℕ) → count a (entries filled_node) ≡ count a (entries (f q)) + (if b == a then 1 else 0)
  count-filled a =
      ground (arith, count-set_addr (f q) b a 0 i addr_per_node word (omega arith) (omega arith))

  -- The links of the nodes stay.
  next_of-filled : (p : ℕ) → next_of (upd f q filled_node p) ≡ next_of (f p)
  next_of-filled p = elim (eq_or_ne q p) [
    | inl e ↦ ground (arith, next_of-set_addr (f q) i b)
    | inr ne ↦ ground arith
  ]

  IsChain-filled : (h : ℕ) (ps : List ℕ) → IsChain f h ps → IsChain (upd f q filled_node) h ps
  IsChain-filled h [] c = c
  IsChain-filled h (p ∷ ps) c =
      (c.0, c.1, rw (next_of-filled p) (IsChain-filled (next_of (f p)) ps c.2))

  -- The list with the entry filled holds the block besides.
  count-free_blocks-filled :
      (ps : List ℕ) (a : ℕ)
      → count q (free_blocks f ps) ≤ 1
      → 0 < count q ps
      → count a (free_blocks (upd f q filled_node) ps)
        ≡ count a (free_blocks f ps) + (if b == a then 1 else 0)
  count-free_blocks-filled [] a once node = absurd (omega arith)
  count-free_blocks-filled (p ∷ ps) a once node = elim (eq_or_ne q p) [
    | inl e ↦
        let here : upd f q filled_node p ≡ filled_node = ground arith in
        rw
          (
            count-free_blocks (upd f q filled_node) p ps a,
            count-free_blocks f p ps a,
            here,
            free_blocks-upd f q filled_node ps (ground (arith, count-free_blocks f p ps q)),
            count-filled a,
            e,
          )
          (omega arith)
    | inr ne ↦
        let here : upd f q filled_node p ≡ f p = ground arith in
        let rest =
          count-free_blocks-filled ps a (ground (arith, count-free_blocks f p ps q))
            (ground arith) in
        rw (count-free_blocks (upd f q filled_node) p ps a, count-free_blocks f p ps a, here, rest)
          (omega arith)
  ]

-- A node with its entries clear, in front of the list.
module _ (h : ℕ) where
  abbrev pub head_node : Block
  head_node = set_next zero_block h

  addr-head_node : (i : ℕ) → addr head_node i ≡ invalid_data
  unfolding u32_at
  addr-head_node i = u32_at-set_u32_ne zero_block 0 h (4 + 4 * i) (omega arith)

  used-head_node : (i rounds : ℕ) → used head_node i rounds ≡ []
  unfolding used
  used-head_node i zero = refl
  used-head_node i (suc rounds) = ground (arith, addr-head_node i, used-head_node (i + 1) rounds)

module _ {size : ℕ} {f : ℕ → Block} {h : ℕ} {ps : List ℕ} (l : IsFreeList size f h ps) (b : ℕ)
    (positive : 0 < b) (valid : b ≤ size) (fresh : count b (free_blocks f ps) ≡ 0) where
  -- The block goes into the empty entry `i` of the node `q`.
  pub filled_Given :
      (q i : ℕ)
      → size < 4294967296
      → 0 < count q ps
      → i < addr_per_node
      → addr (f q) i ≡ invalid_data
      → Given size f ps b (upd f q (set_addr (f q) i b)) h ps
  filled_Given q i small node inside empty =
      let once : count q (free_blocks f ps) ≤ 1 = ground (arith, l.once q) in
      let given : (a : ℕ)
          → count a (free_blocks (upd f q (set_addr (f q) i b)) ps)
            ≡ count a (free_blocks f ps) + (if b == a then 1 else 0) =
        λ a.
          count-free_blocks-filled f q i b (omega arith) (omega arith) inside empty ps a once
            node in
      record {
        free_list = record {
          chain = IsChain-filled f q i b (omega arith) (omega arith) inside empty h ps l.chain;
          once = λ a. ground (arith, given a, l.once a, fresh);
        };
        given = given;
        others = λ p out ne. ground (arith, count-nodes f ps p);
      }

  -- The block becomes the head.
  pub head_Given : h < 4294967296 → Given size f ps b (upd f b (head_node h)) b (b ∷ ps)
  head_Given small =
      let here : upd f b (head_node h) b ≡ head_node h = ground arith in
      let given : (a : ℕ)
          → count a (free_blocks (upd f b (head_node h)) (b ∷ ps))
            ≡ count a (free_blocks f ps) + (if b == a then 1 else 0) =
        λ a.
          rw
            (
              count-free_blocks (upd f b (head_node h)) b ps a,
              here,
              used-head_node h 0 addr_per_node,
              free_blocks-upd f b (head_node h) ps fresh,
            )
            (omega arith) in
      record {
        free_list = record {
          chain = (
            refl,
            omega arith,
            rw (here, u32_at-set_u32_self zero_block 0 h small)
                (IsChain-upd f b (head_node h) h ps fresh l.chain),
          );
          once = λ a. ground (arith, given a, l.once a, fresh);
        };
        given = given;
        others = λ p out ne. ground arith;
      }

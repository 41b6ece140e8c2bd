-- ===== src/Layer1/Mkfs/Nodes.antt =====
-- The nodes that init_freelist writes: node `i` is the block 1024 * i + 1 and holds the 1023 numbers
-- behind it, as far as there are data blocks.
use filesystem.Bytes.{Block, zero_block, u32_at}
use filesystem.Bytes.Words.{u32_at-set_u32_self, u32_at-set_u32_ne}
use filesystem.Layer1.FreeList.{addr_per_node, invalid_data, next_of, addr, set_addr}
use filesystem.Layer1.FreeList.Chain.{IsChain, free_blocks, count-free_blocks}
use filesystem.Layer1.FreeList.Entries.{
  used, addr-set_addr_self, addr-set_addr_ne, next_of-set_addr, used_step,
}
use filesystem.Layer1.Mkfs.{fill_node, blocks_per_node, node_of}
use filesystem.Prelude.{
  leb, if◌then◌else◌, lt_or_le, eq_or_ne, count, ℕ, zero, suc, ◌+◌, ◌*◌, ◌≤◌, ◌<◌, ◌≡◌, refl, ap,
  ◌∙◌, inl, inr, ◌&&◌, List, [], ◌∷◌, arith,
}

next_of-set_addr_fill :
    (num loc : ℕ) (cur : Block) (j rounds : ℕ)
    → next_of (fill_node num loc cur j rounds) ≡ next_of cur
unfolding fill_node
next_of-set_addr_fill num loc cur j zero = refl
next_of-set_addr_fill num loc cur j (suc rounds) = ground (
  arith,
  next_of-set_addr cur j (loc + j + 1),
  next_of-set_addr_fill num loc (set_addr cur j (loc + j + 1)) (j + 1) rounds,
)

fill_node-below :
    (num loc : ℕ) (cur : Block) (j rounds k : ℕ)
    → k < j
    → addr (fill_node num loc cur j rounds) k ≡ addr cur k
unfolding fill_node
fill_node-below num loc cur j zero k h = refl
fill_node-below num loc cur j (suc rounds) k h = ground (
  arith,
  addr-set_addr_ne cur j k (loc + j + 1),
  fill_node-below num loc (set_addr cur j (loc + j + 1)) (j + 1) rounds k,
)

-- What an entry of a node should be.
abbrev pub entry_of : (num loc k : ℕ) → ℕ
entry_of num loc k = if leb (loc + k + 1) num then loc + k + 1 else invalid_data

addr-fill_node :
    (num loc : ℕ) (cur : Block) (j rounds k : ℕ)
    → num < 2147483648
    → ((i : ℕ) → j ≤ i → addr cur i ≡ invalid_data)
    → j ≤ k
    → k < j + rounds
    → addr (fill_node num loc cur j rounds) k ≡ entry_of num loc k
unfolding fill_node
addr-fill_node num loc cur j zero k w z h h' = absurd (omega arith)
addr-fill_node num loc cur j (suc rounds) k w z h h' =
    let cur' : Block = set_addr cur j (loc + j + 1) in
    elim (lt_or_le num (loc + j)) [
      | inl far ↦ ground (arith, z k)
      | inr near ↦ elim (eq_or_ne num (loc + j)) [
        | inl far ↦ ground (arith, z k)
        | inr room ↦ elim (eq_or_ne j k) [
          | inl same ↦ ground (
            arith,
            fill_node-below num loc cur' (j + 1) rounds k,
            addr-set_addr_self cur j (loc + j + 1),
          )
          | inr ne ↦ ground (
            arith,
            addr-fill_node num loc cur' (j + 1) rounds k w
                (λ i l. addr-set_addr_ne cur j i (loc + j + 1) (omega arith) ∙ z i (omega arith))
                (omega arith) (omega arith),
          )
        ]
      ]
    ]

count-used :
    (num loc : ℕ) (b : Block) (i rounds a : ℕ)
    → ((k : ℕ) → i ≤ k → k < i + rounds → addr b k ≡ entry_of num loc k)
    → count a (used b i rounds)
      ≡ (if leb (loc + i + 1) a && leb a (loc + i + rounds) && leb a num then 1 else 0)
unfolding used
count-used num loc b i zero a h = ground arith
count-used num loc b i (suc rounds) a h =
    let rest = count-used num loc b (i + 1) rounds a (λ k l l'. h k (omega arith) (omega arith)) in
    rw (used_step b a i rounds, h i (omega arith) (omega arith), rest) (ground arith)

empty_block : (o : ℕ) → u32_at zero_block o ≡ 0
unfolding u32_at
empty_block o = refl

module _ (num : ℕ) (fits : num < 2147483648) where
  addr-node_of :
      (i k : ℕ)
      → k < addr_per_node
      → addr (node_of num i) k ≡ entry_of num (i * blocks_per_node + 1) k
  unfolding node_of
  addr-node_of i k h =
      let loc : ℕ = i * blocks_per_node + 1 in
      let full : Block = fill_node num loc zero_block 0 addr_per_node in
      ground (
        arith,
        u32_at-set_u32_ne full 0 (loc + 1024) (4 + 4 * k),
        addr-fill_node num loc zero_block 0 addr_per_node k fits (λ i l. empty_block (4 + 4 * i))
            (omega arith) (omega arith),
      )

  next_of-node_of :
      (i : ℕ)
      → next_of (node_of num i) ≡ (
          if leb ((i + 1) * blocks_per_node + 1) num
          then (i + 1) * blocks_per_node + 1
          else invalid_data)
  unfolding node_of
  next_of-node_of i =
      let loc : ℕ = i * blocks_per_node + 1 in
      let full : Block = fill_node num loc zero_block 0 addr_per_node in
      ground (
        arith,
        u32_at-set_u32_self full 0 ((i + 1) * blocks_per_node + 1),
        next_of-set_addr_fill num loc zero_block 0 addr_per_node,
        empty_block 0,
      )

  -- The nodes from round `i` on, over contents that hold them.
  abbrev pub nodes : (i rounds : ℕ) → List ℕ
  nodes i zero = []
  nodes i (suc rounds) = (i * blocks_per_node + 1) ∷ nodes (i + 1) rounds

  module _ (f : ℕ → Block) where
    abbrev pub Written : (i rounds : ℕ) → Type 0
    Written i rounds =
        (k : ℕ) → i ≤ k → k < i + rounds → f (k * blocks_per_node + 1) ≡ node_of num k

    pub nodes-IsChain :
        (i rounds : ℕ)
        → Written i rounds
        → num ≤ (i + rounds) * blocks_per_node
        → (i + rounds) * blocks_per_node < num + blocks_per_node
        → IsChain f
            (if leb (i * blocks_per_node + 1) num then i * blocks_per_node + 1 else invalid_data)
            (nodes i rounds)
    nodes-IsChain i zero w a b = ground arith
    nodes-IsChain i (suc rounds) w a b =
        rw (w i (omega arith) (omega arith), next_of-node_of i)
          (
            ground arith,
            ground arith,
            nodes-IsChain (i + 1) rounds (λ k l l'. w k (omega arith) (omega arith)) (omega arith)
                (omega arith),
          )

    pub count-first_nodes :
        (i rounds a : ℕ)
        → Written i rounds
        → num ≤ (i + rounds) * blocks_per_node
        → (i + rounds) * blocks_per_node < num + blocks_per_node
        → count a (free_blocks f (nodes i rounds))
          ≡ (if leb (i * blocks_per_node + 1) a && leb a num then 1 else 0)
    count-first_nodes i zero a w h b = ground arith
    count-first_nodes i (suc rounds) a w h b =
        let node : Block = f (i * blocks_per_node + 1) in
        rw
          (
            count-free_blocks f (i * blocks_per_node + 1) (nodes (i + 1) rounds) a,
            count-first_nodes (i + 1) rounds a (λ k l l'. w k (omega arith) (omega arith))
                (omega arith) (omega arith),
            count-used num (i * blocks_per_node + 1) node 0 addr_per_node a (λ k l l'.
                ap (λ (b : Block). addr b k) (w i (omega arith) (omega arith))
                ∙ (addr-node_of i k (omega arith))),
          )
          (ground arith)

-- ===== src/Layer1/FreeList/Chain.antt =====
-- The free list as a whole: a chain of nodes, and the numbers of the blocks that it holds.
use filesystem.Bytes.{Block}
use filesystem.Layer1.Data.View.{upd}
use filesystem.Layer1.FreeList.{invalid_data, next_of}
use filesystem.Layer1.FreeList.Entries.{entries}
use filesystem.Prelude.{
  leb, ◌==◌, if◌then◌else◌, count, count-append, ℕ, ◌+◌, ◌≤◌, ◌≡◌, refl, ◌≢◌, false, ◌&&◌, List, [],
  ◌∷◌, ◌++◌, arith,
}

-- From the number `h` the nodes `ps` follow one another, and the chain ends.
abbrev pub IsChain : (ℕ → Block) → ℕ → List ℕ → Type 0
IsChain f h [] = h ≡ invalid_data
IsChain f h (p ∷ ps) = (h ≡ p) × (p ≢ invalid_data) × IsChain f (next_of (f p)) ps

-- The free blocks: the nodes and their entries.
abbrev pub free_blocks : (ℕ → Block) → List ℕ → List ℕ
free_blocks f [] = []
free_blocks f (p ∷ ps) = p ∷ (entries (f p) ++ free_blocks f ps)

-- 1 for the number of a data block, 0 for any other.
abbrev pub valid_once : (size a : ℕ) → ℕ
valid_once size a = if leb 1 a && leb a size then 1 else 0

-- Every free block is a data block of the disk, and none is free twice.
pub record IsFreeList (size : ℕ) (f : ℕ → Block) (h : ℕ) (ps : List ℕ) : Type 0 where
  pub chain : IsChain f h ps
  pub once : (a : ℕ) → count a (free_blocks f ps) ≤ valid_once size a

pub count-free_blocks :
    (f : ℕ → Block) (p : ℕ) (ps : List ℕ) (a : ℕ)
    → count a (free_blocks f (p ∷ ps))
      ≡ (if p == a then 1 else 0) + count a (entries (f p)) + count a (free_blocks f ps)
count-free_blocks f p ps a = omega (arith, count-append a (entries (f p)) (free_blocks f ps))

module _ (f : ℕ → Block) (w : ℕ) (b : Block) where
  -- A block that is no node can be written.
  pub IsChain-upd :
      (h : ℕ) (ps : List ℕ)
      → count w (free_blocks f ps) ≡ 0
      → IsChain f h ps
      → IsChain (upd f w b) h ps
  IsChain-upd h [] out c = c
  IsChain-upd h (p ∷ ps) out c =
      let apart : (w == p) ≡ false = ground (arith, count-free_blocks f p ps w) in
      (
        c.0,
        c.1,
        rw apart (IsChain-upd (next_of (f p)) ps (omega (arith, count-free_blocks f p ps w)) c.2),
      )

  pub free_blocks-upd :
      (ps : List ℕ) → count w (free_blocks f ps) ≡ 0 → free_blocks (upd f w b) ps ≡ free_blocks f ps
  free_blocks-upd [] out = refl
  free_blocks-upd (p ∷ ps) out =
      let apart : (w == p) ≡ false = ground (arith, count-free_blocks f p ps w) in
      rw (apart, free_blocks-upd ps (omega (arith, count-free_blocks f p ps w)))

pub head-le : {size : ℕ} {f : ℕ → Block} {h : ℕ} (ps : List ℕ) → IsFreeList size f h ps → h ≤ size
head-le [] l = ground (arith, l.chain)
head-le {f} (p ∷ ps) l = ground (arith, l.chain, l.once p, count-free_blocks f p ps p)

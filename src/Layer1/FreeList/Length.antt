-- ===== src/Layer1/FreeList/Length.antt =====
-- A list of distinct data block numbers is no longer than the disk has data blocks.
use filesystem.Bytes.{Block}
use filesystem.Layer1.FreeList.Chain.{free_blocks, valid_once, count-free_blocks}
use filesystem.Prelude.{length, count, ℕ, zero, suc, ◌+◌, ◌≤◌, ◌≡◌, List, [], ◌∷◌, arith}

-- How many members of a list are numbers from 1 to `n`.
total : ℕ → List ℕ → ℕ
total zero l = 0
total (suc n) l = count (suc n) l + total n l

total-cons : (n x : ℕ) (l : List ℕ) → total n (x ∷ l) ≡ valid_once n x + total n l
unfolding total
total-cons zero x l = ground arith
total-cons (suc n) x l = ground (arith, total-cons n x l)

total-le : (n size : ℕ) (l : List ℕ) → ((a : ℕ) → count a l ≤ valid_once size a) → total n l ≤ n
unfolding total
total-le zero size l once = omega arith
total-le (suc n) size l once = ground (arith, once (suc n), total-le n size l once)

length-total :
    (size : ℕ) (l : List ℕ) → ((a : ℕ) → count a l ≤ valid_once size a) → length l ≤ total size l
length-total size [] once = omega arith
length-total size (x ∷ l) once =
    let rest : (a : ℕ) → count a l ≤ valid_once size a = λ a. ground (arith, once a) in
    ground (arith, once x, total-cons size x l, length-total size l rest)

pub length-le :
    (size : ℕ) (l : List ℕ) → ((a : ℕ) → count a l ≤ valid_once size a) → length l ≤ size
length-le size l once = omega (arith, length-total size l once, total-le size size l once)

-- The nodes are among the free blocks.
pub count-nodes : (f : ℕ → Block) (ps : List ℕ) (a : ℕ) → count a ps ≤ count a (free_blocks f ps)
count-nodes f [] a = omega arith
count-nodes f (p ∷ ps) a = omega (arith, count-free_blocks f p ps a, count-nodes f ps a)

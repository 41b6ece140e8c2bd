-- ===== src/Layer2/Reads.antt =====
-- The calls of layer2.c that only read end, and leave the globals as they are.
pub mod Search
pub mod Paths
use mathlib.Core.Path.{subst}
use filesystem.Bytes.{Block, zero_block}
use filesystem.Layer0.{Superblock, Disk, Vol, Op, block_index, read_block}
use filesystem.Layer0.Blocks.{read_block-fail, read_block-at}
use filesystem.Layer1.Data.{data_read}
use filesystem.Layer1.Inode.{Inode, one_based, inode_block, inode_read}
use filesystem.Layer1.Keeps.{
  NoLoop, Ends, well, badly, never, Keeping, keep_pure, keep_throw, keep_if, keep_bool,
  keep_attempt, keep_bind, keep_option, keep_result,
}
use filesystem.Layer1.Keeps.Data.{keep_filled}
use filesystem.Layer1.Ready.{Ready, read_superblock-done}
use filesystem.Layer1.Super.{read_superblock}
use filesystem.Layer2.BlockMap.{
  addresses_per_block, int_pow, locate, get_root, address, descend, get_nth_datablock,
}
use filesystem.Layer2.File.{read_blocks, read_i}
use filesystem.Prelude.{
  ltb, leb, ◌==◌, Option-cases, ℕ, zero, suc, ◌-◌, ◌/◌, min, ◌≡◌, refl, sym, ap, inl, inr, Bool,
  true, false, ◌&&◌,
}
use filesystem.Prelude.Int.{ℤ, pos, negsuc}
use filesystem.Prelude.Run.{Error, invalid_block, bad_inode, Run, done, fail, ◌>>=◌}

module _ {v : Vol} {sb : Superblock} {d : Disk} {n : ℕ} (r : Ready v sb d n) where
  -- A call that ends when it is made now, and changes nothing.
  abbrev pub Reads : {A : Type 0} → Op A → Type 0
  Reads m = Keeping NoLoop (λ s. s ≡ v) m

  pub now_Reads : {A : Type 0} {m : Op A} → Ends NoLoop (λ s. s ≡ v) (m v) → Reads m
  now_Reads {m} h = record { keep = λ s e. subst (λ s. Ends NoLoop (λ t. t ≡ v) (m s)) (sym e) h }

  -- How such a call ends: with a result or an error, and in the same state.
  pub data Answers {A : Type 0} (run : Run Vol A) : Type 0 where
    answer : (a : A) → run ≡ done a v → Answers run
    refusal : (e : Error) → run ≡ fail e v → Answers run

  Answers-Ends : {A : Type 0} {run : Run Vol A} → Ends NoLoop (λ s. s ≡ v) run → Answers run
  Answers-Ends (well {a} h) = answer a (ap (λ (s : Vol). done a s) h)
  Answers-Ends (badly {e} h) = refusal e (ap (λ (s : Vol). fail e s) h)
  Answers-Ends (never h) = absurd h

  pub Reads-Answers : {A : Type 0} {m : Op A} → Reads m → Answers (m v)
  Reads-Answers k = Answers-Ends (k.keep v refl)

  superblock_Reads :
      {A : Type 0} {k : Superblock → Op A}
      → ((s : Superblock) → Reads (k s))
      → Reads (read_superblock >>= k)
  superblock_Reads kk = now_Reads (rw (read_superblock-done r) ((kk sb).keep v refl))

  read_block-Reads : (b : ℤ) → Reads (read_block b)
  read_block-Reads b = now_Reads (elim (Option-cases (block_index b n)) [
    | inl e ↦ rw (read_block-fail r.opens b e) (badly refl)
    | inr (k, e) ↦ rw (read_block-at r.opens b {k = k} e) (well refl)
  ])

  data_read-Reads : (p : ℤ) → Reads (data_read p)
  unfolding data_read
  data_read-Reads (negsuc k) = superblock_Reads λ s. keep_throw invalid_block
  data_read-Reads (pos k) = superblock_Reads λ s.
      (keep_if (ltb s.data_size k) (keep_throw invalid_block)
        (keep_if (k == 0) (keep_pure zero_block) (read_block-Reads _)))

  pub inode_read-Reads : (i : ℤ) → Reads (inode_read i)
  unfolding inode_read
  inode_read-Reads i = superblock_Reads λ s.
      (keep_option (one_based i s.num_inodes) (keep_throw bad_inode)
        λ k. keep_bind (keep_filled (read_block-Reads (inode_block s k))) λ b. keep_pure _)

  module _ {A : Type 0} where
    keep_not_created :
        (b : Bool) (m : Op A) {k : Op A}
        → Reads k
        → Reads (elim (b && false) [ true ↦ m | false ↦ k ])
    keep_not_created true m kk = kk
    keep_not_created false m kk = kk

  descend-Reads :
      (inod : Inode) (created : Bool) (levels next offset : ℕ)
      → Reads (descend false inod created levels next offset)
  unfolding descend
  descend-Reads inod created zero next offset = keep_pure _
  descend-Reads inod created (suc i) next offset = keep_bool (next == 0 && true) (keep_pure _) (
      keep_bind (keep_attempt (data_read-Reads _)) λ r.
        keep_result r (λ e. keep_pure _)
          λ b.
            keep_not_created (address b (offset / int_pow addresses_per_block i) == 0) _
              (descend-Reads inod created i _ _))

  get_nth_datablock-Reads : (inod : Inode) (m : ℕ) → Reads (get_nth_datablock inod m false)
  unfolding get_nth_datablock
  get_nth_datablock-Reads inod m = keep_option (locate m) (keep_pure _) λ l.
      keep_not_created (get_root l.0 inod == 0) _
        (descend-Reads inod false l.1 (get_root l.0 inod) l.2)

  read_blocks-Reads :
      (inod : Inode) (end_block end_size rounds i start bytes : ℕ) (buf : Block)
      → Reads (read_blocks inod end_block end_size rounds i start bytes buf)
  unfolding read_blocks
  read_blocks-Reads inod eb es zero i start bytes buf = keep_pure _
  read_blocks-Reads inod eb es (suc rounds) i start bytes buf =
      keep_bind (get_nth_datablock-Reads inod i)
        λ nth. keep_bind (data_read-Reads _) λ b. read_blocks-Reads inod eb es rounds _ _ _ _

  -- read_i ends and changes nothing, whatever the inode, the offset and the size.
  pub read_i-Reads :
      (inum : ℕ) (buf : Block) (offset size : ℕ) → Reads (read_i inum buf offset size)
  unfolding read_i
  read_i-Reads inum buf offset size = keep_bind (inode_read-Reads (pos inum)) λ node.
      keep_if (leb node.size offset) (keep_pure _) (
        keep_if (min (node.size - offset) size == 0) (keep_pure _)
          (read_blocks-Reads node _ _ _ _ _ _ buf))

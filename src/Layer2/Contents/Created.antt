-- ===== src/Layer2/Contents/Created.antt =====
-- Where get_nth_datablock says that it created the block, the file had none at that block number.
use filesystem.Bytes.{Block}
use filesystem.Layer0.{Superblock, Disk, Vol, Op}
use filesystem.Layer1.Data.View.{view, data_read-done}
use filesystem.Layer1.Inode.{Inode}
use filesystem.Layer1.Ready.{Ready}
use filesystem.Layer2.BlockMap.{
  addresses_per_block, int_pow, Root, get_root, address, Nth, descend, get_nth_datablock,
}
use filesystem.Layer2.BlockMap.Locate.{indices, AllBelow}
use filesystem.Layer2.Contents.{lookup, levels_of, block_of, IsTree}
use filesystem.Layer2.Contents.Extend.{At, block_of-At}
use filesystem.Layer2.Contents.Nth.{lookup-zero}
use filesystem.Layer2.Contents.Roots.{root_of}
use filesystem.Prelude.{
  ◌==◌, ℕ, zero, suc, ◌/◌, ◌%◌, ◌≡◌, refl, ap, ◌∙◌, Bool, true, false, ◌&&◌, arith,
}
use filesystem.Prelude.Run.{Run, done, fail, diverge}

module _ {S A : Type 0} where
  -- If the run ends well, the result and the state have the property.
  abbrev pub OnDone : (A → S → Type 0) → Run S A → Type 0
  OnDone P (done a s) = P a s
  OnDone P (fail e s) = Unit {0}
  OnDone P diverge = Unit {0}

  always : {P : A → S → Type 0} (run : Run S A) → ((a : A) (s : S) → P a s) → OnDone P run
  always (done a s) h = h a s
  always (fail e s) h = tt
  always diverge h = tt

module _ {A : Type 0} (P : A → Vol → Type 0) (v : Vol) where
  past_stop :
      (b : Bool) (m k : Op A)
      → OnDone P (k v)
      → OnDone P ((elim (b && false) as (λ _. Op A) [ true ↦ m | false ↦ k ]) v)
  past_stop true m k h = h
  past_stop false m k h = h

  at_empty :
      (b : Bool) (m k : Op A)
      → (b ≡ false → OnDone P (k v))
      → (b ≡ true → OnDone P (m v))
      → OnDone P ((elim (b && true) as (λ _. Op A) [ false ↦ k | true ↦ m ]) v)
  at_empty true m k hk hm = hm refl
  at_empty false m k hk hm = hk refl

module _ {v : Vol} {sb : Superblock} {d : Disk} {n : ℕ} (r : Ready v sb d n) where
  descend-created :
      (m : Inode) (levels p offset : ℕ)
      → IsTree (view sb d) sb.data_size levels p
      → AllBelow addresses_per_block (indices levels offset)
      → OnDone
          (λ q _. q.created ≡ true → lookup (view sb d) levels p offset ≡ 0)
          (descend true m false levels p offset v)
  unfolding descend indices
  descend-created m zero p offset h b = λ c. cc
  descend-created m (suc i) p offset h b =
      let f : ℕ → Block = view sb d in
      let index : ℕ = offset / int_pow addresses_per_block i in
      let rest : ℕ = offset % int_pow addresses_per_block i in
      let goal = λ (q : Nth) (w : Vol). q.created ≡ true → lookup f (suc i) p offset ≡ 0 in
      past_stop goal v (p == 0) _ _ (
        rw (data_read-done r p h.0) (
          at_empty goal v (address (f p) index == 0) _ _
            (λ e. descend-created m i (address (f p) index) rest (h.1 index b.0) b.1)
            (λ e. always {P = goal} _ λ q w c.
              ap (λ (x : ℕ). lookup f i x rest) (ground (arith, e)) ∙ lookup-zero f i rest refl)))

  -- get_nth_datablock
  pub get_nth_datablock-created :
      (m : Inode) (k : ℕ) (at : At k)
      → IsTree (view sb d) sb.data_size (levels_of (root_of at.code)) (get_root (root_of at.code) m)
      → OnDone
          (λ q _. q.created ≡ true → block_of (view sb d) m k ≡ 0)
          (get_nth_datablock m k true v)
  unfolding get_nth_datablock
  get_nth_datablock-created m k at h =
      let f : ℕ → Block = view sb d in
      let root : Root = root_of at.code in
      let goal = λ (q : Nth) (w : Vol).
        q.created ≡ true → lookup f (levels_of root) (get_root root m) at.offset ≡ 0 in
      rw (get_nth_datablock, block_of-At f m at, at.located)
        (at_empty goal v (get_root root m == 0) _ _
          (λ e. descend-created m (levels_of root) (get_root root m) at.offset h at.within_blocks)
          (λ e. always {P = goal} _ λ q w c.
            ap (λ (x : ℕ). lookup f (levels_of root) x at.offset) (ground (arith, e))
            ∙ lookup-zero f (levels_of root) at.offset refl))

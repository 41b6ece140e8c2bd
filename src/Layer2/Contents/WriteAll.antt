-- ===== src/Layer2/Contents/WriteAll.antt =====
-- The whole loop of write_i.
use mathlib.Core.Path.{subst}
use filesystem.Bytes.{Block, block_size, zero_block, copy, all_zero}
use filesystem.Layer0.{Superblock, Disk, Vol}
use filesystem.Layer1.Data.View.{view}
use filesystem.Layer1.Inode.{Inode}
use filesystem.Layer1.Inode.Store.{stored, stored_disk, inode_write-done}
use filesystem.Layer1.Keeps.{SameLayout, MayLoop, Ends, well}
use filesystem.Layer1.Keeps.Calls.{SameLayout-refl}
use filesystem.Layer1.Keeps.Tables.{TablesKept, TablesKept-DataCalls}
use filesystem.Layer1.Ready.{Ready, with_disk}
use filesystem.Layer2.BlockMap.{triple_limit}
use filesystem.Layer2.Contents.{block_of}
use filesystem.Layer2.Contents.FullRound.{
  FullRoundEnds, put_in, taken_back, RoundEnds-FullRoundEnds, write_round-FullRoundEnds,
}
use filesystem.Layer2.Contents.Inodes.{Ready-same}
use filesystem.Layer2.Contents.PartRound.{part_round-RoundEnds}
use filesystem.Layer2.Contents.WriteEnds.{WriteEnds, no_room}
use filesystem.Layer2.Contents.WriteStep.{IsPut, Writing-round}
use filesystem.Layer2.Contents.Writing.{IsWritable, Writing, Writing-budget, Writing-directs}
use filesystem.Layer2.File.{write_round, grown, write_blocks}
use filesystem.Layer2.Keeps.Blocks.{write_round_keeps}
use filesystem.Prelude.{
  ◌==◌, if◌then◌else◌, Bool-cases, eq_or_ne, ℕ, zero, suc, ◌+◌, ◌-◌, ◌*◌, ◌≤◌, ◌<◌, ◌≡◌, refl, sym,
  ap, ◌∙◌, ◌≢◌, ◌⊎◌, inl, inr, false, ◌&&◌, List, arith,
}
use filesystem.Prelude.Run.{Run, done}

Ends-done : {S A : Type 0} {D : Type 0} {P : S → Type 0} {a : A} {s : S} → Ends D P (done a s) → P s
Ends-done (well h) = h

-- A byte that is not 0.
all_zero-false :
    (b : Block) (from n j : ℕ) → from ≤ j → j < from + n → b j ≢ 0 → all_zero b from n ≡ false
unfolding all_zero
all_zero-false b from zero j h h' ne = absurd (omega arith)
all_zero-false b from (suc n) j h h' ne = elim (eq_or_ne from j) [
  | inl e ↦ ground (arith, ap b e, ne)
  | inr other ↦ ground (arith, all_zero-false b (from + 1) n j)
]

-- A round leaves the tables of the disk.
pub round_kept :
    {v : Vol} {sb : Superblock} {d : Disk} {n : ℕ} (r : Ready v sb d n) (m : Inode) (buf : Block)
    (i start size bytes : ℕ) {m1 : Inode} {v1 : Vol}
    → write_round m buf i start size bytes v ≡ done m1 v1
    → TablesKept sb d n v1
round_kept {v} {sb} {d} {n} r m buf i start size bytes e = Ends-done (
    subst (Ends MayLoop (TablesKept sb d n)) e (
      (write_round_keeps (TablesKept-DataCalls sb d n) m buf i start size bytes).keep v (record {
        now = sb;
        disk_now = d;
        ready = r;
        same = SameLayout-refl sb;
        tables = λ a h h'. refl;
      })))

module _ {v : Vol} {sb : Superblock} {d : Disk} {n : ℕ} {ps : List ℕ} {k : ℕ} {outside : ℕ → ℕ}
    (w : IsWritable v sb d n ps k outside) {buf : Block} {offset bytes : ℕ} {t m : Inode} {v' : Vol}
    (s : Writing sb d n ps k outside buf offset bytes t m v') where
  abbrev pub old_block : ℕ → Block
  old_block i = view s.sb' s.d' (block_of (view s.sb' s.d') m i)

  -- A round puts its bytes into the block, if they do not make it all zeros.
  pub record RoundPuts (i start len : ℕ) (run : Run Vol Inode) : Type 0 where
    pub blk : Block
    pub is_put : IsPut blk (old_block i) buf start len bytes
    pub ends : FullRoundEnds n s.sb' s.d' s.ps' m i outside blk v' run

  pub write_round-RoundPuts :
      (i start size j : ℕ)
      → i < triple_limit
      → size ≤ block_size
      → buf start ≢ 0
      → start ≤ j
      → j < size
      → ((size == block_size && start == 0) ≡ false → buf (bytes + (j - start)) ≢ 0)
      → RoundPuts i start (size - start) (write_round m buf i start size bytes v')
  unfolding copy
  write_round-RoundPuts i start size j below fits tested h h' nonzero =
      let directs = Writing-directs w s in
      let budget = Writing-budget w s in
      let full_round = RoundEnds-FullRoundEnds s.ready m outside s.free_list directs budget i buf in
      let not_zeros : all_zero buf start (size - start) ≡ false =
        all_zero-false buf start (size - start) start (omega arith) (omega arith) tested in
      elim (Bool-cases (size == block_size && start == 0)) [
        | inl e ↦
            let whole : size ≡ block_size = ground (arith, e) in
            let from_start : start ≡ 0 = ground (arith, e) in
            rw (whole, from_start)
              (record {
                blk = copy zero_block 0 buf bytes block_size;
                is_put = λ o l. ground (arith, l);
                ends =
                    write_round-FullRoundEnds s.ready m outside s.free_list directs budget i buf
                      bytes below
                      (all_zero-false buf 0 block_size 0 (omega arith) (omega arith)
                        (subst (λ (x : ℕ). buf x ≢ 0) from_start tested));
              })
        | inr e ↦ record {
          blk = copy (old_block i) start buf bytes (size - start);
          is_put = λ o l. ground (arith, l);
          ends =
              full_round (copy (old_block i) start buf bytes (size - start)) start size bytes below
                not_zeros
                (part_round-RoundEnds s.ready m outside s.free_list directs budget i buf start size
                  bytes below e
                  (all_zero-false (copy (old_block i) start buf bytes (size - start)) 0 block_size j
                    (omega arith) (omega arith) (ground (arith, nonzero e))));
        }
      ]

  round_tables :
      (i start size : ℕ) {m1 : Inode} {v1 : Vol}
      → write_round m buf i start size bytes v' ≡ done m1 v1
      → TablesKept s.sb' s.d' n v1
  round_tables i start size e = round_kept s.ready m buf i start size bytes e

  -- A round of the loop, and the rounds behind it.
  pub write_blocks-round :
      (size eb es rounds i start len : ℕ)
      → eb * block_size + es ≡ offset + size
      → bytes < size
      → (if i == eb then es else block_size) ≡ start + len
      → i * block_size + start ≡ offset + bytes
      → start + len ≤ block_size
      → start < block_size
      → (bytes ≡ 0) ⊎ (start ≡ 0)
      → grown (stored sb d k).size offset (bytes + len) t
        ≡ grown (stored sb d k).size offset (bytes + len) (stored sb d k)
      → RoundPuts i start len (write_round m buf i start (start + len) bytes v')
      → ((m' : Inode) (v2 : Vol)
          → Writing sb d n ps k outside buf offset
              (bytes + len)
              (grown (stored sb d k).size offset (bytes + len) (stored sb d k))
              m'
              v2
          → WriteEnds sb d n ps k outside buf offset size (
              write_blocks
                (suc k)
                (stored sb d k).size
                offset
                eb
                es
                buf
                rounds
                m'
                (i + 1)
                0
                (bytes + len)
                v2))
      → WriteEnds sb d n ps k outside buf offset size (
          write_blocks
            (suc k)
            (stored sb d k).size
            offset
            eb
            es
            buf
            (suc rounds)
            m
            i
            start
            bytes
            v')
  unfolding write_blocks
  write_blocks-round size eb es rounds i start len ends_at more e at fits inside first basis puts
        next =
      let shorter : start + len - start ≡ len = omega arith in
      elim puts.ends [
        | taken_back q v1 m2 v2 stopped full run g ↦ no_room (record {
          bytes = bytes;
          but_pointers = t;
          inode = m;
          before = v';
          not_all = more;
          state = s;
          block = i;
          block_now = omega (arith, at, inside);
          start = start;
          stands_at = at;
          rounds = rounds;
          last_block = eb;
          last_size = es;
          ends_at = ends_at;
          reached = refl;
          aligned = elim first [
            | inl none_yet ↦ inl none_yet
            | inr begins ↦ inr (omega (arith, at, begins))
          ];
          nth = q;
          after = v1;
          stopped = stopped;
          full = full;
          inode_then = m2;
          at_end = v2;
          failed = rw e (rw shorter (rw run refl));
          given_back = g;
        })
        | put_in m1 v1 run g ↦
            let kept = round_tables i start (start + len) run in
            let same = Ready-same g.ready kept.ready in
            let done_round =
              Writing-round w s g (subst (SameLayout s.sb') same.0 kept.same)
                (λ a h h'. ap (λ (x : Disk). x a) (sym same.1) ∙ kept.tables a h h')
                (stored sb d k).size start len at fits puts.is_put basis in
            let m' : Inode = grown (stored sb d k).size offset (bytes + len) m1 in
            let valid : k < g.sb'.num_inodes = omega (
              arith,
              w.valid,
              s.same_layout,
              kept.same,
              ap (λ (x : Superblock). x.num_inodes) same.0,
            ) in
            rw e (
              rw shorter (
                rw run (
                  rw (inode_write-done g.ready k m' valid)
                    (next m' (with_disk v1 (stored_disk g.sb' g.d' k m')) done_round))))
      ]

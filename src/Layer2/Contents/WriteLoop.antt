-- ===== src/Layer2/Contents/WriteLoop.antt =====
-- write_i writes all bytes, over the rounds of its loop.
use mathlib.Core.Path.{subst}
use filesystem.Bytes.{Block, block_size}
use filesystem.Layer0.{Superblock, Disk, Vol}
use filesystem.Layer1.Inode.{Inode}
use filesystem.Layer1.Inode.Store.{stored, inode_read-done}
use filesystem.Layer2.BlockMap.{triple_limit}
use filesystem.Layer2.Contents.Inodes.{grown-grown}
use filesystem.Layer2.Contents.WriteAll.{RoundPuts, write_round-RoundPuts, write_blocks-round}
use filesystem.Layer2.Contents.WriteEnds.{WriteEnds, all_written}
use filesystem.Layer2.Contents.Writing.{IsWritable, Writing, Writing-start}
use filesystem.Layer2.File.{write_round, grown, write_blocks, write_i}
use filesystem.Layer2.OpenFiles.Table.{above}
use filesystem.Prelude.{
  ◌==◌, if◌then◌else◌, ℕ, zero, suc, ◌+◌, ◌-◌, ◌*◌, ◌/◌, ◌%◌, ◌≤◌, ◌<◌, ◌≡◌, refl, sym, ap, ◌≢◌,
  ◌⊎◌, inl, inr, false, ◌&&◌, List, arith,
}
use filesystem.Prelude.Run.{done}

-- Where the loop stands: `bytes` of `size` bytes are written, the next go to `start` of the block `i`;
-- the last block is `eb`, up to `es`.
record Place (offset size eb es i start bytes : ℕ) : Type 0 where
  ends_at : eb * block_size + es ≡ offset + size
  end_fits : es ≤ block_size
  end_nonempty : 0 < es
  within : eb < triple_limit
  not_past : i ≤ eb
  stands_at : i * block_size + start ≡ offset + bytes
  start_fits : start < block_size
  only_first : (bytes ≡ 0) ⊎ (start ≡ 0)
  more : bytes < size

module _ {offset size eb es i start bytes : ℕ} (p : Place offset size eb es i start bytes) where
  -- The end of the part of the block.
  abbrev stop : ℕ
  stop = if i == eb then es else block_size

  start-lt-stop : start < stop
  start-lt-stop = ground (arith, p.ends_at, p.stands_at, p.more, p.start_fits)

  stop-split : stop ≡ start + (stop - start)
  stop-split = omega (arith, start-lt-stop)

  stop-le : stop ≤ block_size
  stop-le = ground (arith, p.end_fits)

  -- A byte of the part that is not 0, if the first and the last of the buffer are not.
  nonzero_at :
      (buf : Block)
      → buf 0 ≢ 0
      → buf (size - 1) ≢ 0
      → (j : ℕ) × (start ≤ j)
        × (j < stop)
        × ((stop == block_size && start == 0) ≡ false → buf (bytes + (j - start)) ≢ 0)
  nonzero_at buf first last = elim p.only_first [
    | inl first_round ↦ (
      start,
      omega arith,
      start-lt-stop,
      λ _. subst (λ (x : ℕ). buf x ≢ 0) (omega (arith, first_round)) first,
    )
    | inr aligned ↦ (
      stop - 1,
      omega (arith, start-lt-stop),
      omega (arith, start-lt-stop),
      λ e.
          subst (λ (x : ℕ). buf x ≢ 0) (ground (arith, e, aligned, p.ends_at, p.stands_at, p.more))
            last,
    )
  ]

  last_round : i ≡ eb → bytes + (stop - start) ≡ size
  last_round e = ground (arith, e, p.ends_at, p.stands_at, p.more)

  Place-next : i < eb → Place offset size eb es (i + 1) 0 (bytes + (stop - start))
  Place-next h = record {
    ends_at = p.ends_at;
    end_fits = p.end_fits;
    end_nonempty = p.end_nonempty;
    within = p.within;
    not_past = omega arith;
    stands_at = ground (arith, p.stands_at, p.start_fits);
    start_fits = omega arith;
    only_first = inr refl;
    more = ground (arith, p.ends_at, p.stands_at, p.start_fits, p.end_nonempty);
  }

  -- The byte at which a round begins its test for zeros.
  tested_at : (buf : Block) → buf 0 ≢ 0 → buf (offset % block_size) ≢ 0 → buf start ≢ 0
  tested_at buf first tested = elim p.only_first [
    | inl first_round ↦
        subst (λ (x : ℕ). buf x ≢ 0) (omega (arith, first_round, p.stands_at, p.start_fits)) tested
    | inr aligned ↦ subst (λ (x : ℕ). buf x ≢ 0) (sym aligned) first
  ]

module _ {v : Vol} {sb : Superblock} {d : Disk} {n : ℕ} {ps : List ℕ} {k : ℕ} {outside : ℕ → ℕ}
    (w : IsWritable v sb d n ps k outside) {buf : Block} {offset size : ℕ} (first : buf 0 ≢ 0)
    (tested : buf (offset % block_size) ≢ 0) (last : buf (size - 1) ≢ 0) where
  round_puts :
      {bytes : ℕ} {t m : Inode} {v' : Vol} (s : Writing sb d n ps k outside buf offset bytes t m v')
      {eb es i start : ℕ} (p : Place offset size eb es i start bytes)
      → RoundPuts w s i start
          (stop p - start)
          (write_round m buf i start (start + (stop p - start)) bytes v')
  round_puts {bytes} {m} {v'} s {i} {start} p =
      let (j, above, below, nonzero) = nonzero_at p buf first last in
      subst
        (λ (x : ℕ). RoundPuts w s i start (stop p - start) (write_round m buf i start x bytes v'))
        (stop-split p)
        (write_round-RoundPuts w s i start (stop p) j (omega (arith, p.within, p.not_past))
          (stop-le p) (tested_at p buf first tested) above below nonzero)

  write_blocks-WriteEnds :
      (rounds : ℕ) {bytes : ℕ} {t m : Inode} {v' : Vol}
      (s : Writing sb d n ps k outside buf offset bytes t m v') {eb es i start : ℕ}
      (p : Place offset size eb es i start bytes)
      → ((b : ℕ)
          → grown (stored sb d k).size offset b t
            ≡ grown (stored sb d k).size offset b (stored sb d k))
      → i + rounds ≡ eb
      → WriteEnds sb d n ps k outside buf offset size (
          write_blocks
            (suc k)
            (stored sb d k).size
            offset
            eb
            es
            buf
            (suc rounds)
            m
            i
            start
            bytes
            v')
  unfolding write_blocks
  write_blocks-WriteEnds zero {bytes} s {eb} {es} {i} {start} p basis e =
      let total : bytes + (stop p - start) ≡ size = last_round p (omega arith) in
      write_blocks-round w s size eb es zero i start (stop p - start) p.ends_at p.more
        (stop-split p) p.stands_at (omega (arith, stop-split p, stop-le p)) p.start_fits
        p.only_first (basis _) (round_puts s p)
        λ m' v2 s'. all_written m' v2 (ap (λ (x : ℕ). done x v2) total) (
          subst
            (λ (x : ℕ).
              Writing sb d n ps k outside buf offset x
                (grown (stored sb d k).size offset x (stored sb d k)) m' v2)
            total s')
  write_blocks-WriteEnds (suc rounds) {bytes} s {eb} {es} {i} {start} p basis e =
      write_blocks-round w s size eb es (suc rounds) i start (stop p - start) p.ends_at p.more
        (stop-split p) p.stands_at (omega (arith, stop-split p, stop-le p)) p.start_fits
        p.only_first (basis _) (round_puts s p)
        λ m' v2 s'.
          write_blocks-WriteEnds rounds s' (Place-next p (omega arith))
            (λ b.
              grown-grown (stored sb d k).size offset (bytes + (stop p - start)) b (stored sb d k))
            (omega arith)

-- The rounds that write_i asks for.
write_i-rounds :
    (offset size : ℕ)
    → 0 < size
    → (if offset + size == 0 then 0 else (offset + size - 1) / block_size + 1 - offset / block_size)
      ≡ suc ((offset + size - 1) / block_size - offset / block_size)
write_i-rounds offset size h = ground arith

pub write_i-WriteEnds :
    {v : Vol} {sb : Superblock} {d : Disk} {n : ℕ} {ps : List ℕ} {k : ℕ} {outside : ℕ → ℕ}
    (w : IsWritable v sb d n ps k outside) (buf : Block) (offset size : ℕ)
    → buf 0 ≢ 0
    → buf (offset % block_size) ≢ 0
    → buf (size - 1) ≢ 0
    → 0 < size
    → offset + size < 2147483648
    → WriteEnds sb d n ps k outside buf offset size (write_i (suc k) buf offset size v)
unfolding write_i
write_i-WriteEnds w buf offset size first tested last some_bytes small =
    let start : ℕ = offset / block_size in
    let end : ℕ = (offset + size - 1) / block_size in
    let place : Place offset size end ((offset + size - 1) % block_size + 1) start
        (offset % block_size) 0 =
      record {
        ends_at = omega arith;
        end_fits = omega arith;
        end_nonempty = omega arith;
        within = omega arith;
        not_past = omega arith;
        stands_at = omega arith;
        start_fits = omega arith;
        only_first = inl refl;
        more = some_bytes;
      } in
    rw (inode_read-done w.ready _ w.valid) (
      rw (write_i-rounds offset size some_bytes) (
        write_blocks-WriteEnds w first tested last (end - start) (Writing-start w buf offset) place
          (λ b. refl) (omega arith)))

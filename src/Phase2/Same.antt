-- ===== src/Phase2/Same.antt =====
-- Layer 0 over the device does what layer 0 in memory does.
use filesystem.Bytes.{Block, block_size}
use filesystem.Layer0.{Disk, Vol, block_index, write_disk, write_block, read_block}
use filesystem.Layer0.Blocks.{
  IsOpen, read_block-fail, write_block-fail, read_block-at, write_block-at,
}
use filesystem.Phase2.{Device, IsDevice, num_blocks, Volume, write_block_fd, read_block_fd}
use filesystem.Prelude.{
  ◌==◌, if◌then◌else◌, Option-cases, ℕ, ◌+◌, ◌*◌, ◌≤◌, ◌<◌, ◌≡◌, refl, sym, ◌∙◌, inl, inr, none,
  some, arith,
}
use filesystem.Prelude.Int.{ℤ}
use filesystem.Prelude.Run.{Error, disc_uninitialized, invalid_block, Run, done, fail}

module _ {Dev : Type 0} (dev : Device Dev) where
  -- A disk in memory of `n` blocks and a device with the same bytes in every one of them, or neither.
  -- The offset of a block of the disk fits an int, as layer0.c computes it.
  pub data SameDisk (n : ℕ) (v : Vol) (w : Volume Dev) : Type 0 where
    closed : v.disk ≡ none → w.layer0_fd ≡ none → SameDisk n v w
    opened_both :
        (d : Disk) (fd : ℕ)
        → IsOpen v d n
        → n * block_size ≤ 2147483648
        → w.layer0_fd ≡ some fd
        → ((k o : ℕ) → k < n → o < block_size → d k o ≡ dev.byte w.device (k * block_size + o))
        → SameDisk n v w

  -- Two calls that end in the same way, in states that agree.
  pub data SameRun (n : ℕ) {A : Type 0} (same : A → A → Type 0)
      : Run Vol A → Run (Volume Dev) A → Type 0 where
    both_done :
        {a b : A} {v : Vol} {w : Volume Dev}
        → same a b
        → SameDisk n v w
        → SameRun n same (done a v) (done b w)
    both_fail :
        {e : Error} {v : Vol} {w : Volume Dev}
        → SameDisk n v w
        → SameRun n same (fail e v) (fail e w)

  -- The bytes of a block agree.
  abbrev pub SameBlock : Block → Block → Type 0
  SameBlock b c = (o : ℕ) → o < block_size → b o ≡ c o

module _ {Dev : Type 0} (dev : Device Dev) (v : Vol) (w : Volume Dev) where
  -- Both are refused in the same way.
  closed_write :
      v.disk ≡ none
      → w.layer0_fd ≡ none
      → (blocknum : ℤ) (b c : Block)
      → (write_block blocknum b v ≡ fail disc_uninitialized v)
        × (write_block_fd dev blocknum c w ≡ fail disc_uninitialized w)
  unfolding write_block write_block_fd
  closed_write e e' blocknum b c = ground arith

  closed_read :
      v.disk ≡ none
      → w.layer0_fd ≡ none
      → (blocknum : ℤ) (buf : Block)
      → (read_block blocknum v ≡ fail disc_uninitialized v)
        × (read_block_fd dev blocknum buf w ≡ fail disc_uninitialized w)
  unfolding read_block read_block_fd
  closed_read e e' blocknum buf = ground arith

module _ {Dev : Type 0} (dev : Device Dev) (w : Volume Dev) {fd : ℕ} (e : w.layer0_fd ≡ some fd)
    (blocknum : ℤ) where
  invalid_fd :
      (buf : Block)
      → block_index blocknum num_blocks ≡ none
      → (write_block_fd dev blocknum buf w ≡ fail invalid_block w)
        × (read_block_fd dev blocknum buf w ≡ fail invalid_block w)
  unfolding write_block_fd read_block_fd
  invalid_fd buf h = ground arith

  valid_fd :
      (buf : Block) (k : ℕ)
      → block_index blocknum num_blocks ≡ some k
      → (write_block_fd dev blocknum buf w
          ≡ done tt (record w {
            device = dev.write buf block_size (dev.lseek (k * block_size) w.device);
          }))
        × (read_block_fd dev blocknum buf w
            ≡ done (dev.read buf block_size (dev.lseek (k * block_size) w.device)).0 (record w {
              device = (dev.read buf block_size (dev.lseek (k * block_size) w.device)).1;
            }))
  unfolding write_block_fd read_block_fd
  valid_fd buf k h = ground arith

module _ {Dev : Type 0} {dev : Device Dev} (laws : IsDevice dev) where
  -- The bytes of a block after a block was written.
  byte_written :
      (k j o : ℕ) (c : Block) (s : Dev)
      → o < block_size
      → dev.byte (dev.write c block_size (dev.lseek (k * block_size) s)) (j * block_size + o)
        ≡ (if j == k then c o else dev.byte s (j * block_size + o))
  byte_written k j o c s h =
      rw
        (
          laws.byte-write c block_size (dev.lseek (k * block_size) s) (j * block_size + o),
          laws.position-lseek (k * block_size) s,
          laws.byte-lseek (k * block_size) s (j * block_size + o),
        )
        (grind arith)

  -- What a read of a block gives, and that it changes no byte.
  byte_at_block :
      (k o : ℕ) (buf : Block) (s : Dev)
      → o < block_size
      → (dev.read buf block_size (dev.lseek (k * block_size) s)).0 o
        ≡ dev.byte s (k * block_size + o)
  byte_at_block k o buf s h =
      rw
        (
          laws.read-byte buf block_size (dev.lseek (k * block_size) s) o h,
          laws.position-lseek (k * block_size) s,
        )
        (laws.byte-lseek (k * block_size) s (k * block_size + o))

  byte_after_read :
      (k : ℕ) (buf : Block) (s : Dev) (o : ℕ)
      → dev.byte (dev.read buf block_size (dev.lseek (k * block_size) s)).1 o ≡ dev.byte s o
  byte_after_read k buf s o =
      laws.byte-read buf block_size (dev.lseek (k * block_size) s) o
      ∙ laws.byte-lseek (k * block_size) s o

  block_index-lt : (b : ℤ) (n : ℕ) {k : ℕ} → block_index b n ≡ some k → k < n
  unfolding block_index
  block_index-lt b n h = ground arith

  -- For a device that behaves as POSIX says, a disk in memory of at most 2^31 bytes with the same bytes
  -- in its blocks (or neither a disk nor a device), the same bytes to write, and a block number that
  -- both accept or both refuse, write_block of phase 2 and write_block end in the same way, and
  -- leave disks with the same bytes.
  pub write_block_fd-SameRun :
      {n : ℕ} {v : Vol} {w : Volume Dev}
      → SameDisk dev n v w
      → (blocknum : ℤ) → block_index blocknum num_blocks ≡ block_index blocknum n
      → (b c : Block) → SameBlock dev b c
      → SameRun dev n (λ _ _. Unit {0}) (write_block blocknum b v) (write_block_fd dev blocknum c w)
  write_block_fd-SameRun {n} {v} {w} (closed e e') blocknum agreed b c h =
      rw ((closed_write dev v w e e' blocknum b c).0, (closed_write dev v w e e' blocknum b c).1)
        (both_fail (closed e e'))
  write_block_fd-SameRun {n} {v} {w} (opened_both d fd o fits e bytes) blocknum agreed b c h =
      elim (Option-cases (block_index blocknum n)) [
        | inl q ↦
            rw (write_block-fail o blocknum b q, (invalid_fd dev w e blocknum c (agreed ∙ q)).0)
              (both_fail (opened_both d fd o fits e bytes))
        | inr (k, q) ↦
            rw (write_block-at o blocknum b q, (valid_fd dev w e blocknum c k (agreed ∙ q)).0)
              (both_done tt (
                opened_both (write_disk d k b) fd
                  (record { has_disk = refl; has_total = o.has_total }) fits e
                  (λ j p l l'.
                    rw (byte_written k j p c w.device l')
                      (ground (arith, h p l', bytes j p l l')))))
      ]

  -- Under the same conditions read_block of phase 2 and read_block end in the same way, with the same
  -- bytes of the block, and leave the disks with the same bytes.
  pub read_block_fd-SameRun :
      {n : ℕ} {v : Vol} {w : Volume Dev}
      → SameDisk dev n v w
      → (blocknum : ℤ) → block_index blocknum num_blocks ≡ block_index blocknum n
      → (buf : Block)
      → SameRun dev n (SameBlock dev) (read_block blocknum v) (read_block_fd dev blocknum buf w)
  read_block_fd-SameRun {n} {v} {w} (closed e e') blocknum agreed buf =
      rw ((closed_read dev v w e e' blocknum buf).0, (closed_read dev v w e e' blocknum buf).1)
        (both_fail (closed e e'))
  read_block_fd-SameRun {n} {v} {w} (opened_both d fd o fits e bytes) blocknum agreed buf =
      elim (Option-cases (block_index blocknum n)) [
        | inl q ↦
            rw (read_block-fail o blocknum q, (invalid_fd dev w e blocknum buf (agreed ∙ q)).1)
              (both_fail (opened_both d fd o fits e bytes))
        | inr (k, q) ↦
            rw (read_block-at o blocknum q, (valid_fd dev w e blocknum buf k (agreed ∙ q)).1)
              (both_done
                (λ p l.
                  bytes k p (block_index-lt blocknum n q) l
                  ∙ sym (byte_at_block k p buf w.device l))
                (opened_both d fd o fits e (λ j p l l'.
                  bytes j p l l' ∙ sym (byte_after_read k buf w.device (j * block_size + p)))))
      ]

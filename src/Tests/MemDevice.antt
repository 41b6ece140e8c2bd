-- ===== src/Tests/MemDevice.antt =====
-- A device kept in memory, and layer 0 over it.
use filesystem.Bytes.{Block, zero_block}
use filesystem.Layer0.{Vol, block_index, write_block, read_block}
use filesystem.Phase2.{Device, IsDevice, num_blocks, Volume, write_block_fd, read_block_fd}
use filesystem.Phase2.Same.{
  SameDisk, opened_both, SameRun, SameBlock, write_block_fd-SameRun, read_block_fd-SameRun,
}
use filesystem.Prelude.{ltb, leb, if◌then◌else◌, ℕ, ◌+◌, ◌-◌, ◌≡◌, refl, ◌&&◌, none, some, arith}
use filesystem.Prelude.Int.{pos}

record Store : Type 0 where
  bytes : ℕ → ℕ
  position : ℕ

abbrev mem_device : Device Store
mem_device = record {
  byte = λ s. s.bytes;
  position = λ s. s.position;
  lseek = λ p s. record s { position = p };
  write = λ b n s. record {
    bytes =
        λ o. if leb s.position o && ltb o (s.position + n) then b (o - s.position) else s.bytes o;
    position = s.position + n;
  };
  read = λ b n s. (
    (λ o. if ltb o n then s.bytes (s.position + o) else b o),
    record s { position = s.position + n },
  );
}

mem_device-IsDevice : IsDevice mem_device
mem_device-IsDevice = record {
  position-lseek = λ p s. refl;
  byte-lseek = λ p s o. refl;
  byte-write = λ b n s o. refl;
  read-byte = λ b n s o h. ground arith;
  byte-read = λ b n s o. refl;
}

-- A disk and a device on which every byte is 7.
abbrev seven_block : Block
seven_block o = 7

abbrev seven_vol : Vol
seven_vol = record {
  disk = some (λ k. seven_block);
  total_blocks = some 40000;
  cached_superblock = none;
  junk = zero_block;
}

abbrev seven_device : Volume Store
seven_device = record { layer0_fd = some 3; device = record { bytes = seven_block; position = 0 } }

seven_SameDisk : SameDisk mem_device 40000 seven_vol seven_device
seven_SameDisk =
    opened_both (λ k. seven_block) 3 (record { has_disk = refl; has_total = refl }) (omega arith)
      refl (λ k o h h'. refl)

same_block : block_index (pos 5) num_blocks ≡ block_index (pos 5) 40000
unfolding block_index
same_block = refl

write_block_fd-SameRun_example :
    SameRun mem_device 40000
      (λ _ _. Unit {0})
      (write_block (pos 5) zero_block seven_vol)
      (write_block_fd mem_device (pos 5) zero_block seven_device)
write_block_fd-SameRun_example =
    write_block_fd-SameRun mem_device-IsDevice seven_SameDisk (pos 5) same_block zero_block
      zero_block (λ o h. refl)

read_block_fd-SameRun_example :
    SameRun mem_device 40000
      (SameBlock mem_device)
      (read_block (pos 5) seven_vol)
      (read_block_fd mem_device (pos 5) zero_block seven_device)
read_block_fd-SameRun_example =
    read_block_fd-SameRun mem_device-IsDevice seven_SameDisk (pos 5) same_block zero_block

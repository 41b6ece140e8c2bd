-- ===== src/Phase2.antt =====
-- phase 2/layer0.c: layer 0 of the copy of the program that works on a block device. The device and
-- the system calls on its descriptor are parameters.
pub mod Same
use filesystem.Bytes.{Block, block_size}
use filesystem.Layer0.{block_index}
use filesystem.Prelude.{
  ltb, leb, if◌then◌else◌, count, ℕ, ◌+◌, ◌-◌, ◌*◌, ◌<◌, ◌≡◌, ◌&&◌, Option, none, some,
}
use filesystem.Prelude.Int.{ℤ}
use filesystem.Prelude.Run.{disc_uninitialized, invalid_block, Run, done, fail}

-- lseek, write and read on the descriptor of the device: the position that the next call starts from,
-- and the bytes of the device. `read` takes what the buffer held before.
pub record Device (Dev : Type 0) : Type 0 where
  pub byte : Dev → ℕ → ℕ
  pub position : Dev → ℕ
  pub lseek : (offset : ℕ) → Dev → Dev
  pub write : Block → (count : ℕ) → Dev → Dev
  pub read : Block → (count : ℕ) → Dev → Block × Dev

-- What POSIX says of them where the device does not fail and has room: lseek sets the position and
-- changes no byte; write puts the bytes at the position; read gives those that are there.
pub record IsDevice {Dev : Type 0} (dev : Device Dev) : Type 0 where
  pub position-lseek : (p : ℕ) (s : Dev) → dev.position (dev.lseek p s) ≡ p
  pub byte-lseek : (p : ℕ) (s : Dev) (o : ℕ) → dev.byte (dev.lseek p s) o ≡ dev.byte s o
  pub byte-write :
      (b : Block) (n : ℕ) (s : Dev) (o : ℕ)
      → dev.byte (dev.write b n s) o ≡ (
          if leb (dev.position s) o && ltb o (dev.position s + n)
          then b (o - dev.position s)
          else dev.byte s o)
  pub read-byte :
      (b : Block) (n : ℕ) (s : Dev) (o : ℕ)
      → o < n
      → (dev.read b n s).0 o ≡ dev.byte s (dev.position s + o)
  pub byte-read :
      (b : Block) (n : ℕ) (s : Dev) (o : ℕ) → dev.byte (dev.read b n s).1 o ≡ dev.byte s o

-- NUM_BLOCKS
abbrev pub num_blocks : ℕ
num_blocks = 2000000

-- `layer0_fd`, where `none` is UNINITIALIZED_FD, and the device behind it.
pub record Volume (Dev : Type 0) : Type 0 where
  pub layer0_fd : Option ℕ
  pub device : Dev

module _ {Dev : Type 0} (dev : Device Dev) where
  unfoldable pub write_block_fd : ℤ → Block → Volume Dev → Run (Volume Dev) (Unit {0})
  unfolding block_index
  write_block_fd blocknum write_buf v = elim v.layer0_fd [
    | none ↦ fail disc_uninitialized v
    | some _ ↦ elim (block_index blocknum num_blocks) [
      | none ↦ fail invalid_block v
      | some k ↦ done tt (record v {
        device = dev.write write_buf block_size (dev.lseek (k * block_size) v.device);
      })
    ]
  ]

  -- The buffer that `read_buf` points to is an argument, and the result is what it then holds.
  unfoldable pub read_block_fd : ℤ → Block → Volume Dev → Run (Volume Dev) Block
  unfolding block_index
  read_block_fd blocknum read_buf v = elim v.layer0_fd [
    | none ↦ fail disc_uninitialized v
    | some _ ↦ elim (block_index blocknum num_blocks) [
      | none ↦ fail invalid_block v
      | some k ↦
          let r : Block × Dev =
            dev.read read_buf block_size (dev.lseek (k * block_size) v.device) in
          done r.0 (record v { device = r.1 })
    ]
  ]

-- ===== src/Layer1/Keeps/Format.antt =====
-- What mkfs does on the new disk ends, and keeps the volume in use.
use filesystem.Bytes.{set_words}
use filesystem.Layer0.{Superblock, Disk, Vol, write_disk, write_block}
use filesystem.Layer1.Inode.{invalid_inode}
use filesystem.Layer1.Keeps.{
  InUse, NoLoop, Ends, keep_pure, keep_throw, keep_attempt, keep_get, keep_bind, keep_seq,
  keep_result,
}
use filesystem.Layer1.Keeps.Calls.{
  SameLayout-refl, keep_or_uninitialized, Keeps, keep_superblock, write_block-Keeps,
  write_superblock-Keeps, inode_write-Keeps, inode_free-Keeps, inode_create-Keeps, data_write-Keeps,
  InUse-Kept,
}
use filesystem.Layer1.Keeps.Data.{data_allocate_keeps}
use filesystem.Layer1.Mkfs.{
  min_blocks, max_fs_size, layout, init_superblock, write_nodes, init_freelist, zero_ibitmap,
  init_ibitmap, create_dir_base, all_permissions, format, mkfs_blocks, mkfs,
}
use filesystem.Layer1.Mkfs.Layout.{layout-Geometry}
use filesystem.Layer1.Ready.{with_superblock}
use filesystem.Layer1.Super.{superblock_words, read_superblock, write_superblock}
use filesystem.Prelude.{ℕ, zero, suc, ◌+◌, ◌≤◌, min, ◌≡◌, refl, some, arith}
use filesystem.Prelude.Int.{pos}
use filesystem.Prelude.Run.{ok, err, done, pure, ◌>>=◌, ◌>>◌, attempt}

module _ (D : Type 0) (sb : Superblock) (n : ℕ) where
  write_nodes-Keeps : (size i rounds : ℕ) → Keeps D sb n (write_nodes size i rounds)
  unfolding write_nodes
  write_nodes-Keeps size i zero = keep_pure tt
  write_nodes-Keeps size i (suc rounds) =
      keep_seq (keep_or_uninitialized (data_write-Keeps D sb n _ _))
        (write_nodes-Keeps size (i + 1) rounds)

  init_freelist-Keeps : Keeps D sb n init_freelist
  unfolding init_freelist
  init_freelist-Keeps = keep_superblock D sb n λ s same. write_nodes-Keeps s.data_size 0 _

  zero_ibitmap-Keeps : (offset cur rounds : ℕ) → Keeps D sb n (zero_ibitmap offset cur rounds)
  unfolding zero_ibitmap
  zero_ibitmap-Keeps offset cur zero = keep_pure tt
  zero_ibitmap-Keeps offset cur (suc rounds) =
      keep_seq (keep_attempt (write_block-Keeps D sb n _ _))
        (zero_ibitmap-Keeps offset (cur + 1) rounds)

  init_ibitmap-Keeps : Keeps D sb n init_ibitmap
  unfolding init_ibitmap
  init_ibitmap-Keeps =
      keep_superblock D sb n λ s same. zero_ibitmap-Keeps s.ibitmap_block_offset 0 s.ibitmap_size

  pub create_dir_base-Keeps :
      (mode uid gid parent : ℕ) → Keeps D sb n (create_dir_base mode uid gid parent)
  unfolding create_dir_base
  create_dir_base-Keeps mode uid gid parent = keep_bind keep_get λ v.
      keep_bind (inode_create-Keeps D sb n _) λ i.
        keep_bind (keep_attempt (data_allocate_keeps (InUse-Kept D sb n) _)) λ r.
          keep_result r (λ e. keep_seq (keep_attempt (inode_free-Keeps D sb n _)) (keep_throw e))
            λ b. keep_seq (keep_attempt (inode_write-Keeps D sb n _ _)) (keep_pure i)

  -- What follows init_superblock.
  pub rest_of_format-Keeps :
      (uid gid : ℕ)
      → Keeps D sb n (
          attempt init_freelist
          >> (attempt init_ibitmap
              >> (attempt (create_dir_base all_permissions uid gid invalid_inode) >>= λ r.
                  read_superblock >>= λ s.
                  attempt
                    (write_superblock (record s { root_inode = elim r [ ok m ↦ m | err _ ↦ 0 ] }))
                  >> pure tt)))
  rest_of_format-Keeps uid gid = keep_seq (keep_attempt init_freelist-Keeps) (
      keep_seq (keep_attempt init_ibitmap-Keeps) (
        keep_bind (keep_attempt (create_dir_base-Keeps all_permissions uid gid invalid_inode)) λ r.
          keep_superblock D sb n λ s same.
            keep_seq (keep_attempt (write_superblock-Keeps D sb n _ (ground (arith, same))))
              (keep_pure tt)))

-- A new disk with the superblock of its layout.
laid_out :
    (v : Vol) (d : Disk) (blocks : ℕ)
    → min_blocks ≤ blocks
    → blocks ≤ max_fs_size
    → v.disk ≡ some d
    → v.total_blocks ≡ some blocks
    → attempt (init_superblock blocks) v ≡ done (ok tt) (with_superblock v d (layout blocks))
unfolding init_superblock write_superblock write_block
laid_out v d blocks h h' e e' = ground arith

new_InUse :
    (v : Vol) (d : Disk) (blocks : ℕ)
    → min_blocks ≤ blocks
    → blocks ≤ max_fs_size
    → v.total_blocks ≡ some blocks
    → InUse (layout blocks) blocks (with_superblock v d (layout blocks))
new_InUse v d blocks h h' e = record {
  now = layout blocks;
  disk_now = write_disk d 0 (set_words v.junk 0 (superblock_words (layout blocks)));
  ready = record {
    opens = record { has_disk = refl; has_total = e };
    cached = refl;
    geometry = layout-Geometry blocks h h';
  };
  same = SameLayout-refl (layout blocks);
}

format-Ends :
    (v : Vol) (d : Disk) (blocks uid gid : ℕ)
    → min_blocks ≤ blocks
    → blocks ≤ max_fs_size
    → v.disk ≡ some d
    → v.total_blocks ≡ some blocks
    → Ends NoLoop (InUse (layout blocks) blocks) (format blocks uid gid v)
unfolding format
format-Ends v d blocks uid gid h h' e e' = rw (laid_out v d blocks h h' e e') (
    (rest_of_format-Keeps NoLoop (layout blocks) blocks uid gid).keep
      (with_superblock v d (layout blocks)) (new_InUse v d blocks h h' e'))

mkfs_blocks_lem :
    (blocks uid gid : ℕ)
    → min_blocks ≤ blocks
    → mkfs_blocks (pos blocks) (pos uid) (pos gid) ≡ ok (min blocks max_fs_size)
unfolding mkfs_blocks
mkfs_blocks_lem blocks uid gid h = ground arith

mkfs_lem :
    (v : Vol) (d : Disk) (blocks uid gid : ℕ)
    → min_blocks ≤ blocks
    → mkfs (some d) (pos blocks) (pos uid) (pos gid) v
      ≡ format
          (min blocks max_fs_size)
          uid
          gid
          (record v { disk = some d; total_blocks = some (min blocks max_fs_size) })
unfolding mkfs
mkfs_lem v d blocks uid gid h = ground (arith, mkfs_blocks_lem blocks uid gid h)

-- mkfs of at least MIN_BLOCKS blocks, with memory and an owner, ends and leaves a volume in use, with
-- the layout of that many blocks or of MAX_FS_SIZE.
pub mkfs-Ends :
    (v : Vol) (d : Disk) (blocks uid gid : ℕ)
    → min_blocks ≤ blocks
    → Ends NoLoop
        (InUse (layout (min blocks max_fs_size)) (min blocks max_fs_size))
        (mkfs (some d) (pos blocks) (pos uid) (pos gid) v)
mkfs-Ends v d blocks uid gid h = rw (mkfs_lem v d blocks uid gid h) (
    format-Ends (record v { disk = some d; total_blocks = some (min blocks max_fs_size) }) d
      (min blocks max_fs_size) uid gid (ground arith) (ground arith) refl refl)

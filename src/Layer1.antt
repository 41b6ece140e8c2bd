-- ===== src/Layer1.antt =====
-- layer1.c and layer1.h: superblock, inodes and their bitmap, data blocks and the free list, mkfs.
pub mod Super
pub mod Ready
pub mod Inode
pub mod Bitmap
pub mod Data
pub mod FreeList
pub mod Mkfs
pub mod Keeps

-- ===== src/Lib.antt =====
-- A FUSE file system in three layers, with the disk in memory (layer0.c, layer1.c, layer2.c and
-- fusemain.c with their headers).
--
-- Layer 0 reads and writes blocks of 4096 bytes. Layer 1 divides the disk into a superblock, a bitmap
-- of inodes in use, an array of inodes and the data blocks, of which the free ones form a linked list
-- of nodes that is kept in the data blocks themselves. Layer 2 makes files of inodes and data blocks,
-- directories of files, and paths of directories, and keeps the table of open files. The handlers of
-- fusemain.c put these calls together for FUSE.
--
-- The files:
--   Prelude        names of the libraries, Boolean tests, lists, C functions with a status (Run)
--   Bytes          buffers, words in them, memcpy, memset and memcmp; globals.h
--   Layer0         layer0.c: write_block, read_block, and the globals of layers 0 and 1
--   Layer1/Super   layer1.c: read_superblock, write_superblock
--   Layer1/Inode   layer1.c: inode_read, inode_write
--   Layer1/Bitmap  layer1.c: inode_create, inode_free, and the bitmap as a set of inodes in use
--   Layer1/Data    layer1.c: data_read, data_write
--   Layer1/FreeList  layer1.c: data_free, data_allocate
--   Layer1/Mkfs    layer1.c: mkfs, init_superblock, init_freelist, init_ibitmap, create_dir_base
--   Layer1/Ready   a volume in use: what most theorems suppose
--   Layer1/Keeps, Layer2/Keeps  what every call of the layers keeps
--   Layer2/BlockMap  layer2.c: get_nth_datablock, rm_nth_datablock, intPow
--   Layer2/File    layer2.c: read_i, write_i, truncate, del
--   Layer2/Perm    layer2.c: check_permissions, get_stat
--   Layer2/Dir     layer2.c: read_dir_page, read_dir_whole, search_by_inum, search_by_name,
--                  add_dirent, remove_dirent
--   Layer2/Reads   what read_i and the searches in a directory leave alone, and that they end
--   Layer2/Contents  a file as an array of bytes: what read_i gives of it, what get_nth_datablock,
--                  rm_nth_datablock and a round of write_i make of it and of the free list (Extend,
--                  Remove, WriteRound, FullRound, ZeroRound), what truncate leaves of a file of one
--                  block (Dangling), and write_i as a whole with read_i behind it (Writing,
--                  WriteLoop, ReadBack)
--   Layer2/Path    layer2.c: namei, mkdir_fs, mknod_fs
--   Layer2/OpenFiles  layer2.c: oft_add, oft_remove, oft_attempt_delete, oft_lookup
--   Fuse           fusemain.c: the handlers, sequences of their calls (Fuse/History), the rights that
--                  they ask for (Fuse/Rights), what fs_read gives (Fuse/Reading), and fs_open with
--                  fs_release (Fuse/Release)
--   Phase2         phase 2/layer0.c: write_block, read_block over the descriptor of a device
--   Tests          a small volume, and the theorems at it
--
-- A function with a status is a step from the globals to a Run: `done` is SUCCESS with what the call
-- hands back, `fail` a code that is not SUCCESS; both carry the globals that the call leaves. A call
-- whose status the source ignores is an `attempt`. The superblock that a function declares, reads and
-- writes back is a value; the globals are the record Vol, and Fs with the open file table.
--
-- Conventions. A buffer is a function from an offset to a byte, and packed structs are little-endian
-- words at offsets of a buffer. What an uninitialised local variable or memory from malloc holds is
-- the parameter `junk` or `mem`. Pointer arguments are addresses of the caller's variables, so the
-- tests for NULL have no counterpart. An int is a ℕ where the source keeps it in 0 .. 2^31 - 1, and a ℤ
-- where its sign is tested. The model is for file sizes and offsets below 2^31, which read_i, write_i and
-- truncate keep in ints, and for disks of at most 2^31 bytes, where the int product blocknum *
-- BLOCK_SIZE of layer 0 fits; mkfs makes smaller ones. The uint32_t size of an inode is cut to 32 bits,
-- and uid_t and gid_t are narrowed to int where fs_init calls mkfs. The user, the group, the memory that
-- malloc returns and the filler of readdir are arguments. A path is the list of its characters and begins with '/'. Debug output is left out.
--
-- Fuel. data_free walks at most data_size + 1 nodes, which is enough for a list of distinct data
-- blocks. The searches in a directory read at most one page more than it has full blocks, where
-- read_dir_page sets `last`. oft_add finds a descriptor among one more than there are entries. The
-- loop of fs_readdir has no bound of its own; its fuel is an argument.
--
-- Not modelled: main, the debug macros, the tests, and of the second copy of the program in the directory
-- "phase 2" what lies above its layer 0. The calls lseek, read and write on the block device of that
-- layer are parameters, with the laws IsDevice: what POSIX says where the device does not fail.
pub mod Phase2
pub mod Prelude
pub mod Bytes
pub mod Layer0
pub mod Layer1
pub mod Layer2
pub mod Fuse
mod Tests

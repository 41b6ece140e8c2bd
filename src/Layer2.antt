-- ===== src/Layer2.antt =====
-- layer2.c and layer2.h: files as trees of blocks, reads and writes at byte offsets, directories,
-- path lookup, permissions and the open file table.
pub mod BlockMap
pub mod Keeps
pub mod Reads
pub mod File
pub mod Contents
pub mod Dir
pub mod Perm
pub mod Path
pub mod OpenFiles

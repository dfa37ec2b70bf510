-- ===== src/Fs.antt =====
-- Kernel/src/fs: the virtual file system and the initial ram disk.
pub mod Path
pub mod Vfs
pub mod Ext2

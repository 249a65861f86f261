-- ===== src/Fs.antt =====
-- The file system: lib/src/fs.
pub mod FsUtil
pub mod Tree
pub mod BlockUtil
pub mod BlockFuse

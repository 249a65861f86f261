-- ===== src/BlockData.antt =====
-- The data of a block and their messages: lib/src/block/block_data, lib/src/block/block.cc and
-- proto/block_data.proto.
pub mod ReadWriteExecute
pub mod FileType
pub mod Mode
pub mod Stat
pub mod Data
pub mod Block

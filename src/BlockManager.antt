-- ===== src/BlockManager.antt =====
-- Where blocks are kept: lib/src/block/block_manager.
pub mod IdSupplier
pub mod Interface
pub mod Memory
pub mod Async

-- ===== src/PingService.antt =====
-- Blocks that live in the network: lib/src/block/block_manager/ping.
pub mod Translator
pub mod Service
pub mod Circulate
pub mod Wire
pub mod Manager
pub mod Network

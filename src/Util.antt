-- ===== src/Util.antt =====
-- What several parts of the program use: lib/src/util.
pub mod RateQueue
pub mod Publisher

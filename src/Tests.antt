-- ===== src/Tests.antt =====
-- Runs of the model at concrete inputs, and the theorems applied at inputs that meet their
-- hypotheses. Each child is about the part of the library that it is named for.
mod Blocks
mod Codec
mod Files
mod Fixture
mod Fuse
mod Managers
mod Paths
mod Pings
mod Queues
mod Publishers
mod Services
mod Trees
mod Networks

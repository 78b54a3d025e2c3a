-- ===== src/Collector/Storage.antt =====
-- The tables that a cycle writes: collector/src/storage.ts.
pub mod Batch
pub mod Items
pub mod Topology

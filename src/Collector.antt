-- ===== src/Collector.antt =====
-- The collector: collector/src, one module for each file.
pub mod Types
pub mod Categories
pub mod Normalize
pub mod Reliability
pub mod Alerts
pub mod Dates
pub mod Rollup
pub mod Storage
pub mod NfmQuery
pub mod WiQuery
pub mod RollupStore
pub mod Handler
mod Tests

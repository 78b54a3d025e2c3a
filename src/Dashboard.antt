-- ===== src/Dashboard.antt =====
-- The libraries of the web application: app/src/lib, one module for each file or part of it.
pub mod Windows
pub mod Aggregate
pub mod Movers
pub mod Filters
pub mod RecentPaths
pub mod Focus
pub mod Csv
pub mod EdgeHealth
pub mod FlowsCache
pub mod MapPool
pub mod Snapshot
pub mod Grouping
pub mod TopologyGraph
pub mod Reliability
pub mod Anomalies
pub mod Reads
pub mod Hops
pub mod Settings
pub mod Tiers
mod Tests

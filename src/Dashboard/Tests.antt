-- ===== src/Dashboard/Tests.antt =====
-- Runs of the libraries' definitions on small inputs, and their theorems at concrete ones.
mod Windows
mod Movers
mod Focus
mod Filters
mod FlowsCache
mod MapPool
mod Topology
mod Anomalies
mod Reads
mod Csv
mod Settings

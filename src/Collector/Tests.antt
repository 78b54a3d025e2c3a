-- ===== src/Collector/Tests.antt =====
-- Runs of the collector's definitions on small inputs, and its theorems at concrete ones.
mod Data
mod Normalize
mod Reliability
mod Rollup
mod Storage
mod Queries
mod Handler

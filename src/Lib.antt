-- ===== src/Lib.antt =====
-- nfm-dashboard collects the network flows that a cloud monitor service reports, stores them and
-- shows them. Two parts are modelled. The collector, collector/src, runs every five minutes:
--
-- - Collector.Types: the data of collector/src/types.ts.
-- - Collector.Categories: which destination categories a cycle asks for, collector/src/categories.ts.
-- - Collector.Normalize: rows to edges and the removal of duplicates, collector/src/normalize.ts
--   (normalizeRow is normalize_row, dedupeEdges is dedupe_edges).
-- - Collector.Reliability: the entities that breach a rate, collector/src/reliability-alert.ts.
-- - Collector.Alerts: publishReliabilityAlerts of collector/src/handler.ts, which compares them with
--   the stored keys of the last cycle and sends the changes.
-- - Collector.Rollup: which hours are rolled up and the merge of an hour, collector/src/rollup.ts.
-- - Collector.NfmQuery: the queries of a cycle with their retries, collector/src/nfm-query.ts.
-- - Collector.WiQuery: the workload queries, collector/src/wi-query.ts, without the workers that take
--   them in turn: a result stands at the place of its query.
-- - Collector.Handler: one cycle, handler of collector/src/handler.ts and writeCycle of storage.ts, and the
--   cycles of the schedule in a row.
-- - Collector.Storage: the rows, the batch writes and the topology snapshot, collector/src/storage.ts.
-- - Collector.RollupStore: the rollup of the closed hours, collector/src/rollup-store.ts.
--
-- The libraries of the web application, app/src/lib, read what the collector stored:
--
-- - Dashboard.Windows: which buckets a window is read from, recentBuckets, windowPlan and
--   windowPairPlan of app/src/lib/ddb.ts.
-- - Dashboard.FlowsCache: the versioned cache of app/src/lib/ddb.ts (cachedFetch is cached_fetch), as a
--   state with the steps that change it.
-- - Dashboard.Reads: the queries of windows, pods and the history of the same file.
-- - Dashboard.MapPool: the worker pool mapPool of the same file, with its workers in any order.
-- - Dashboard.Filters: app/src/lib/analytics/filters.ts.
-- - Dashboard.RecentPaths: app/src/lib/recent-paths.ts.
-- - Dashboard.Aggregate and Dashboard.Movers: the keys of entities and the changes between two windows,
--   app/src/lib/analytics/aggregate.ts and movers.ts.
-- - Dashboard.Reliability and Dashboard.Anomalies: the rates and breaches of entities and the deviations
--   from the baseline, app/src/lib/analytics/reliability.ts and anomalies.ts.
-- - Dashboard.EdgeHealth: the matrix of links, app/src/lib/analytics/edge-health.ts.
-- - Dashboard.Snapshot: the topology as the views read it. Dashboard.Grouping is applyGrouping and
--   Dashboard.TopologyGraph is buildGraphModel of app/src/lib/topology-graph.ts.
-- - Dashboard.Hops and Dashboard.Tiers: app/src/lib/topology.ts, the hops of a path and the tiers, the
--   matrix, the filter and the resolution of an aggregated pair.
-- - Dashboard.Focus: the neighbourhood of a node, app/src/lib/graph-focus.ts.
-- - Dashboard.Csv: the text of an exported table, app/src/lib/csv.ts.
-- - Dashboard.Settings: the settings that a browser keeps, app/src/lib/settings.ts.
--
-- Prelude has what they share: the Boolean tests, lists, strings, the insertion-ordered map and set
-- of JavaScript, grouping and the stable sort.
--
-- How the model stands to the code: a string is the list of its UTF-16 code units; an optional field
-- is an Option; a Map is an association list in insertion order, a Set a list without repetitions;
-- Array.sort is a stable insertion sort by the sign of the comparator. The values of the service are
-- whole numbers, as it reports them; a rate or a mean is the exact quotient, so the rounding of
-- floating point is not modelled. Times are milliseconds since 1970, far from 0. SHA-1, localeCompare
-- and the conversion of dates are parameters. Loops are structural recursion on the list, or on the
-- bound that the loop has, so no fuel is needed. Service calls are given by their answers: a retried
-- call by the answers to its attempts, a paged query by its pages, the table by what each request
-- leaves unprocessed.
--
-- The rest of the program is not modelled: the pages and the other libraries of the web application,
-- the cloud resources and the scripts.
pub mod Prelude
pub mod Collector
pub mod Dashboard

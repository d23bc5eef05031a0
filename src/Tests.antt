-- ===== src/Tests.antt =====
-- The theorems at concrete inputs.
mod Values
mod PoolRuns
mod Responses
mod Selections
mod Requests
mod Batching
mod Connections
mod Clusters
mod Statistics
mod Sessions

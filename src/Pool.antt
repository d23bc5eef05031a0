-- ===== src/Pool.antt =====
-- emcache/connection_pool.py: the connections of one node, and the operations that wait for one.
pub mod State
pub mod Create
pub mod Methods
pub mod Events
pub mod Bounds
pub mod Fair
pub mod Counted
pub mod Lifo
pub mod Retries
pub mod Purge
pub mod Acquire
pub mod Timers
pub mod Reuse
pub mod Notices
pub mod Metrics

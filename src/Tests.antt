-- ===== src/Tests.antt =====
-- Small indexes, runs of the operations on them, and the theorems at concrete inputs.
pub mod Threads
pub mod Stress
pub mod Programs
pub mod Samples
pub mod Calls
pub mod Parts
pub mod Searches
pub mod Recall
pub mod Shards
pub mod Snapshots
pub mod Vecs

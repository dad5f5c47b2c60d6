-- ===== src/Snapshot.antt =====
-- snapshot/*.go: the writers of counter snapshots.
pub mod Memory
pub mod Aggregated
pub mod Json
pub mod Influx

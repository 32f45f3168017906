-- ===== src/Writer.antt =====
-- internal/cluster/writer.go: writes, their versions, and the batches for the replicas.
pub mod Defs
pub mod Flush
pub mod Delivery
pub mod Cases
pub mod Versions
pub mod Writes

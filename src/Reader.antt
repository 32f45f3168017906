-- ===== src/Reader.antt =====
-- internal/cluster/reader.go: reads over the replicas, read repair and its rate limiter.
pub mod Defs
pub mod Replicas
pub mod Limiter
pub mod Best
pub mod Consistency
pub mod Sources
pub mod Refill
pub mod AfterWrite
pub mod Repair

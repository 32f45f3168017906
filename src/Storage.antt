-- ===== src/Storage.antt =====
-- internal/mem_storage: the sharded store, its items and its buffer of operations to replicate.
pub mod Item
pub mod Conflict
pub mod Buffer
pub mod Queue
pub mod Recent
pub mod Shard
pub mod Evict
pub mod Store
pub mod Batch
pub mod Lookup
pub mod Reads
pub mod Rounds
pub mod Answers
pub mod Count
pub mod Served
pub mod Drained

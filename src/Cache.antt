-- ===== src/Cache.antt =====
-- internal/utils/cache: the cache of read results and its counters of frequency.
pub mod Sketch
pub mod Aging
pub mod Defs
pub mod Eviction
pub mod Coherence
pub mod Steps
pub mod History

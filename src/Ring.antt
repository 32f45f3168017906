-- ===== src/Ring.antt =====
-- internal/cluster/hashring.go: consistent hashing with virtual nodes.
pub mod Defs
pub mod Search
pub mod Scan
pub mod Build
pub mod Update
pub mod Disruption
pub mod Replicas
pub mod GetN

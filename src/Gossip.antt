-- ===== src/Gossip.antt =====
-- internal/cluster/gossip.go: how operations travel between the nodes.
pub mod Defs
pub mod Apply
pub mod Replication
pub mod Rounds
pub mod Once
pub mod Pushes

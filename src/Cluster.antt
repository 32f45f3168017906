-- ===== src/Cluster.antt =====
-- internal/cluster/cluster.go: what connects the parts of a node.
pub mod Remote
pub mod RemoteTrip

-- ===== src/Codec.antt =====
-- internal/cluster/codec.go: the binary formats of the messages between members and of the
-- operations that a node sends to its replicas.
pub mod Wire
pub mod Messages
pub mod RoundTrip
pub mod Echo
pub mod SyncMessage
pub mod SyncOps
pub mod SyncTrip

-- ===== src/Member.antt =====
-- internal/cluster/member.go and types.go: SWIM membership.
pub mod Types
pub mod State
pub mod Handlers
pub mod Ping
pub mod Run
pub mod Induction
pub mod Growth
pub mod Tables
pub mod Convergence
pub mod Detection
pub mod Silence
pub mod Relay

-- ===== src/Member/Induction.antt =====
-- One induction for every event of the manager (internal/cluster/member.go).
mod Writes
mod Messages
mod Rounds
pub use Writes.{Closed, NoOlder, SameNode}
pub use Rounds.{step-R, run-R}

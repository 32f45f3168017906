-- ===== src/Replay.antt =====
-- internal/cluster/entropy.go, the second half: checkpoints and hinted handoff.
pub mod Checkpoint
pub mod Handoff

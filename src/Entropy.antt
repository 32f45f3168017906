-- ===== src/Entropy.antt =====
-- internal/cluster/entropy.go, the first half: digests of the keys, their comparison, and the round
-- of anti-entropy.
pub mod Digest
pub mod Compare

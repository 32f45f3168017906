-- ===== src/Hlc.antt =====
-- internal/utils/hlc/hlc.go: the hybrid logical clock.
pub mod Defs
pub mod Digits
pub mod Order
pub mod Version

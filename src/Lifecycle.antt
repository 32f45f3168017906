-- ===== src/Lifecycle.antt =====
-- internal/utils/lifecycle/lifecycle.go: the order in which components start.
pub mod Defs
pub mod Order
pub mod Fuel

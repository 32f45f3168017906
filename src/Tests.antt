-- ===== src/Tests.antt =====
-- Runs on concrete inputs.
mod Members
mod Rings
mod Clocks
mod Stores
mod Codecs
mod Nodes
mod Reads
mod Writes
mod Caches
mod Replays
mod Gossips
mod Clusters
mod Lifecycles

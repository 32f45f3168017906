-- ===== src/Gossip/Once.antt =====
-- What a round of gossip, `doGossip` of internal/cluster/gossip.go, sends.
use grid_kv.Base.{ℕ, ◌≡◌, []}
use grid_kv.Node.{Libs, Node}
use grid_kv.Storage.Batch.{get_sync_buffer}

module _ (libs : Libs) where
  -- A node whose buffer has nothing to send, now or later.
  abbrev Quiet : Node → Type 0
  Quiet node = (now : ℕ) → (get_sync_buffer libs.store_hash libs.lz4 now node.store).0 ≡ []

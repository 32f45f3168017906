-- ===== src/Writer/Delivery.antt =====
-- `flushInternal` of internal/cluster/writer.go: which operations go to which node.
use grid_kv.Base.{
  ◌≡◌, Bool, not, ◌&&◌, List, [], ◌∷◌, Str, str_eq, is_empty, contains, Map, store, load-store,
  if◌then◌else◌, arith,
}
use grid_kv.Node.{Libs}
use grid_kv.Storage.Shard.{SyncOperation}
use grid_kv.Writer.Defs.{Writer, replicas}
use grid_kv.Writer.Flush.{ops_at}

pub ops_at-store :
    (t j : Str) (ops : List SyncOperation) (m : Map (List SyncOperation))
    → ops_at j (store t ops m) ≡ (if str_eq t j then ops else ops_at j m)
unfolding ops_at
ops_at-store t j ops m = ground (arith, load-store t j ops m)

module _ (libs : Libs) where
  -- The operation has a key, and the node is one of the replicas of that key, not the writer's own.
  abbrev pub is_for : Writer → Str → SyncOperation → Bool
  is_for w t op =
      not (is_empty op.key)
      && (contains t (replicas libs op.key w) && not (str_eq t w.node.node_id))

  -- The operations for one node, in their order.
  unfoldable pub ops_for : Writer → Str → List SyncOperation → List SyncOperation
  ops_for w t [] = []
  ops_for w t (op ∷ ops) = let rest = ops_for w t ops in if is_for w t op then op ∷ rest else rest

-- ===== src/Writer/Flush.antt =====
-- internal/cluster/writer.go: the flush, which sends the waiting operations to the replicas. The
-- caches of targets, which only save lookups, are left out.
use grid_kv.Base.{
  ℕ, ◌-◌, ◌*◌, false, ◌||◌, Option, none, some, List, [], ◌∷◌, ◌++◌, Str, str_eq, is_empty, Map,
  load, store, length, drop, ltb, ◌==◌, if◌then◌else◌,
}
use grid_kv.Member.State.{MemberMgr, members_list}
use grid_kv.Member.Types.{NodeInfo}
use grid_kv.Node.{Libs}
use grid_kv.Storage.Batch.{get_sync_buffer}
use grid_kv.Storage.Shard.{SyncOperation}
use grid_kv.Writer.Defs.{Writer, with_store, replicas}

-- What is sent to one target: its address and the operations.
pub record Push : Type 0 where
  pub address : Str
  pub ops : List SyncOperation

-- The most recent of the pending operations, 200 batches at most.
abbrev pub recent_pending : Writer → List SyncOperation
recent_pending w =
    let most = w.batch_threshold * 200 in
    if ltb most (length w.pending_ops)
    then drop (length w.pending_ops - most) w.pending_ops
    else w.pending_ops

-- `targetOpsMap[target]`: a missing entry is nil.
unfoldable pub ops_at : Str → Map (List SyncOperation) → List SyncOperation
ops_at t m = elim (load t m) [ none ↦ [] | some ops ↦ ops ]

-- `targetOpsMap[target] = append(targetOpsMap[target], op)`
unfoldable pub append_op : Str → SyncOperation → Map (List SyncOperation) → Map (List SyncOperation)
unfolding ops_at
append_op target op m = store target (ops_at target m ++ op ∷ []) m

-- The operation goes to each target but the node itself.
unfoldable pub add_for :
    Str → SyncOperation → List Str → Map (List SyncOperation) → Map (List SyncOperation)
unfolding append_op
add_for self op [] m = m
add_for self op (t ∷ ts) m = add_for self op ts (if str_eq t self then m else append_op t op m)

-- `nodeIDToAddr`, filled from the members in turn.
unfoldable pub addresses_from : Map Str → List NodeInfo → Map Str
addresses_from m [] = m
addresses_from m (info ∷ infos) = addresses_from (store info.node_id info.address m) infos

unfoldable pub addresses : Option MemberMgr → Map Str
unfolding addresses_from members_list
addresses none = []
addresses (some m) = addresses_from [] (members_list m)

-- A missing entry reads as "".
abbrev pub address_of : Map Str → Str → Str
address_of m id = elim (load id m) [ none ↦ [] | some a ↦ a ]

-- The pushes, by the ID of the target.
unfoldable pub pushes_of : Map Str → Map (List SyncOperation) → Map Push
pushes_of known [] = []
pushes_of known ((t, ops) ∷ m) =
    let rest = pushes_of known m in
    if (length ops == 0) || is_empty (address_of known t)
    then rest
    else (t, record { address = address_of known t; ops = ops }) ∷ rest

module _ (libs : Libs) where
  -- `targetOpsMap` after the loop over the operations.
  unfoldable pub group_ops :
      Writer → List SyncOperation → Map (List SyncOperation) → Map (List SyncOperation)
  unfolding add_for
  group_ops w [] m = m
  group_ops w (op ∷ ops) m =
      group_ops w ops
        (if is_empty op.key then m else add_for w.node.node_id op (replicas libs op.key w) m)

  -- The operations of a flush: those of the store, then the pending ones.
  unfoldable pub flush_ops : ℕ → Writer → List SyncOperation × Writer
  unfolding get_sync_buffer
  flush_ops time w =
      let (ops, s) = get_sync_buffer libs.store_hash libs.lz4 time w.node.store in
      (ops ++ recent_pending w, record (with_store w s) { pending_ops = []; batch_count = 0 })

  -- `flushInternal`: what it pushes, and the writer behind it. `time` is the clock of the store.
  unfoldable pub flush_internal : ℕ → Writer → Map Push × Writer
  unfolding flush_ops group_ops addresses pushes_of
  flush_internal time w =
      let (ops, w') = flush_ops time w in
      (pushes_of (addresses w.node.member) (group_ops w' ops []), w')

  -- The task of `flushAsync`, where one waits.
  unfoldable pub flush_task : ℕ → Writer → Map Push × Writer
  unfolding flush_internal
  flush_task time w =
      let (pushes, w') = flush_internal time w in
      if w.flush_pending then (pushes, record w' { flush_pending = false }) else ([], w)

-- ===== src/Tests/Writes.antt =====
-- Writes and a flush at the node "a".
use grid_kv.Base.{
  ◌-◌, ◌*◌, ◌++◌, drop, ◌⊎◌, refl, none, List, [], ◌∷◌, length, load, store, str_eq, add64, slt,
  bias, arith,
}
use grid_kv.Compress.{compress}
use grid_kv.Hlc.Defs.{now, tick, stamp, new_hlc, append_int, digits_from}
use grid_kv.Hlc.Version.{hlc_to_int64}
use grid_kv.Ring.Defs.{get_n}
use grid_kv.Storage.Evict.{StoreError}
use grid_kv.Storage.Batch.{get_sync_buffer}
use grid_kv.Storage.Shard.{SyncOperation, OpType}
use grid_kv.Tests.Nodes.{libs, id_b, writer_a, same_order}
use grid_kv.Tests.Stores.{key_k, key_l, item_at}
use grid_kv.Writer.Defs.{
  Writer, operation, no_replicas, store_failed, write_key, next_version, clock_version, prune,
  trigger_batch, replicas, set_store, store_or_queue,
}
use grid_kv.Writer.Delivery.{ops_for}
use grid_kv.Writer.Flush.{flush_ops}
use grid_kv.Writer.Versions.{SetCall, Rising, write_log, new_keys, write_log-Rising}
use grid_kv.Writer.Writes.{WriteOutcome, store_or_queue-outcome}

-- A writer that has two operations to send.
abbrev written : Writer
written = record writer_a {
  pending_ops =
      operation key_k OpType.op_set (item_at 5) ∷ operation key_l OpType.op_set (item_at 6) ∷ [];
}

abbrev ops_b : List SyncOperation
ops_b =
    ops_for libs written id_b (
      (get_sync_buffer libs.store_hash libs.lz4 9 written.node.store).0
      ++ drop (length written.pending_ops - written.batch_threshold * 200) written.pending_ops)

abbrev set_calls : List SetCall
set_calls =
    record { wall = 7; key = key_k; item = item_at 0 }
    ∷ record { wall = 7; key = key_l; item = item_at 0 }
    ∷ record { wall = 5; key = key_k; item = item_at 0 }
    ∷ []

write_log-Rising_example : Rising key_k none (write_log libs same_order set_calls writer_a)
unfolding load slt bias write_log write_key next_version clock_version prune store str_eq now tick
    stamp hlc_to_int64 new_hlc store_or_queue trigger_batch append_int digits_from get_n add64
    compress new_keys
write_log-Rising_example =
    write_log-Rising libs same_order key_k set_calls writer_a (omega arith) tt
      (refl, (refl, (refl, tt)))

store_or_queue-outcome_example :
    WriteOutcome libs key_k (item_at 5) OpType.op_set writer_a
      (store_or_queue libs key_k (item_at 5) OpType.op_set writer_a)
store_or_queue-outcome_example =
    store_or_queue-outcome libs key_k (item_at 5) OpType.op_set writer_a

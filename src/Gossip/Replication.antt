-- ===== src/Gossip/Replication.antt =====
-- A write that one node pushes and another reads: internal/cluster/gossip.go above the store.
use grid_kv.Base.{
  ℕ, ◌≤◌, ◌≡◌, refl, sym, ap, ◌∙◌, true, false, not, ◌||◌, Option, none, some, List, [], ◌∷◌, Str,
  is_empty, length, slt, ltb, ◌==◌, arith,
}
use grid_kv.Codec.SyncTrip.{Sendable}
use grid_kv.Compress.{max_estimate}
use grid_kv.Gossip.Apply.{
  looked_at, live_entry-some, lookup-looked_at_self, newer_fresh, apply_item-fresh,
  handle_message-push_message,
}
use grid_kv.Gossip.Defs.{
  push_message, is_stale, is_replica, apply_item, apply_ops, apply_op, handle_message,
  unless_failed,
}
use grid_kv.Node.{Libs, Node}
use grid_kv.Storage.Answers.{get_item-lookup}
use grid_kv.Storage.Evict.{StoreError}
use grid_kv.Storage.Item.{StoredItem}
use grid_kv.Storage.Lookup.{lookup}
use grid_kv.Storage.Reads.{Fits, get_item-set_item, set_item-write}
use grid_kv.Storage.Shard.{CompressedItem, MemStorage, OpType, SyncOperation}
use grid_kv.Storage.Store.{Result, get_item}

abbrev pub set_op : Str → StoredItem → SyncOperation
set_op key item = record { key = key; op_type = OpType.op_set; item = some item }

module _ (libs : Libs) where
  -- A single operation.
  apply_single :
      (now : ℕ) (key : Str) (item : StoredItem) (node : Node)
      → (apply_ops libs now (some (set_op key item) ∷ []) node).1
        ≡ (apply_item libs now key item node).1
  unfolding apply_ops apply_op
  apply_single now key item node = unless_failed_nothing (apply_item libs now key item node)
    where
      unless_failed_nothing : (r : Option StoreError × Node) → (unless_failed r (none, r.1)).1 ≡ r.1
      unless_failed_nothing (none, n) = refl
      unless_failed_nothing (some e, n) = refl

  handled :
      (now : ℕ) (key : Str) (item : StoredItem) (node : Node)
      → Sendable (set_op key item)
      → (handle_message libs now (push_message (set_op key item ∷ [])) node).2
        ≡ (apply_item libs now key item node).1
  handled now key item node fits =
      ap (λ (r : Option StoreError × Option (Str × List ℕ) × Node). r.2)
        (handle_message-push_message libs now (set_op key item ∷ []) node (omega arith) (fits, tt))
      ∙ apply_single now key item node

  -- Replication: when a replica of the key receives what `Push` sends of a `Set`, a read of its
  -- store answers with the bytes that were set, their version and their expiry; if the item fits
  -- the wire, the replica holds no version of the key that is as new, the item fits its store
  -- without an eviction and has at most 64 MB, and has not expired.
  pub read-push_message :
      (now later : ℕ) (key : Str) (item : StoredItem) (node : Node)
      → is_empty key ≡ false
      → Sendable (set_op key item)
      → is_replica libs key node ≡ true
      → ((old : CompressedItem)
          → lookup libs.store_hash key node.store ≡ some old
          → slt old.version item.version ≡ true)
      → Fits libs.store_hash libs.lz4 key item (looked_at libs now key node.store)
      → length item.value ≤ max_estimate
      → (item.expire_at == 0) || not (ltb item.expire_at later) ≡ true
      → (get_item libs.store_hash libs.lz4 later key
          (handle_message libs now (push_message (set_op key item ∷ [])) node).2.store).0
        ≡ Result.ok (record {
          version = item.version;
          expire_at = item.expire_at;
          value = item.value;
          key = [];
        })
  read-push_message now later key item node named sendable here newer fits short live =
      let s = looked_at libs now key node.store in
      let fresh : is_stale (get_item libs.store_hash libs.lz4 now key node.store).0 item ≡ false =
        ap (λ a. is_stale a item)
          (get_item-lookup libs.store_hash libs.lz4 now key key node.store named).0
        ∙ newer_fresh libs now (lookup libs.store_hash key node.store) item newer in
      let stored =
        ap (λ (n : Node). n.store) (handled now key item node sendable)
        ∙ apply_item-fresh libs now key item node named here fits fresh
        ∙ sym (
            ap (λ (p : Option StoreError × MemStorage). p.1)
              (set_item-write libs.store_hash libs.lz4 key item s named fits)) in
      ap (λ t. (get_item libs.store_hash libs.lz4 later key t).0) stored
      ∙ get_item-set_item libs.store_hash libs.lz4 later key item s named fits short
          (λ old found. newer old (
            live_entry-some libs now (lookup libs.store_hash key node.store) old
              (sym (lookup-looked_at_self libs now key node.store named) ∙ found)))
          live

-- ===== src/Gossip/Defs.antt =====
-- internal/cluster/gossip.go: pushes, pulls and what a node does with them. The executor takes every
-- task, which runs at once; `ring`, `store` and the functions that send are there. The caches of
-- ring lookups, which only save work, are left out.
use grid_kv.Base.{
  ℕ, Bool, false, not, ◌||◌, Option, none, some, List, [], ◌∷◌, ◌++◌, Str, str_eq, is_empty, length,
  drop, slt, ◌==◌, if◌then◌else◌,
}
use grid_kv.Codec.SyncOps.{serialize, deserialize}
use grid_kv.Entropy.Digest.{starts_with}
use grid_kv.Member.State.{MemberMgr, members_list}
use grid_kv.Member.Types.{NodeInfo}
use grid_kv.Node.{Libs, Node, targets_of, read_store}
use grid_kv.Storage.Batch.{get_sync_buffer}
use grid_kv.Storage.Evict.{StoreError}
use grid_kv.Storage.Item.{StoredItem}
use grid_kv.Storage.Shard.{SyncOperation, MemStorage}
use grid_kv.Storage.Store.{Result, set_item}
use grid_kv.Writer.Defs.{is_local_replica}

-- "PUSH:" and "PULL:"
abbrev pub push_prefix : List ℕ
push_prefix = 80 ∷ 85 ∷ 83 ∷ 72 ∷ 58 ∷ []

abbrev pub pull_prefix : List ℕ
pull_prefix = 80 ∷ 85 ∷ 76 ∷ 76 ∷ 58 ∷ []

unfoldable pub push_message : List SyncOperation → List ℕ
unfolding serialize
push_message ops = push_prefix ++ serialize ops

unfoldable pub pull_message : Str → List SyncOperation → List ℕ
unfolding serialize
pull_message id ops = pull_prefix ++ (id ++ 58 ∷ serialize ops)

-- The node that a pull names, and what stands behind the colon, `none` without one.
unfoldable pub split_colon : List ℕ → Str × Option (List ℕ)
split_colon [] = ([], none)
split_colon (c ∷ cs) =
    let (id, rest) = split_colon cs in if c == 58 then ([], some cs) else (c ∷ id, rest)

-- The address of the first member with the ID, "" where there is none.
unfoldable pub address_in : Str → List NodeInfo → Str
address_in id [] = []
address_in id (info ∷ infos) = if str_eq info.node_id id then info.address else address_in id infos

abbrev pub member_address : Str → Option MemberMgr → Str
member_address id none = []
member_address id (some m) = address_in id (members_list m)

-- `existing.Version >= op.Item.Version`, where the store has the key.
abbrev pub is_stale : Result StoredItem → StoredItem → Bool
is_stale (Result.err e) item = false
is_stale (Result.ok existing) item = not (slt existing.version item.version)

abbrev pub with_store : Node → Option StoreError × MemStorage → Option StoreError × Node
with_store node (error, s) = (error, record node { store = s })

abbrev pub unless_failed :
    Option StoreError × Node → Option StoreError × Node → Option StoreError × Node
unless_failed (none, node) rest = rest
unless_failed (some e, node) rest = (some e, node)

module _ (libs : Libs) where
  abbrev pub is_replica : Str → Node → Bool
  is_replica key node = is_local_replica node.node_id (targets_of libs key node.replica_count node)

  -- `applyOps` for an operation that has an item.
  unfoldable pub apply_item : ℕ → Str → StoredItem → Node → Option StoreError × Node
  unfolding is_local_replica set_item
  apply_item now key item node =
      let (existing, node') = read_store libs now key node in
      if not (is_replica key node)
      then (none, node)
      else if is_stale existing item
      then (none, node')
      else with_store node' (set_item libs.store_hash libs.lz4 key (some item) node'.store)

  unfoldable pub apply_op : ℕ → Option SyncOperation → Node → Option StoreError × Node
  unfolding apply_item
  apply_op now none node = (none, node)
  apply_op now (some op) node = elim op.item [
    | none ↦ (none, node)
    | some item ↦ apply_item now op.key item node
  ]

  -- `applyOps`, up to the first error of the store
  unfoldable pub apply_ops : ℕ → List (Option SyncOperation) → Node → Option StoreError × Node
  unfolding apply_op
  apply_ops now [] node = (none, node)
  apply_ops now (op ∷ ops) node =
      let applied = apply_op now op node in
      let rest = apply_ops now ops applied.1 in unless_failed applied rest

  -- `GetSyncBuffer`
  abbrev pub take_buffer : ℕ → Node → List SyncOperation × Node
  take_buffer now node =
      let (ops, s) = get_sync_buffer libs.store_hash libs.lz4 now node.store in
      (ops, record node { store = s })

  -- The answer to a pull: what is sent, and where.
  unfoldable pub answer_pull : ℕ → Str → Node → Option (Str × List ℕ) × Node
  unfolding get_sync_buffer push_message address_in
  answer_pull now id node =
      let (ops, node') = take_buffer now node in
      let address = member_address id node.member in
      (
        (if (length ops == 0) || is_empty address then none else some (address, push_message ops)),
        node',
      )

  abbrev pub apply_pulled : ℕ → Option (List ℕ) → Node → Node
  apply_pulled now none node = node
  apply_pulled now (some bytes) node = (apply_ops now (deserialize bytes) node).1

  -- `HandleMessage`: its error, the message that it sends, and the node behind it
  unfoldable pub handle_message :
      ℕ → List ℕ → Node → Option StoreError × Option (Str × List ℕ) × Node
  unfolding apply_ops answer_pull split_colon deserialize starts_with
  handle_message now bytes node =
      let payload = drop 5 bytes in
      let (id, pulled) = split_colon payload in
      let (error, pushed) = apply_ops now (deserialize payload) node in
      let (sent, answered) = answer_pull now id (apply_pulled now pulled node) in
      if starts_with push_prefix bytes
      then (error, none, pushed)
      else if starts_with pull_prefix bytes
      then (none, sent, answered)
      else (none, none, node)

  -- `Pull`: the request that it sends, if there is something to send along.
  unfoldable pub pull : ℕ → Node → Option (List ℕ) × Node
  unfolding get_sync_buffer pull_message
  pull now node =
      let (ops, node') = take_buffer now node in
      ((if length ops == 0 then none else some (pull_message node.node_id ops)), node')

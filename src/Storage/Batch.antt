-- ===== src/Storage/Batch.antt =====
-- internal/mem_storage/mem_storage.go: the operations on many keys. The source visits a map or the
-- batches of the shards in an order that Go does not fix; the lists of the model are one order.
use grid_kv.Base.{
  ℕ, zero, suc, ◌+◌, Option, none, some, List, [], ◌∷◌, ◌++◌, Str, is_empty, Map, load, store,
  length, slt, ◌==◌, if◌then◌else◌,
}
use grid_kv.Compress.{Lz4}
use grid_kv.Storage.Evict.{StoreError, check_and_evict}
use grid_kv.Storage.Item.{StoredItem}
use grid_kv.Storage.Buffer.{drain}
use grid_kv.Storage.Shard.{
  CompressedItem, OpType, SyncOperation, no_sizes, sub_sizes, calculate_item_size, sizes_of, Shard,
  MemStorage, put_shard,
}
use grid_kv.Storage.Store.{Result, set_item, get_item, expired_at, taken_out}

-- The loop over the shards, from the first.
abbrev pub for_shards : ℕ → (ℕ → MemStorage → MemStorage) → MemStorage → MemStorage
for_shards zero body s = s
for_shards (suc n) body s = body n (for_shards n body s)

-- The body of `cleanExpired` for one key.
unfoldable pub clean_key : ℕ → ℕ → Str → MemStorage → MemStorage
clean_key now i key s = elim (load key (s.shards i).data_map) [
  | none ↦ s
  | some item ↦
      if expired_at now item
      then record (put_shard i (taken_out key item (s.shards i)) s) {
        totals = sub_sizes s.totals (sizes_of key item);
      }
      else s
]

unfoldable pub clean_keys : ℕ → ℕ → List Str → MemStorage → MemStorage
clean_keys now i [] s = s
clean_keys now i (key ∷ keys) s = clean_keys now i keys (clean_key now i key s)

abbrev pub keys_of : Map CompressedItem → List Str
keys_of [] = []
keys_of ((k, item) ∷ m) = k ∷ keys_of m

unfoldable pub clean_expired : ℕ → MemStorage → MemStorage
unfolding clean_keys
clean_expired now s =
    for_shards s.config.shard_count (λ i s'. clean_keys now i (keys_of (s'.shards i).data_map) s') s

-- `Keys`: what is expired leaves the map, and neither the counters nor the LRU list.
abbrev pub live_keys : ℕ → Map CompressedItem → List Str
live_keys now [] = []
live_keys now ((k, item) ∷ m) =
    let rest = live_keys now m in if expired_at now item then rest else k ∷ rest

abbrev pub live_entries : ℕ → Map CompressedItem → Map CompressedItem
live_entries now [] = []
live_entries now ((k, item) ∷ m) =
    let rest = live_entries now m in if expired_at now item then rest else (k, item) ∷ rest

unfoldable pub all_keys : ℕ → ℕ → MemStorage → List Str
all_keys now zero s = []
all_keys now (suc n) s = all_keys now n s ++ live_keys now (s.shards n).data_map

unfoldable pub keys : ℕ → MemStorage → List Str × MemStorage
unfolding all_keys
keys now s = (
  all_keys now s.config.shard_count s,
  for_shards s.config.shard_count
      (λ i s'.
        put_shard i (record (s'.shards i) { data_map = live_entries now (s'.shards i).data_map })
          s')
      s,
)

-- `Clear`: the pending operations are forgotten too.
abbrev pub cleared_shard : Shard → Shard
cleared_shard shard = record {
  data_map = [];
  lru = [];
  buffer = record shard.buffer { tail = shard.buffer.head };
  sizes = no_sizes;
}

unfoldable pub clear : MemStorage → MemStorage
clear s =
    record (for_shards s.config.shard_count (λ i s'. put_shard i (cleared_shard (s'.shards i)) s')
      s) { totals = no_sizes }

module _ (hash_lo : Str → ℕ) (lz4 : Lz4) where
  -- `BatchGet` and `BatchGetNoCopy`: a key that gives an error is not in the result.
  abbrev add_answer : Str → Result StoredItem → Map StoredItem → Map StoredItem
  add_answer key (Result.err e) found = found
  add_answer key (Result.ok item) found = store key item found

  unfoldable pub batch_get :
      ℕ → List Str → Map StoredItem → MemStorage → Map StoredItem × MemStorage
  unfolding get_item
  batch_get now [] found s = (found, s)
  batch_get now (key ∷ keys) found s =
      let (answer, s') = get_item hash_lo lz4 now key s in
      batch_get now keys (add_answer key answer found) s'

  -- `BatchSet`: room for all, then one `Set` after the other, whose errors are dropped.
  abbrev size_of_entry : Str → Option StoredItem → ℕ
  size_of_entry key none = 0
  size_of_entry key (some item) = if is_empty key then 0 else calculate_item_size key item.value

  unfoldable pub total_size : Map (Option StoredItem) → ℕ
  total_size [] = 0
  total_size ((key, item) ∷ items) = size_of_entry key item + total_size items

  unfoldable pub set_all : Map (Option StoredItem) → MemStorage → MemStorage
  unfolding set_item
  set_all [] s = s
  set_all ((key, item) ∷ items) s = set_all items (set_item hash_lo lz4 key item s).1

  unfoldable pub batch_set : Map (Option StoredItem) → MemStorage → Option StoreError × MemStorage
  unfolding total_size set_all check_and_evict
  batch_set [] s = (none, s)
  batch_set (entry ∷ entries) s =
      let items = entry ∷ entries in
      let (error, s') =
        if slt 0 s.config.max_memory_mb then check_and_evict (total_size items) s else (none, s) in
      elim error [ some e ↦ (some e, s') | none ↦ (none, set_all items s') ]

  -- `GetSyncBuffer` reads the value of an operation that sets a key where it hands it over.
  abbrev pub with_value : SyncOperation → StoredItem → Result StoredItem → SyncOperation
  with_value op item (Result.err e) = op
  with_value op item (Result.ok stored) =
      if length stored.value == 0
      then op
      else record op { item = some (record item { value = stored.value }) }

  unfoldable pub fill_op : ℕ → SyncOperation → MemStorage → SyncOperation × MemStorage
  unfolding get_item
  fill_op now op s =
      let (answer, s') = get_item hash_lo lz4 now op.key s in
      elim op.op_type [
        | OpType.op_delete ↦ (op, s)
        | OpType.op_other n ↦ (op, s)
        | OpType.op_set ↦ elim op.item [
          | none ↦ (op, s)
          | some item ↦ if length item.value == 0 then (with_value op item answer, s') else (op, s)
        ]
      ]

  unfoldable pub fill_ops : ℕ → List SyncOperation → MemStorage → List SyncOperation × MemStorage
  unfolding fill_op
  fill_ops now [] s = ([], s)
  fill_ops now (op ∷ ops) s =
      let (op', s') = fill_op now op s in let (ops', s'') = fill_ops now ops s' in (op' ∷ ops', s'')

  unfoldable pub sync_shards : ℕ → ℕ → MemStorage → List SyncOperation × MemStorage
  unfolding fill_ops drain
  sync_shards now zero s = ([], s)
  sync_shards now (suc n) s =
      let (before, s₁) = sync_shards now n s in
      let (ops, buffer) = drain (s₁.shards n).buffer in
      let (filled, s₂) = fill_ops now ops s₁ in
      (before ++ filled, put_shard n (record (s₂.shards n) { buffer = buffer }) s₂)

  unfoldable pub get_sync_buffer : ℕ → MemStorage → List SyncOperation × MemStorage
  unfolding sync_shards
  get_sync_buffer now s = sync_shards now s.config.shard_count s

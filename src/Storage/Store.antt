-- ===== src/Storage/Store.antt =====
-- internal/mem_storage/mem_storage.go: reading, writing, deleting and expiry. The hash (xxh3) and
-- LZ4 are libraries, and so parameters. Times are nanoseconds.
use grid_kv.Base.{
  ℕ, ◌+◌, ◌*◌, ◌%◌, Bool, false, not, ◌&&◌, Option, none, some, List, [], Str, is_empty, load,
  store, delete, length, add64, sub64, slt, ltb, ◌==◌, if◌then◌else◌,
}
use grid_kv.Compress.{Lz4, compress, decompress_to}
use grid_kv.Storage.Evict.{StoreError, check_and_evict}
use grid_kv.Storage.Item.{StoredItem}
use grid_kv.Storage.Buffer.{push}
use grid_kv.Storage.Shard.{
  CompressedItem, OpType, SyncOperation, Sizes, add_sizes, sub_sizes, calculate_item_size, sizes_of,
  Shard, touch_lru, remove_from_lru, MemStorage, put_shard,
}

pub data Result (A : Type 0) : Type 0 where
  ok : A → Result A
  err : StoreError → Result A

-- `addToSyncBuffer`: the operation carries no value.
abbrev pub sync_op : Str → OpType → Option StoredItem → SyncOperation
sync_op key op_type none = record { key = key; op_type = op_type; item = none }
sync_op key op_type (some item) = record {
  key = key;
  op_type = op_type;
  item =
      some (record { version = item.version; expire_at = item.expire_at; value = []; key = key });
}

abbrev pub add_to_sync_buffer : Str → OpType → Option StoredItem → Shard → Shard
add_to_sync_buffer key op_type item shard = record shard {
  buffer = push (sync_op key op_type item) shard.buffer;
}

-- What a replaced entry changes in the counters; the old size leaves out the key.
abbrev pub replace_sizes : CompressedItem → CompressedItem → ℕ → Sizes → Sizes
replace_sizes old item item_size sizes = record {
  keys = sizes.keys;
  bytes = add64 sizes.bytes (sub64 item_size (calculate_item_size [] old.value));
  packed = add64 sizes.packed (sub64 (length item.value) (length old.value));
  original = add64 sizes.original (sub64 item.orig_size old.orig_size);
}

-- `tryStoreNewKey` and `updateStatsForNewKey`
unfoldable pub store_new_key : ℕ → Str → CompressedItem → StoredItem → MemStorage → MemStorage
store_new_key i key item original s =
    let shard = s.shards i in
    let stored = record shard {
      data_map = store key item shard.data_map;
      sizes = add_sizes shard.sizes (sizes_of key item);
    } in
    record (put_shard i
      (add_to_sync_buffer key OpType.op_set (some original) (touch_lru key stored)) s) {
        totals = add_sizes s.totals (sizes_of key item);
        set_count = s.set_count + 1;
      }

-- `tryUpdateExistingKey` and `updateStatsForExistingKey`
unfoldable pub update_existing_key :
    ℕ → Str → CompressedItem → CompressedItem → StoredItem → MemStorage → MemStorage
update_existing_key i key old item original s =
    let shard = s.shards i in
    let size = calculate_item_size key item.value in
    let stored = record shard {
      data_map = store key item shard.data_map;
      sizes = replace_sizes old item size shard.sizes;
    } in
    if slt old.version item.version
    then record (put_shard i
        (add_to_sync_buffer key OpType.op_set (some original) (touch_lru key stored)) s) {
          totals = replace_sizes old item size s.totals;
          set_count = s.set_count + 1;
        }
    else record s { set_count = s.set_count + 1 }

unfoldable pub store_item : ℕ → Str → CompressedItem → StoredItem → MemStorage → MemStorage
unfolding store_new_key update_existing_key
store_item i key item original s = elim (load key (s.shards i).data_map) [
  | none ↦ store_new_key i key item original s
  | some old ↦ update_existing_key i key old item original s
]

abbrev pub expired_at : ℕ → CompressedItem → Bool
expired_at now item = not (item.expire_at == 0) && ltb item.expire_at now

-- An entry that a read finds expired: the counters of bytes keep its share.
abbrev pub drop_expired : ℕ → Str → MemStorage → MemStorage
drop_expired i key s =
    let shard = s.shards i in
    record (put_shard i
      (remove_from_lru key (record shard {
        data_map = delete key shard.data_map;
        sizes = record shard.sizes { keys = sub64 shard.sizes.keys 1 };
      }))
      s) {
        totals = record s.totals { keys = sub64 s.totals.keys 1 };
        miss_count = s.miss_count + 1;
        get_count = s.get_count + 1;
      }

-- An entry that leaves with all its share of the counters.
abbrev pub taken_out : Str → CompressedItem → Shard → Shard
taken_out key item shard = remove_from_lru key (record shard {
  data_map = delete key shard.data_map;
  sizes = sub_sizes shard.sizes (sizes_of key item);
})

module _ (lz4 : Lz4) where
  unfoldable pub prepare_item : MemStorage → StoredItem → CompressedItem
  prepare_item s item =
      let (packed, is_packed) = compress lz4 item.value s.config.compression_threshold in
      let squeeze =
        s.config.compression_enabled
        && not (slt (length item.value) s.config.compression_threshold) in
      record {
        version = item.version;
        expire_at = item.expire_at;
        value = if squeeze then packed else item.value;
        compressed = if squeeze then is_packed else false;
        orig_size = length item.value;
      }

  -- `decompressValue` of a compressed item
  unfoldable pub decompress_value : CompressedItem → Option (List ℕ)
  decompress_value item =
      let double = length item.value * 2 in
      decompress_to lz4 item.value (if ltb item.orig_size double then double else item.orig_size)

  unfoldable pub item_value : CompressedItem → Option (List ℕ)
  unfolding decompress_value
  item_value item = if item.compressed then decompress_value item else some item.value

  abbrev pub answer : CompressedItem → Option (List ℕ) → Result StoredItem
  answer item none = Result.err StoreError.decompress_failed
  answer item (some value) =
      Result.ok
        (record { version = item.version; expire_at = item.expire_at; value = value; key = [] })

  -- A found entry.
  unfoldable pub read_found :
      ℕ → ℕ → Str → CompressedItem → MemStorage → Result StoredItem × MemStorage
  unfolding item_value
  read_found now i key item s =
      if expired_at now item then (Result.err StoreError.is_gone, drop_expired i key s) else (
        answer item (item_value item),
        record (put_shard i (touch_lru key (s.shards i)) s) {
          hit_count = s.hit_count + 1;
          get_count = s.get_count + 1;
        },
      )

module _ (hash_lo : Str → ℕ) (lz4 : Lz4) where
  -- `getShard`
  abbrev pub shard_of : Str → MemStorage → ℕ
  shard_of key s = hash_lo key % s.config.shard_count

  -- `Set`; the error is none where it succeeds.
  unfoldable pub set_item : Str → Option StoredItem → MemStorage → Option StoreError × MemStorage
  unfolding prepare_item store_item check_and_evict
  set_item key none s =
      (some (if is_empty key then StoreError.empty_key else StoreError.nil_item), s)
  set_item key (some item) s =
      let packed = prepare_item lz4 s item in
      let size = calculate_item_size key packed.value in
      let (error, s') =
        if slt 0 s.config.max_memory_mb then check_and_evict size s else (none, s) in
      if is_empty key then (some StoreError.empty_key, s) else elim error [
        | some e ↦ (some e, s')
        | none ↦ (none, store_item (shard_of key s') key packed item s')
      ]

  -- `Get`, and `GetNoCopy`, which differ in what the result shares with the store only.
  unfoldable pub get_item : ℕ → Str → MemStorage → Result StoredItem × MemStorage
  unfolding read_found
  get_item now key s =
      if is_empty key
      then (Result.err StoreError.empty_key, s)
      else elim (load key (s.shards (shard_of key s)).data_map) [
        | none ↦ (
          Result.err StoreError.not_found,
          record s { miss_count = s.miss_count + 1; get_count = s.get_count + 1 },
        )
        | some item ↦ read_found lz4 now (shard_of key s) key item s
      ]

  -- `Delete`; the version is the pattern of an int64.
  unfoldable pub delete_item : Str → ℕ → MemStorage → Option StoreError × MemStorage
  delete_item key version s =
      let i = shard_of key s in
      if is_empty key
      then (some StoreError.empty_key, s)
      else elim (load key (s.shards i).data_map) [
        | none ↦ (none, s)
        | some item ↦
            if slt 0 version && slt version item.version
            then (some StoreError.version_mismatch, s)
            else (
              none,
              record (put_shard i
                  (add_to_sync_buffer key OpType.op_delete none (taken_out key item (s.shards i)))
                  s) { totals = sub_sizes s.totals (sizes_of key item) },
            )
      ]

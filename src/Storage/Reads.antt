-- ===== src/Storage/Reads.antt =====
-- What `Set`, `Get` and `Delete` show a client, through compression and expiry.
use grid_kv.Base.{
  ◌==◌, ℕ, ◌≤◌, ◌≡◌, refl, ◌∙◌, Bool, true, false, not, ◌&&◌, ◌||◌, Option, none, some, List, [],
  Str, str_eq, str_eq_refl, is_empty, load-delete, length, slt, ltb, ◌==◌, if◌then◌else◌,
  Option-cases, inl, inr, arith,
}
use grid_kv.Compress.{Lz4, decompress_to, norm_estimate, max_estimate, decompress_to-compress}
use grid_kv.Storage.Evict.{StoreError, check_and_evict, over, threshold}
use grid_kv.Storage.Item.{StoredItem}
use grid_kv.Storage.Shard.{
  CompressedItem, MemStorage, OpType, put_shard, calculate_item_size, sub_sizes, sizes_of,
}
use grid_kv.Storage.Store.{
  Result, set_item, prepare_item, get_item, read_found, delete_item, shard_of, expired_at,
  taken_out, add_to_sync_buffer, decompress_value, item_value,
}
use grid_kv.Storage.Lookup.{winner, lookup, write, store_item-lookup, lookup-put_shard, same_lookup}

module _ (hash_lo : Str → ℕ) (lz4 : Lz4) where
  -- The item fits below the threshold, so that no entry is evicted for it.
  abbrev pub Fits : Str → StoredItem → MemStorage → Type 0
  Fits key item s =
      over (threshold s) (calculate_item_size key (prepare_item lz4 s item).value) s ≡ false

  pub set_item-write :
      (key : Str) (item : StoredItem) (s : MemStorage)
      → is_empty key ≡ false
      → Fits key item s
      → set_item hash_lo lz4 key (some item) s
        ≡ (none, write hash_lo key (prepare_item lz4 s item) item s)
  unfolding set_item check_and_evict
  set_item-write key item s named fits = ground (arith, fits, named)

  estimate_same :
      (item : CompressedItem)
      → decompress_value lz4 item ≡ decompress_to lz4 item.value item.orig_size
  unfolding decompress_value decompress_to norm_estimate
  estimate_same item = ground arith

  item_value-prepare_item :
      (s : MemStorage) (item : StoredItem)
      → length item.value ≤ max_estimate
      → item_value lz4 (prepare_item lz4 s item) ≡ some item.value
  unfolding item_value prepare_item
  item_value-prepare_item s item h = ground (
    arith,
    estimate_same (prepare_item lz4 s item),
    decompress_to-compress lz4 item.value s.config.compression_threshold h,
  )

  -- `Get` finds a live entry with what its register holds.
  get_item-live :
      (now : ℕ) (key : Str) (item : CompressedItem) (value : List ℕ) (s : MemStorage)
      → is_empty key ≡ false
      → lookup hash_lo key s ≡ some item
      → expired_at now item ≡ false
      → item_value lz4 item ≡ some value
      → (get_item hash_lo lz4 now key s).0
        ≡ Result.ok
            (record { version = item.version; expire_at = item.expire_at; value = value; key = [] })
  unfolding get_item read_found
  get_item-live now key item value s named found live same =
      rw (get_item, named, found, live, same) refl

  wins :
      (o : Option CompressedItem) (item : CompressedItem)
      → ((old : CompressedItem) → o ≡ some old → slt old.version item.version ≡ true)
      → winner o item ≡ item
  wins none item newer = refl
  wins (some old) item newer = rw (newer old refl) refl

  -- After a `Set` for which no room had to be made, `Get` answers with the item that was set, through
  -- compression: for a key that is not empty, an item that is live and newer than the stored one, and
  -- a value of at most 64 MB.
  pub get_item-set_item :
      (now : ℕ) (key : Str) (item : StoredItem) (s : MemStorage)
      → is_empty key ≡ false
      → Fits key item s
      → length item.value ≤ max_estimate
      → ((old : CompressedItem)
          → lookup hash_lo key s ≡ some old
          → slt old.version item.version ≡ true)
      → (item.expire_at == 0) || not (ltb item.expire_at now) ≡ true
      → (get_item hash_lo lz4 now key (set_item hash_lo lz4 key (some item) s).1).0
        ≡ Result.ok (record {
          version = item.version;
          expire_at = item.expire_at;
          value = item.value;
          key = [];
        })
  unfolding prepare_item
  get_item-set_item now key item s named fits short newer live =
      let packed = prepare_item lz4 s item in
      let stored : winner (lookup hash_lo key s) packed ≡ packed =
        wins (lookup hash_lo key s) packed newer in
      let found : lookup hash_lo key (write hash_lo key packed item s) ≡ some packed =
        store_item-lookup hash_lo key key packed item s ∙ rw (str_eq_refl key, stored) refl in
      rw (set_item-write key item s named fits) (
        get_item-live now key packed item.value (write hash_lo key packed item s) named found
          (ground (arith, live)) (item_value-prepare_item s item short))

  -- The stored entry is newer than the version that a client wants deleted; 0 and negative
  -- versions stand for any.
  abbrev pub protects : Option CompressedItem → ℕ → Bool
  protects none version = false
  protects (some item) version = slt 0 version && slt version item.version

  abbrev deleted : Str → CompressedItem → MemStorage → MemStorage
  deleted key item s =
      let i = shard_of hash_lo lz4 key s in
      record (put_shard i
        (add_to_sync_buffer key OpType.op_delete none (taken_out key item (s.shards i))) s) {
          totals = sub_sizes s.totals (sizes_of key item);
        }

  delete_item_absent :
      (key : Str) (version : ℕ) (s : MemStorage)
      → is_empty key ≡ false
      → lookup hash_lo key s ≡ none
      → delete_item hash_lo lz4 key version s ≡ (none, s)
  unfolding delete_item
  delete_item_absent key version s named absent = rw (delete_item, named, absent) refl

  delete_item_found :
      (key : Str) (version : ℕ) (item : CompressedItem) (s : MemStorage)
      → is_empty key ≡ false
      → lookup hash_lo key s ≡ some item
      → delete_item hash_lo lz4 key version s ≡ (
          if protects (some item) version
          then (some StoreError.version_mismatch, s)
          else (none, deleted key item s))
  unfolding delete_item
  delete_item_found key version item s named found = rw (delete_item, named, found) refl

  lookup-deleted :
      (key j : Str) (item : CompressedItem) (s : MemStorage)
      → lookup hash_lo j (deleted key item s) ≡ (if str_eq key j then none else lookup hash_lo j s)
  lookup-deleted key j item s =
      let i = shard_of hash_lo lz4 key s in
      lookup-put_shard hash_lo key j s
        (add_to_sync_buffer key OpType.op_delete none (taken_out key item (s.shards i))) none
        (λ k. load-delete key k (s.shards i).data_map)

  -- The answer of a `Delete` whose key holds `o`, and what it leaves of an entry.
  abbrev pub delete_error : Option CompressedItem → ℕ → Option StoreError
  delete_error o version = if protects o version then some StoreError.version_mismatch else none

  -- `Delete` of a key that is not empty refuses exactly if the stored entry is newer than a positive
  -- version that was given, and then changes no entry; otherwise it removes the entry of its key and
  -- no other.
  pub delete_item-lookup :
      (key j : Str) (version : ℕ) (s : MemStorage)
      → is_empty key ≡ false
      → ((delete_item hash_lo lz4 key version s).0 ≡ delete_error (lookup hash_lo key s) version)
        × (lookup hash_lo j (delete_item hash_lo lz4 key version s).1 ≡ (
            if str_eq key j && not (protects (lookup hash_lo key s) version)
            then none
            else lookup hash_lo j s))
  delete_item-lookup key j version s named = elim (Option-cases (lookup hash_lo key s)) [
    | inl absent ↦ rw (delete_item_absent key version s named absent) (
      ground (arith, absent, same_lookup hash_lo key j s),
      ground (arith, absent, same_lookup hash_lo key j s),
    )
    | inr (item, found) ↦
        rw (delete_item_found key version item s named found)
          (ground (arith, found), ground (arith, found, lookup-deleted key j item s))
  ]

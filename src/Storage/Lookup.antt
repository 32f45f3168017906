-- ===== src/Storage/Lookup.antt =====
-- The store of internal/mem_storage/mem_storage.go as a map of versioned registers.
use grid_kv.Base.{
  ℕ, ◌%◌, ◌≡◌, refl, sym, ◌∙◌, ap, true, Option, none, some, Str, str_eq, str_eq_iff, load, store,
  load-store, slt, slt_asymm, slt_trans, ◌==◌, ==_iff, if◌then◌else◌, Option-cases, ◌⊎◌, inl, inr,
  arith,
}
use grid_kv.Storage.Item.{StoredItem}
use grid_kv.Storage.Shard.{
  CompressedItem, Shard, MemStorage, OpType, put_shard, calculate_item_size, touch_lru, add_sizes,
  sizes_of,
}
use grid_kv.Storage.Store.{
  store_item, store_new_key, update_existing_key, add_to_sync_buffer, replace_sizes,
}

-- The specification: a register keeps the item with the larger version, the first of two equals.
abbrev pub winner : Option CompressedItem → CompressedItem → CompressedItem
winner none item = item
winner (some old) item = if slt old.version item.version then item else old

module _ (hash_lo : Str → ℕ) where
  abbrev pub lookup : Str → MemStorage → Option CompressedItem
  lookup key s = load key (s.shards (hash_lo key % s.config.shard_count)).data_map

  abbrev index : Str → MemStorage → ℕ
  index key s = hash_lo key % s.config.shard_count

  same_index :
      (key j : Str) (s : MemStorage) → str_eq key j ≡ true → (index j s == index key s) ≡ true
  same_index key j s e =
      (==_iff (index j s) (index key s)).1 (ap (λ k. index k s) (sym ((str_eq_iff key j).0 e)))

  -- A key that changes in its shard changes nowhere else.
  pub lookup-put_shard :
      (key j : Str) (s : MemStorage) (shard : Shard) (new : Option CompressedItem)
      → ((k : Str)
          → load k shard.data_map
            ≡ (if str_eq key k then new else load k (s.shards (index key s)).data_map))
      → lookup j (put_shard (index key s) shard s) ≡ (if str_eq key j then new else lookup j s)
  lookup-put_shard key j s shard new law =
      ground (arith, law j, same_index key j s, ==_iff (index j s) (index key s))

  pub same_lookup : (key j : Str) (s : MemStorage) → str_eq key j ≡ true → lookup j s ≡ lookup key s
  same_lookup key j s e = ap (λ k. lookup k s) (sym ((str_eq_iff key j).0 e))

  store_new_key-lookup :
      (key j : Str) (item : CompressedItem) (original : StoredItem) (s : MemStorage)
      → lookup j (store_new_key (index key s) key item original s)
        ≡ (if str_eq key j then some item else lookup j s)
  unfolding store_new_key
  store_new_key-lookup key j item original s =
      lookup-put_shard key j s
        (add_to_sync_buffer key OpType.op_set (some original) (
          touch_lru key (record (s.shards (index key s)) {
            data_map = store key item (s.shards (index key s)).data_map;
            sizes = add_sizes (s.shards (index key s)).sizes (sizes_of key item);
          })))
        (some item) (λ k. load-store key k item (s.shards (index key s)).data_map)

  update_existing_key-lookup :
      (key j : Str) (old item : CompressedItem) (original : StoredItem) (s : MemStorage)
      → lookup key s ≡ some old
      → lookup j (update_existing_key (index key s) key old item original s)
        ≡ (if str_eq key j then some (winner (some old) item) else lookup j s)
  unfolding update_existing_key
  update_existing_key-lookup key j old item original s found =
      let shard = s.shards (index key s) in
      let size = calculate_item_size key item.value in
      ground (
        arith,
        found,
        same_lookup key j s,
        lookup-put_shard key j s
            (add_to_sync_buffer key OpType.op_set (some original) (
              touch_lru key (record shard {
                data_map = store key item shard.data_map;
                sizes = replace_sizes old item size shard.sizes;
              })))
            (some item) (λ k. load-store key k item shard.data_map),
      )

  store_item_absent :
      (key : Str) (item : CompressedItem) (original : StoredItem) (s : MemStorage)
      → lookup key s ≡ none
      → store_item (index key s) key item original s
        ≡ store_new_key (index key s) key item original s
  unfolding store_item
  store_item_absent key item original s absent = rw (store_item, absent) refl

  store_item_found :
      (key : Str) (old item : CompressedItem) (original : StoredItem) (s : MemStorage)
      → lookup key s ≡ some old
      → store_item (index key s) key item original s
        ≡ update_existing_key (index key s) key old item original s
  unfolding store_item
  store_item_found key old item original s found = rw (store_item, found) refl

  -- Storing an item leaves the entry of its key the one with the larger version, the old one
  -- where they are equal, and no other entry changes.
  pub store_item-lookup :
      (key j : Str) (item : CompressedItem) (original : StoredItem) (s : MemStorage)
      → lookup j (store_item (index key s) key item original s)
        ≡ (if str_eq key j then some (winner (lookup key s) item) else lookup j s)
  store_item-lookup key j item original s = elim (Option-cases (lookup key s)) [
    | inl absent ↦
        ap (lookup j) (store_item_absent key item original s absent)
        ∙ store_new_key-lookup key j item original s
        ∙ ap (λ o. if str_eq key j then some (winner o item) else lookup j s) (sym absent)
    | inr (old, found) ↦
        ap (lookup j) (store_item_found key old item original s found)
        ∙ update_existing_key-lookup key j old item original s found
        ∙ ap (λ o. if str_eq key j then some (winner o item) else lookup j s) (sym found)
  ]

  store_item-config :
      (i : ℕ) (key : Str) (item : CompressedItem) (original : StoredItem) (s : MemStorage)
      → (store_item i key item original s).config ≡ s.config
  unfolding store_item store_new_key update_existing_key
  store_item-config i key item original s = ground arith

  abbrev pub write : Str → CompressedItem → StoredItem → MemStorage → MemStorage
  write key item original s = store_item (index key s) key item original s

  -- A register that meets two items in either order.
  winner_comm :
      (o : Option CompressedItem) (a b : CompressedItem)
      → (slt a.version b.version ≡ true) ⊎ (slt b.version a.version ≡ true)
      → winner (some (winner o a)) b ≡ winner (some (winner o b)) a
  winner_comm none a b apart =
      ground (arith, slt_asymm a.version b.version, slt_asymm b.version a.version)
  winner_comm (some old) a b apart = ground (
    arith,
    slt_asymm a.version b.version,
    slt_asymm b.version a.version,
    slt_trans old.version a.version b.version,
    slt_trans old.version b.version a.version,
  )

  -- Two writes that reach the store in either order leave the same entries, if they are for two keys
  -- or have two versions.
  pub store_item_comm :
      (key key' j : Str) (a b : CompressedItem) (original original' : StoredItem) (s : MemStorage)
      → (str_eq key key' ≡ true
          → (slt a.version b.version ≡ true) ⊎ (slt b.version a.version ≡ true))
      → lookup j (write key' b original' (write key a original s))
        ≡ lookup j (write key a original (write key' b original' s))
  store_item_comm key key' j a b original original' s apart =
      let left = write key a original s in
      let right = write key' b original' s in
      rw
        (
          store_item-lookup key' j b original' left,
          store_item-lookup key j a original s,
          store_item-lookup key key' a original s,
          store_item-lookup key j a original right,
          store_item-lookup key' j b original' s,
          store_item-lookup key' key b original' s,
        )
        (ground (
          arith,
          str_eq_iff key key',
          str_eq_iff key' key,
          str_eq_iff key j,
          str_eq_iff key' j,
          same_lookup key key' s,
          winner_comm (lookup key s) a b,
          apart,
        ))

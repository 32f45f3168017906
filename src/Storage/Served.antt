-- ===== src/Storage/Served.antt =====
-- Runs of single operations of the store of internal/mem_storage/mem_storage.go, and their counters.
use grid_kv.Base.{
  ℕ, ◌*◌, ◌%◌, refl, ◌&&◌, Option, none, some, List, [], ◌∷◌, Str, is_empty, load, slt,
  if◌then◌else◌, if_cases, option_cases,
}
use grid_kv.Compress.{Lz4}
use grid_kv.Storage.Evict.{check_and_evict, run_async_eviction, target, threshold}
use grid_kv.Storage.Item.{StoredItem}
use grid_kv.Storage.Shard.{calculate_item_size, MemStorage, Config, new}
use grid_kv.Storage.Lookup.{lookup}
use grid_kv.Storage.Batch.{clean_key, clean_keys}
use grid_kv.Storage.Store.{
  prepare_item, shard_of, set_item, get_item, read_found, delete_item, expired_at,
}
use grid_kv.Storage.Count.{
  AllCounted, LeavesCounted, removed-IsCounted, same_data-IsCounted, put_shard-AllCounted,
  same_shards-AllCounted, store_item-AllCounted, evict_down-AllCounted, leaves,
  check_and_evict-LeavesCounted,
}

module _ (hash_lo : Str → ℕ) (lz4 : Lz4) where
  set_item-LeavesCounted :
      (key : Str) (item : Option StoredItem) (s : MemStorage)
      → AllCounted s
      → LeavesCounted (set_item hash_lo lz4 key item s)
  unfolding set_item
  set_item-LeavesCounted key none s all = leaves _ _ all
  set_item-LeavesCounted key (some item) s all =
      let packed = prepare_item lz4 s item in
      let size = calculate_item_size key packed.value in
      let room = if slt 0 s.config.max_memory_mb then check_and_evict size s else (none, s) in
      let fine : LeavesCounted room =
        if_cases LeavesCounted (slt 0 s.config.max_memory_mb) (check_and_evict size s) (none, s)
          (λ limited. check_and_evict-LeavesCounted size s all) (λ unlimited. leaves none s all) in
      if_cases LeavesCounted (is_empty key) _ _ (λ unnamed. leaves _ _ all)
        (λ named.
          option_cases LeavesCounted room.0 _ _
            (λ free. leaves _ _ (
              store_item-AllCounted (shard_of hash_lo lz4 key room.1) key packed item room.1
                fine.state))
            (λ e full. leaves _ _ fine.state))

  get_item-LeavesCounted :
      (now : ℕ) (key : Str) (s : MemStorage)
      → AllCounted s
      → LeavesCounted (get_item hash_lo lz4 now key s)
  unfolding get_item read_found
  get_item-LeavesCounted now key s all =
      let i = hash_lo key % s.config.shard_count in
      if_cases LeavesCounted (is_empty key) _ _ (λ unnamed. leaves _ _ all)
        (λ named.
          option_cases LeavesCounted (lookup hash_lo key s) _ _
            (λ absent. leaves _ _ (same_shards-AllCounted s _ all refl))
            (λ item found.
              if_cases LeavesCounted (expired_at now item) _ _
                (λ gone. leaves _ _ (
                  put_shard-AllCounted i _ s _
                    (removed-IsCounted key item (s.shards i) _ (all.each i) found refl refl) all
                    refl))
                (λ live. leaves _ _ (
                  put_shard-AllCounted i _ s _
                    (same_data-IsCounted (s.shards i) _ (all.each i) refl refl) all refl))))

  delete_item-LeavesCounted :
      (key : Str) (version : ℕ) (s : MemStorage)
      → AllCounted s
      → LeavesCounted (delete_item hash_lo lz4 key version s)
  unfolding delete_item
  delete_item-LeavesCounted key version s all =
      let i = hash_lo key % s.config.shard_count in
      if_cases LeavesCounted (is_empty key) _ _ (λ unnamed. leaves _ _ all)
        (λ named.
          option_cases LeavesCounted (lookup hash_lo key s) _ _ (λ absent. leaves _ _ all)
            (λ item found.
              if_cases LeavesCounted (slt 0 version && slt version item.version) _ _
                (λ kept. leaves _ _ all)
                (λ goes. leaves _ _ (
                  put_shard-AllCounted i _ s _
                    (removed-IsCounted key item (s.shards i) _ (all.each i) found refl refl) all
                    refl))))

  clean_key-AllCounted :
      (now i : ℕ) (key : Str) (s : MemStorage) → AllCounted s → AllCounted (clean_key now i key s)
  unfolding clean_key
  clean_key-AllCounted now i key s all =
      option_cases AllCounted (load key (s.shards i).data_map) _ _ (λ absent. all)
        (λ item found.
          if_cases AllCounted (expired_at now item) _ _
            (λ gone.
              put_shard-AllCounted i _ s _
                (removed-IsCounted key item (s.shards i) _ (all.each i) found refl refl) all refl)
            (λ live. all))

  clean_keys-AllCounted :
      (now i : ℕ) (keys : List Str) (s : MemStorage)
      → AllCounted s
      → AllCounted (clean_keys now i keys s)
  unfolding clean_keys
  clean_keys-AllCounted now i [] s all = all
  clean_keys-AllCounted now i (key ∷ keys) s all =
      clean_keys-AllCounted now i keys (clean_key now i key s)
        (clean_key-AllCounted now i key s all)

  -- What clients and the background tasks do with the store, one after the other.
  pub data Request : Type 0 where
    sets : Str → Option StoredItem → Request
    gets : ℕ → Str → Request
    deletes : Str → ℕ → Request
    cleans : ℕ → ℕ → List Str → Request
    evicts : Request

  abbrev pub serve : Request → MemStorage → MemStorage
  serve (sets key item) s = (set_item hash_lo lz4 key item s).1
  serve (gets now key) s = (get_item hash_lo lz4 now key s).1
  serve (deletes key version) s = (delete_item hash_lo lz4 key version s).1
  serve (cleans now i keys) s = clean_keys now i keys s
  serve evicts s = run_async_eviction s

  abbrev pub serve_all : List Request → MemStorage → MemStorage
  serve_all [] s = s
  serve_all (r ∷ rs) s = serve_all rs (serve r s)

  serve-AllCounted : (r : Request) (s : MemStorage) → AllCounted s → AllCounted (serve r s)
  unfolding run_async_eviction
  serve-AllCounted (sets key item) s all = (set_item-LeavesCounted key item s all).state
  serve-AllCounted (gets now key) s all = (get_item-LeavesCounted now key s all).state
  serve-AllCounted (deletes key version) s all = (delete_item-LeavesCounted key version s all).state
  serve-AllCounted (cleans now i keys) s all = clean_keys-AllCounted now i keys s all
  serve-AllCounted evicts s all =
      let n = s.config.evict_batch_size * 10 in
      if_cases AllCounted (slt 0 s.config.max_memory_mb && slt (threshold s) s.totals.bytes) _ _
        (λ tight. evict_down-AllCounted n 0 (target s) n 0 s all) (λ fits. all)

  serve_all-AllCounted :
      (rs : List Request) (s : MemStorage) → AllCounted s → AllCounted (serve_all rs s)
  serve_all-AllCounted [] s all = all
  serve_all-AllCounted (r ∷ rs) s all =
      serve_all-AllCounted rs (serve r s) (serve-AllCounted r s all)

  -- In a store that `New` made, after any sequence of sets, reads, deletes, cleanings and evictions,
  -- the key counter of each shard is the number of its keys, as an int64, and no key is there twice.
  pub serve_all-new-AllCounted :
      (cpu_count : ℕ) (config : Config) (rs : List Request)
      → AllCounted (serve_all rs (new cpu_count config))
  unfolding new
  serve_all-new-AllCounted cpu_count config rs =
      serve_all-AllCounted rs (new cpu_count config)
        (record { each = λ i. record { distinct = tt; counted = refl } })

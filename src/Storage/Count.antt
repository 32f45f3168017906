-- ===== src/Storage/Count.antt =====
-- What keeps the counter of keys of a shard at the number of its keys.
use grid_kv.Base.{
  ℕ, zero, suc, ◌+◌, ◌%◌, ◌^◌, ◌≡◌, refl, not, none, some, List, [], ◌∷◌, Str, load, store, delete,
  Distinct, store-Distinct, length, delete-Distinct, length-store_new, length-store_found,
  length-delete, add64, sub64, slt, ◌==◌, if_cases, option_cases, arith,
}
use grid_kv.Storage.Evict.{
  evict_keys, Evicted, evict_batch_lru, clamp_evictions, evict_down, check_and_evict,
  check_hard_limit, check_sync, target, threshold, over, max_bytes,
}
use grid_kv.Storage.Item.{StoredItem}
use grid_kv.Storage.Shard.{CompressedItem, Sizes, Shard, MemStorage, put_shard}
use mathlib.Core.List.{reverse}
use grid_kv.Storage.Store.{store_item, store_new_key, update_existing_key}

-- No key twice, and the counter the number of keys, as an int64.
pub record IsCounted (shard : Shard) : Type 0 where
  pub distinct : Distinct shard.data_map
  pub counted : shard.sizes.keys ≡ length shard.data_map % 2 ^ 64

pub removed-IsCounted :
    (key : Str) (item : CompressedItem) (shard after : Shard)
    → IsCounted shard
    → load key shard.data_map ≡ some item
    → after.data_map ≡ delete key shard.data_map
    → after.sizes.keys ≡ sub64 shard.sizes.keys 1
    → IsCounted after
unfolding sub64
removed-IsCounted key item shard after ok found same fewer = record {
  distinct = rw same (delete-Distinct key shard.data_map ok.distinct);
  counted =
      rw same
        (omega (arith, fewer, ok.counted, length-delete key item shard.data_map ok.distinct found));
}

added-IsCounted :
    (key : Str) (item : CompressedItem) (shard after : Shard)
    → IsCounted shard
    → load key shard.data_map ≡ none
    → after.data_map ≡ store key item shard.data_map
    → after.sizes.keys ≡ add64 shard.sizes.keys 1
    → IsCounted after
unfolding add64
added-IsCounted key item shard after ok absent same more = record {
  distinct = rw same (store-Distinct key item shard.data_map ok.distinct);
  counted =
      rw same (omega (arith, more, ok.counted, length-store_new key item shard.data_map absent));
}

replaced-IsCounted :
    (key : Str) (old item : CompressedItem) (shard after : Shard)
    → IsCounted shard
    → load key shard.data_map ≡ some old
    → after.data_map ≡ store key item shard.data_map
    → after.sizes.keys ≡ shard.sizes.keys
    → IsCounted after
replaced-IsCounted key old item shard after ok found same as_many = record {
  distinct = rw same (store-Distinct key item shard.data_map ok.distinct);
  counted =
      rw same
        (omega (arith, as_many, ok.counted, length-store_found key item old shard.data_map found));
}

-- The same of every shard.
pub record AllCounted (s : MemStorage) : Type 0 where
  pub each : (i : ℕ) → IsCounted (s.shards i)

pub put_shard-AllCounted :
    (i : ℕ) (shard : Shard) (s after : MemStorage)
    → IsCounted shard
    → AllCounted s
    → after.shards ≡ (put_shard i shard s).shards
    → AllCounted after
put_shard-AllCounted i shard s after ok all same = record {
  each = λ j.
      rw same
        (if_cases IsCounted (j == i) shard (s.shards j) (λ there. ok) (λ elsewhere. all.each j));
}

pub same_shards-AllCounted :
    (s after : MemStorage) → AllCounted s → after.shards ≡ s.shards → AllCounted after
same_shards-AllCounted s after all same = record { each = λ j. rw same (all.each j) }

pub store_item-AllCounted :
    (i : ℕ) (key : Str) (item : CompressedItem) (original : StoredItem) (s : MemStorage)
    → AllCounted s
    → AllCounted (store_item i key item original s)
unfolding store_item store_new_key update_existing_key
store_item-AllCounted i key item original s all =
    let shard = s.shards i in
    option_cases AllCounted (load key shard.data_map) _ _
      (λ absent.
        put_shard-AllCounted i _ s _
          (added-IsCounted key item shard _ (all.each i) absent refl refl) all refl)
      (λ old found.
        if_cases AllCounted (slt old.version item.version) _ _
          (λ newer.
            put_shard-AllCounted i _ s _
              (replaced-IsCounted key old item shard _ (all.each i) found refl refl) all refl)
          (λ not_newer. same_shards-AllCounted s _ all refl))

evict_keys-IsCounted :
    (left : ℕ) (keys : List Str) (shard : Shard) (totals : Sizes) (count : ℕ)
    → IsCounted shard
    → IsCounted (evict_keys left keys shard totals count).shard
unfolding evict_keys
evict_keys-IsCounted zero keys shard totals count ok = ok
evict_keys-IsCounted (suc left) [] shard totals count ok = ok
evict_keys-IsCounted (suc left) (key ∷ keys) shard totals count ok =
    option_cases (λ (e : Evicted). IsCounted e.shard) (load key shard.data_map) _ _
      (λ absent. evict_keys-IsCounted (suc left) keys shard totals count ok)
      (λ item found.
        evict_keys-IsCounted left keys _ _ (count + 1)
          (removed-IsCounted key item shard _ ok found refl refl))

-- The state after an eviction has the shard that `evict_keys` leaves.
pub same_data-IsCounted :
    (shard after : Shard)
    → IsCounted shard
    → after.data_map ≡ shard.data_map
    → after.sizes ≡ shard.sizes
    → IsCounted after
same_data-IsCounted shard after ok same as_many = record {
  distinct = rw same ok.distinct;
  counted = rw (same, as_many) ok.counted;
}

pub evict_batch_lru-AllCounted :
    (n : ℕ) (s : MemStorage) → AllCounted s → AllCounted (evict_batch_lru n s).1
unfolding evict_batch_lru
evict_batch_lru-AllCounted n s all =
    let i = add64 s.evict_shard_idx 1 % s.config.shard_count in
    let e = evict_keys (clamp_evictions n) (reverse (s.shards i).lru) (s.shards i) s.totals 0 in
    put_shard-AllCounted i (record e.shard { lru = reverse e.rest }) s _
      (same_data-IsCounted e.shard _
        (evict_keys-IsCounted (clamp_evictions n) (reverse (s.shards i).lru) (s.shards i) s.totals 0
          (all.each i))
        refl refl)
      all refl

pub evict_down-AllCounted :
    (fuel size target limit evicted : ℕ) (s : MemStorage)
    → AllCounted s
    → AllCounted (evict_down fuel size target limit evicted s)
unfolding evict_down
evict_down-AllCounted zero size target limit evicted s all = all
evict_down-AllCounted (suc fuel) size target limit evicted s all =
    let round = evict_batch_lru s.config.evict_batch_size s in
    let one = evict_batch_lru-AllCounted s.config.evict_batch_size s all in
    let rest = evict_down-AllCounted fuel size target limit (evicted + round.0) round.1 one in
    ground (arith, all, one, rest)

-- The same of the state that an operation leaves beside its answer.
pub record LeavesCounted {A : Type 0} (p : A × MemStorage) : Type 0 where
  pub state : AllCounted p.1

pub leaves : {A : Type 0} (a : A) (s : MemStorage) → AllCounted s → LeavesCounted (a, s)
leaves a s all = record { state = all }

check_hard_limit-LeavesCounted :
    (size : ℕ) (s : MemStorage) → AllCounted s → LeavesCounted (check_hard_limit size s)
unfolding check_hard_limit
check_hard_limit-LeavesCounted size s all =
    if_cases LeavesCounted (over (max_bytes s) size s) _ _
      (λ hard. leaves _ _ (evict_batch_lru-AllCounted 5 s all)) (λ soft. leaves _ _ all)

check_sync-LeavesCounted :
    (size : ℕ) (s : MemStorage) → AllCounted s → LeavesCounted (check_sync size s)
unfolding check_sync
check_sync-LeavesCounted size s all =
    leaves _ _ (evict_down-AllCounted 200 size (target s) 200 0 s all)

pub check_and_evict-LeavesCounted :
    (size : ℕ) (s : MemStorage) → AllCounted s → LeavesCounted (check_and_evict size s)
unfolding check_and_evict
check_and_evict-LeavesCounted size s all =
    if_cases LeavesCounted (not (over (threshold s) size s)) _ _ (λ fits. leaves _ _ all)
      (λ tight.
        if_cases LeavesCounted (s.config.async_eviction) _ _
          (λ async. check_hard_limit-LeavesCounted size s all)
          (λ sync. check_sync-LeavesCounted size s all))

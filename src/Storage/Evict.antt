-- ===== src/Storage/Evict.antt =====
-- internal/mem_storage/mem_storage.go: eviction. The memory limit and the percentages are small
-- numbers, so that their products do not wrap.
use grid_kv.Base.{
  ℕ, zero, suc, ◌+◌, ◌*◌, ◌/◌, ◌%◌, Bool, not, ◌&&◌, Option, none, some, List, [], ◌∷◌, Str, load,
  delete, add64, slt, ltb, ◌==◌, if◌then◌else◌,
}
use mathlib.Core.List.{reverse}
use grid_kv.Storage.Shard.{Sizes, sub_sizes, sizes_of, Shard, MemStorage, put_shard}

pub data StoreError : Type 0 where
  not_found is_gone version_mismatch memory_limit empty_key nil_item decompress_failed : StoreError

-- The keys of an eviction, oldest first, at most `left` of them stored: a key that is no longer
-- stored only leaves the list.
pub record Evicted : Type 0 where
  pub rest : List Str
  pub shard : Shard
  pub totals : Sizes
  pub count : ℕ

unfoldable pub evict_keys : ℕ → List Str → Shard → Sizes → ℕ → Evicted
evict_keys zero keys shard totals count = record {
  rest = keys;
  shard = shard;
  totals = totals;
  count = count;
}
evict_keys (suc left) [] shard totals count = record {
  rest = [];
  shard = shard;
  totals = totals;
  count = count;
}
evict_keys (suc left) (key ∷ keys) shard totals count = elim (load key shard.data_map) [
  | none ↦ evict_keys (suc left) keys shard totals count
  | some item ↦
      evict_keys left keys
        (record shard {
          data_map = delete key shard.data_map;
          sizes = sub_sizes shard.sizes (sizes_of key item);
        })
        (sub_sizes totals (sizes_of key item)) (count + 1)
]

abbrev pub clamp_evictions : ℕ → ℕ
clamp_evictions n = if slt 0 n then (if slt 100 n then 100 else n) else 1

-- `evictBatchLRU`: the number of items evicted, from the next shard in turn.
unfoldable pub evict_batch_lru : ℕ → MemStorage → ℕ × MemStorage
unfolding evict_keys
evict_batch_lru batch_size s =
    let turn = add64 s.evict_shard_idx 1 in
    let idx = turn % s.config.shard_count in
    let e =
      evict_keys (clamp_evictions batch_size) (reverse (s.shards idx).lru) (s.shards idx) s.totals
        0 in
    (
      e.count,
      record (put_shard idx (record e.shard { lru = reverse e.rest }) s) {
        totals = e.totals;
        evict_count = s.evict_count + e.count;
        evict_shard_idx = turn;
      },
    )

-- `for current+itemSize > target && evicted < limit`: a round that evicts nothing ends it, so
-- `limit` rounds are enough.
unfoldable pub evict_down : ℕ → ℕ → ℕ → ℕ → ℕ → MemStorage → MemStorage
evict_down zero item_size target limit evicted s = s
evict_down (suc fuel) item_size target limit evicted s =
    let (n, s') = evict_batch_lru s.config.evict_batch_size s in
    let rest = evict_down fuel item_size target limit (evicted + n) s' in
    if slt target (add64 s.totals.bytes item_size) && ltb evicted limit
    then (if n == 0 then s' else rest)
    else s

abbrev pub max_bytes : MemStorage → ℕ
max_bytes s = s.config.max_memory_mb * 1024 * 1024

abbrev pub over : ℕ → ℕ → MemStorage → Bool
over limit item_size s = slt limit (add64 s.totals.bytes item_size)

abbrev pub threshold : MemStorage → ℕ
threshold s = max_bytes s * s.config.evict_threshold / 100

abbrev pub target : MemStorage → ℕ
target s = max_bytes s * s.config.evict_target / 100

-- Over the hard limit, with the background eviction on: a quick batch.
unfoldable pub check_hard_limit : ℕ → MemStorage → Option StoreError × MemStorage
check_hard_limit item_size s =
    let (n, s') = evict_batch_lru 5 s in
    if over (max_bytes s) item_size s
    then ((if n == 0 then some StoreError.memory_limit else none), s')
    else (none, s)

-- Synchronous eviction
unfoldable pub check_sync : ℕ → MemStorage → Option StoreError × MemStorage
unfolding evict_down
check_sync item_size s =
    let down = evict_down 200 item_size (target s) 200 0 s in
    ((if over (max_bytes s) item_size down then some StoreError.memory_limit else none), down)

unfoldable pub check_and_evict : ℕ → MemStorage → Option StoreError × MemStorage
unfolding check_hard_limit check_sync
check_and_evict item_size s =
    let hard = check_hard_limit item_size s in
    let sync = check_sync item_size s in
    if not (over (threshold s) item_size s)
    then (none, s)
    else if s.config.async_eviction
    then hard
    else sync

unfoldable pub run_async_eviction : MemStorage → MemStorage
unfolding evict_down
run_async_eviction s =
    if slt 0 s.config.max_memory_mb && slt (threshold s) s.totals.bytes
    then evict_down (s.config.evict_batch_size * 10) 0 (target s) (s.config.evict_batch_size * 10) 0
        s
    else s

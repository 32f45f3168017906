-- ===== src/Storage/Shard.antt =====
-- internal/mem_storage/mem_storage.go: the data of the store, its counters and its LRU lists. Each
-- operation of the store is one atomic step of the model, so the retries of the source's
-- compare-and-swap loops, which repeat a step that another goroutine disturbed, do not appear.
-- Counters that go down are the 64-bit patterns of their int64.
use grid_kv.Base.{
  ℕ, ◌+◌, ◌-◌, ◌*◌, ◌/◌, ◌^◌, Bool, true, Option, List, [], ◌∷◌, Str, str_eq, Map, length, add64,
  sub64, slt, ltb, ◌==◌, if◌then◌else◌,
}
use Prim.Native.Nat.{bit_or}
use grid_kv.Storage.Item.{StoredItem}
use grid_kv.Storage.Buffer.{SyncBuffer, new_buffer}

pub record CompressedItem : Type 0 where
  pub version : ℕ
  pub expire_at : ℕ
  pub value : List ℕ
  pub compressed : Bool
  pub orig_size : ℕ

-- An int; `op_other` holds the numbers that have no name.
pub data OpType : Type 0 where
  op_set op_delete : OpType
  op_other : ℕ → OpType

pub record SyncOperation : Type 0 where
  pub key : Str
  pub op_type : OpType
  pub item : Option StoredItem

-- `keyCount`, `byteCount`, `compressedSize` and `originalSize` of a shard, and `totalKeys`,
-- `totalBytes`, `compressedBytes` and `originalBytes` of the store.
pub record Sizes : Type 0 where
  pub keys : ℕ
  pub bytes : ℕ
  pub packed : ℕ
  pub original : ℕ

abbrev pub no_sizes : Sizes
no_sizes = record { keys = 0; bytes = 0; packed = 0; original = 0 }

abbrev pub add_sizes : Sizes → Sizes → Sizes
add_sizes s d = record {
  keys = add64 s.keys d.keys;
  bytes = add64 s.bytes d.bytes;
  packed = add64 s.packed d.packed;
  original = add64 s.original d.original;
}

abbrev pub sub_sizes : Sizes → Sizes → Sizes
sub_sizes s d = record {
  keys = sub64 s.keys d.keys;
  bytes = sub64 s.bytes d.bytes;
  packed = sub64 s.packed d.packed;
  original = sub64 s.original d.original;
}

-- The lengths, and the overheads of a string, a slice, the struct and the map.
abbrev pub calculate_item_size : Str → List ℕ → ℕ
calculate_item_size key value = length key + length value + 16 + 24 + 72 + 64

-- What one entry adds to the counters.
abbrev pub sizes_of : Str → CompressedItem → Sizes
sizes_of key item = record {
  keys = 1;
  bytes = calculate_item_size key item.value;
  packed = length item.value;
  original = item.orig_size;
}

-- The LRU list starts with the key used last; `keyMap` holds exactly its keys.
pub record Shard : Type 0 where
  pub data_map : Map CompressedItem
  pub lru : List Str
  pub buffer : SyncBuffer SyncOperation
  pub sizes : Sizes

unfoldable pub drop_key : Str → List Str → List Str
drop_key key [] = []
drop_key key (k ∷ ks) = let rest = drop_key key ks in if str_eq k key then rest else k ∷ rest

-- `touchLRU` and `removeFromLRU`
abbrev pub touch_lru : Str → Shard → Shard
touch_lru key shard = record shard { lru = key ∷ drop_key key shard.lru }

abbrev pub remove_from_lru : Str → Shard → Shard
remove_from_lru key shard = record shard { lru = drop_key key shard.lru }

-- `Config`: the numbers are int64 patterns, 0 where the caller chose nothing.
pub record Config : Type 0 where
  pub max_memory_mb : ℕ
  pub shard_count : ℕ
  pub compression_enabled : Bool
  pub compression_threshold : ℕ
  pub evict_threshold : ℕ
  pub evict_target : ℕ
  pub evict_batch_size : ℕ
  pub async_eviction : Bool

abbrev pub default_config : Config
default_config = record {
  max_memory_mb = 512;
  shard_count = 0;
  compression_enabled = true;
  compression_threshold = 64;
  evict_threshold = 85;
  evict_target = 70;
  evict_batch_size = 10;
  async_eviction = true;
}

-- `nextPowerOf2` of a uint64
unfoldable pub smear : ℕ → ℕ → ℕ
smear n k = bit_or n (n / 2 ^ k)

unfoldable pub next_power_of2 : ℕ → ℕ
unfolding smear
next_power_of2 n =
    if n == 0
    then 1
    else add64 (smear (smear (smear (smear (smear (smear (n - 1) 1) 2) 4) 8) 16) 32) 1

-- The shards are numbered below the count in `config`, a power of two, so that the mask
-- `hash & (count - 1)` is a remainder.
pub record MemStorage : Type 0 where
  pub config : Config
  pub shards : ℕ → Shard
  pub totals : Sizes
  pub get_count : ℕ
  pub set_count : ℕ
  pub hit_count : ℕ
  pub miss_count : ℕ
  pub evict_count : ℕ
  pub evict_shard_idx : ℕ

abbrev pub put_shard : ℕ → Shard → MemStorage → MemStorage
put_shard i shard s = record s { shards = (λ j. if j == i then shard else s.shards j) }

abbrev pub empty_shard : ℕ → Shard
empty_shard capacity = record {
  data_map = [];
  lru = [];
  buffer = new_buffer capacity;
  sizes = no_sizes;
}

-- `New`, on a machine with `cpu_count` processors: the effective configuration.
abbrev pub auto_shards : ℕ → ℕ
auto_shards cpu_count =
    let wanted = cpu_count * 8 in
    let at_least = if ltb wanted 256 then 256 else wanted in
    if ltb 4096 at_least then 4096 else at_least

abbrev pub clamp_batch : ℕ → ℕ
clamp_batch n = if n == 0 then 10 else if slt n 1 then 1 else if slt 100 n then 100 else n

abbrev pub effective : ℕ → Config → Config
effective cpu_count c = record {
  max_memory_mb = if slt 0 c.max_memory_mb then c.max_memory_mb else 512;
  shard_count =
      next_power_of2 (if c.shard_count == 0 then auto_shards cpu_count else c.shard_count);
  compression_enabled = c.compression_enabled;
  compression_threshold = if c.compression_threshold == 0 then 64 else c.compression_threshold;
  evict_threshold = if c.evict_threshold == 0 then 85 else c.evict_threshold;
  evict_target = if c.evict_target == 0 then 70 else c.evict_target;
  evict_batch_size = clamp_batch c.evict_batch_size;
  async_eviction = if c.async_eviction then c.async_eviction else true;
}

unfoldable pub new : ℕ → Config → MemStorage
unfolding next_power_of2
new cpu_count c = record {
  config = effective cpu_count c;
  shards = (λ i. empty_shard (next_power_of2 8192));
  totals = no_sizes;
  get_count = 0;
  set_count = 0;
  hit_count = 0;
  miss_count = 0;
  evict_count = 0;
  evict_shard_idx = 0;
}

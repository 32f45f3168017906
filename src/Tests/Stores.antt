-- ===== src/Tests/Stores.antt =====
-- A store with one shard, and a compression that packs blocks of zeros.
use grid_kv.Base.{
  ℕ, ◌+◌, ◌≤◌, ◌≡◌, inl, refl, Bool, true, false, ◌&&◌, Option, none, some, List, [], ◌∷◌, Str,
  str_eq, length, replicate, slt, bias, leb, ◌==◌, add64, sub64, if◌then◌else◌, load, arith,
}
use grid_kv.Compress.{Lz4, compress}
use grid_kv.Storage.Evict.{evict_down}
use grid_kv.Storage.Item.{StoredItem, is_expired, resolve_conflict, windowed_winner}
use grid_kv.Storage.Conflict.{resolve_conflict_last_write_wins}
use grid_kv.Storage.Buffer.{SyncBuffer, new_buffer, drain}
use grid_kv.Storage.Recent.{push_all, push_all-drain}
use grid_kv.Storage.Shard.{
  CompressedItem, Config, default_config, MemStorage, new, empty_shard, no_sizes,
}
use grid_kv.Storage.Store.{Result, set_item, get_item, delete_item, prepare_item}
use grid_kv.Storage.Lookup.{lookup, write, store_item-lookup, store_item_comm}
use grid_kv.Storage.Reads.{get_item-set_item, delete_item-lookup}
use grid_kv.Storage.Answers.{get_answer, get_item-lookup}
use grid_kv.Storage.Rounds.{evict_down_enough}
use grid_kv.Storage.Served.{Request, serve_all, serve_all-new-AllCounted}
use grid_kv.Storage.Count.{AllCounted}

abbrev pub all_zero : List ℕ → Bool
all_zero [] = true
all_zero (b ∷ bs) = (b == 0) && all_zero bs

pub replicate-all_zero : (bs : List ℕ) → all_zero bs ≡ true → replicate (length bs) 0 ≡ bs
replicate-all_zero [] h = refl
replicate-all_zero (b ∷ bs) h = ground (arith, replicate-all_zero bs)

abbrev pub pack : List ℕ → List ℕ
pack bs = if all_zero bs then length bs ∷ [] else []

abbrev pub unpack : List ℕ → ℕ → Option (List ℕ)
unpack [] size = none
unpack (n ∷ ns) size = if leb n size then some (replicate n 0) else none

pub unpack-pack :
    (bs : List ℕ) (size : ℕ)
    → (length (pack bs) == 0) ≡ false
    → length bs ≤ size
    → unpack (pack bs) size ≡ some bs
unpack-pack bs size packed fits = ground (arith, replicate-all_zero bs)

abbrev pub zero_lz4 : Lz4
zero_lz4 = record { compress_block = pack; uncompress_block = unpack; unpacks = unpack-pack }

abbrev pub zeros : List ℕ
zeros = replicate 100 0

abbrev pub key_k : Str
key_k = 107 ∷ []

abbrev pub key_l : Str
key_l = 108 ∷ []

abbrev pub item_at : ℕ → StoredItem
item_at version = record { version = version; expire_at = 0; value = zeros; key = key_k }

resolve_conflict_last_write_wins_example :
    resolve_conflict 9 9 (item_at 5) (some (item_at 6)) ≡ true
unfolding is_expired slt add64
resolve_conflict_last_write_wins_example =
    resolve_conflict_last_write_wins 9 9 (item_at 5) (item_at 6) (omega arith) (omega arith) refl
      refl

won : resolve_conflict 9 9 (item_at 5) (some (item_at 6)) ≡ true
unfolding resolve_conflict slt bias add64 windowed_winner sub64
won = refl

abbrev two_slots : SyncBuffer ℕ
two_slots = new_buffer 2

abbrev three_ops : List ℕ
three_ops = 1 ∷ 2 ∷ 3 ∷ []

push_all-drain_example : (drain (push_all three_ops (new_buffer 2))).0 ≡ 2 ∷ 3 ∷ []
push_all-drain_example = push_all-drain 2 three_ops (omega arith)

abbrev pub key_sum : Str → ℕ
key_sum [] = 0
key_sum (c ∷ s) = c + key_sum s

abbrev small_config : Config
small_config = record default_config { shard_count = 1 }

abbrev pub small_store : MemStorage
small_store = record {
  config = small_config;
  shards = (λ i. empty_shard 2);
  totals = no_sizes;
  get_count = 0;
  set_count = 0;
  hit_count = 0;
  miss_count = 0;
  evict_count = 0;
  evict_shard_idx = 0;
}

abbrev pub packed_at : ℕ → CompressedItem
packed_at version = record {
  version = version;
  expire_at = 0;
  value = zeros;
  compressed = false;
  orig_size = 100;
}

store_item-lookup_example :
    lookup key_sum key_k (write key_sum key_k (packed_at 5) (item_at 5) small_store)
    ≡ some (packed_at 5)
unfolding load str_eq
store_item-lookup_example =
    store_item-lookup key_sum key_k key_k (packed_at 5) (item_at 5) small_store

store_item_comm_example :
    lookup key_sum key_k (
      write key_sum key_k
        (packed_at 6)
        (item_at 6)
        (write key_sum key_k (packed_at 5) (item_at 5) small_store))
    ≡ lookup key_sum key_k (
        write key_sum key_k
          (packed_at 5)
          (item_at 5)
          (write key_sum key_k (packed_at 6) (item_at 6) small_store))
unfolding slt bias
store_item_comm_example =
    store_item_comm key_sum key_k key_k key_k (packed_at 5) (packed_at 6) (item_at 5) (item_at 6)
      small_store (λ same. inl refl)

get_item-set_item_example :
    (get_item key_sum zero_lz4 9 key_k
      (set_item key_sum zero_lz4 key_k (some (item_at 5)) small_store).1).0
    ≡ Result.ok (record { version = 5; expire_at = 0; value = zeros; key = [] })
unfolding slt bias add64 load prepare_item compress
get_item-set_item_example =
    get_item-set_item key_sum zero_lz4 9 key_k (item_at 5) small_store refl refl (omega arith)
      (λ old found. ground (arith, found)) refl

delete_item-lookup_example :
    ((delete_item key_sum zero_lz4 key_k 5 small_store).0 ≡ none)
    × (lookup key_sum key_k (delete_item key_sum zero_lz4 key_k 5 small_store).1 ≡ none)
unfolding load str_eq
delete_item-lookup_example = delete_item-lookup key_sum zero_lz4 key_k key_k 5 small_store refl

abbrev requests : List (Request key_sum zero_lz4)
requests =
    Request.sets key_k (some (item_at 5)) ∷ Request.gets 9 key_k ∷ Request.deletes key_k 0 ∷ []

serve_all-new-AllCounted_example :
    AllCounted (serve_all key_sum zero_lz4 requests (new 4 default_config))
serve_all-new-AllCounted_example =
    serve_all-new-AllCounted key_sum zero_lz4 4 default_config requests

abbrev pub key_store : MemStorage
key_store = (set_item key_sum zero_lz4 key_k (some (item_at 5)) small_store).1

get_item-lookup_example :
    ((get_item key_sum zero_lz4 9 key_k key_store).0
      ≡ get_answer key_sum zero_lz4 9 (lookup key_sum key_k key_store))
    × (lookup key_sum key_l (get_item key_sum zero_lz4 9 key_k key_store).1
        ≡ lookup key_sum key_l key_store)
unfolding str_eq
get_item-lookup_example = get_item-lookup key_sum zero_lz4 9 key_k key_l key_store refl

evict_down_enough_example : evict_down 3 100 0 3 0 key_store ≡ evict_down 5 100 0 3 0 key_store
evict_down_enough_example = evict_down_enough 100 0 3 3 5 0 key_store (omega arith) (omega arith)

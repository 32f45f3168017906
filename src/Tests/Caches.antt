-- ===== src/Tests/Caches.antt =====
-- A cache with shards for two entries each, and a sketch.
use grid_kv.Base.{
  ℕ, ◌≤◌, ◌≡◌, refl, true, false, some, List, [], ◌∷◌, Str, load, delete, store, slt, bias, str_eq,
  add64,
}
use grid_kv.Cache.Aging.{Note, accessed, aged, exact_count, note_all, note_all-covers}
use grid_kv.Cache.Coherence.{CacheCall, sets, gets, deletes, latest, run_cache}
use grid_kv.Cache.Defs.{
  Entry, is_past, new_cache, cache_get, cache_set, cache_delete, cache_shard_of, is_pow2, next_pow2,
}
use grid_kv.Cache.History.{run_cache-latest}
use grid_kv.Cache.Sketch.{estimate, new_tiny_lfu}
use grid_kv.Tests.Stores.{key_sum, key_k, key_l}

abbrev sum_hash : Str → ℕ × ℕ
sum_hash k = (0, key_sum k)

abbrev notes : List Note
notes = accessed key_k true ∷ accessed key_l true ∷ accessed key_k true ∷ aged ∷ []

note_all-covers_example :
    exact_count key_k notes 0 ≤ estimate key_sum key_k (note_all key_sum notes new_tiny_lfu).filter
note_all-covers_example = note_all-covers key_sum key_k notes

abbrev calls : List (CacheCall ℕ)
calls = sets 1 key_k 5 0 ∷ sets 2 key_l 6 0 ∷ deletes key_l ∷ gets 3 key_k ∷ sets 4 key_k 7 10 ∷ []

run_cache-latest_example :
    (e : Entry ℕ) × (load key_k (latest calls []) ≡ some e) × (e.value ≡ 7) × (is_past 9 e ≡ false)
unfolding run_cache cache_get cache_set cache_delete new_cache load delete store cache_shard_of
    is_pow2 next_pow2 slt bias str_eq add64
run_cache-latest_example = run_cache-latest sum_hash key_sum 1 2 calls 9 key_k 7 refl

-- ===== src/Cache/Steps.antt =====
-- internal/utils/cache/ttl_cache.go: each call keeps a cache coherent.
use grid_kv.Base.{
  ℕ, ◌≡◌, refl, Bool, true, false, ◌||◌, Option, some, ◌∷◌, Str, str_eq_refl, is_empty, Map, load,
  store, delete, load-store, arith, if_cases, option_cases,
}
use grid_kv.Cache.Sketch.{estimate}
use grid_kv.Cache.Defs.{
  Entry, Cache, put_cache_shard, with_items, to_front, is_past, room_for, cache_shard_of, cache_get,
  cache_set, cache_delete, cache_expiry,
}
use grid_kv.Cache.Eviction.{load-room_for, room_for-IsShard, to_front-IsShard}
use grid_kv.Cache.Coherence.{
  entry_of, IsCoherent, deleted-IsCoherent, renew-IsCoherent, noted-IsCoherent, idle-IsCoherent,
  absent_after_delete, forget-IsCoherent, load-delete_other, load-store_other, old_entry,
}

module _ {V : Type 0} where
  module _ (hash : Str → ℕ × ℕ) (fnv : Str → ℕ) where
    pub delete-IsCoherent :
        (w : Map (Entry V)) (c : Cache V) (key : Str)
        → IsCoherent hash fnv w c
        → IsCoherent hash fnv (delete key w) (cache_delete hash fnv key c).1
    unfolding cache_delete
    delete-IsCoherent w c key ok =
        if_cases (λ (r : Bool × Cache V). IsCoherent hash fnv (delete key w) r.1)
          (c.closed || is_empty key) _ _
          (λ idle.
            idle-IsCoherent hash fnv w (delete key w) c key ok idle
              (load-delete_other hash fnv w key))
          (λ live.
            option_cases (λ (r : Bool × Cache V). IsCoherent hash fnv (delete key w) r.1)
              (entry_of hash fnv key c) _ _
              (λ absent. absent_after_delete hash fnv w c key ok absent)
              (λ e found. deleted-IsCoherent hash fnv w c key ok))

    pub get-IsCoherent :
        (w : Map (Entry V)) (c : Cache V) (now : ℕ) (key : Str)
        → IsCoherent hash fnv w c
        → IsCoherent hash fnv w (cache_get hash fnv now key c).1
    unfolding cache_get
    get-IsCoherent w c now key ok =
        if_cases (λ (r : Option V × Cache V). IsCoherent hash fnv w r.1) (c.closed || is_empty key)
          _ _ (λ idle. ok)
          (λ live.
            option_cases (λ (r : Option V × Cache V). IsCoherent hash fnv w r.1)
              (entry_of hash fnv key c) _ _ (λ absent. noted-IsCoherent hash fnv w c key false ok)
              (λ e found.
                let i = cache_shard_of hash key c.count in
                if_cases (λ (r : Option V × Cache V). IsCoherent hash fnv w r.1) (is_past now e) _ _
                  (λ gone. forget-IsCoherent hash fnv w c key ok)
                  (λ here.
                    noted-IsCoherent hash fnv w
                      (put_cache_shard i
                        (with_items (to_front key e (c.shards i).items) (c.shards i)) c)
                      key true
                      (renew-IsCoherent hash fnv w w c key e (delete key (c.shards i).items) ok
                        (to_front-IsShard key e e (c.shards i) (ok.shards_ok i) found)
                        (old_entry hash fnv key (c.shards i).items)
                        (ok.latest_only key e (ground arith) (ground arith) found)
                        (λ j other. refl)))))

    pub set-IsCoherent :
        (w : Map (Entry V)) (c : Cache V) (now : ℕ) (key : Str) (value : V) (ttl : ℕ)
        → IsCoherent hash fnv w c
        → IsCoherent hash fnv
            (store key (record { value = value; expire_at = cache_expiry now ttl }) w)
            (cache_set hash fnv now key value ttl c)
    unfolding cache_set
    set-IsCoherent w c now key value ttl ok =
        let i = cache_shard_of hash key c.count in
        let e : Entry V = record { value = value; expire_at = cache_expiry now ttl } in
        let freq : Str → ℕ = λ k. estimate fnv k c.lfu.filter in
        let written : load key (store key e w) ≡ some e =
          rw (load-store key key e w, str_eq_refl key) refl in
        if_cases (λ r. IsCoherent hash fnv (store key e w) r) (c.closed || is_empty key) _ _
          (λ idle.
            idle-IsCoherent hash fnv w (store key e w) c key ok idle
              (λ j h. load-store_other hash fnv w key j e h))
          (λ live.
            option_cases (λ r. IsCoherent hash fnv (store key e w) r) (entry_of hash fnv key c) _ _
              (λ absent.
                noted-IsCoherent hash fnv (store key e w)
                  (put_cache_shard i
                    (with_items ((key, e) ∷ room_for freq key (c.shards i)) (c.shards i)) c)
                  key true
                  (renew-IsCoherent hash fnv w (store key e w) c key e
                    (room_for freq key (c.shards i)) ok
                    (room_for-IsShard freq key (c.shards i) e (ok.shards_ok i) absent)
                    (λ j x h. load-room_for freq key j (c.shards i) x (ok.shards_ok i) h) written
                    (λ j h. load-store_other hash fnv w key j e h)))
              (λ old found.
                renew-IsCoherent hash fnv w (store key e w) c key e (delete key (c.shards i).items)
                  ok (to_front-IsShard key e old (c.shards i) (ok.shards_ok i) found)
                  (old_entry hash fnv key (c.shards i).items) written
                  (λ j h. load-store_other hash fnv w key j e h)))

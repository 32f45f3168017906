-- ===== src/Cache/History.antt =====
-- internal/utils/cache/ttl_cache.go: what a cache answers after any calls.
use grid_kv.Base.{
  ℕ, ◌≡◌, refl, true, false, ◌||◌, ◌==◌, none, some, Bool, List, [], ◌∷◌, Str, str_eq_refl,
  is_empty, Map, load, delete, load-delete, arith, if_cases, option_cases, Bool-cases, Option-cases,
  inl, inr,
}
use grid_kv.Cache.Sketch.{estimate}
use grid_kv.Cache.Defs.{
  Entry, Cache, new_cache, put_cache_shard, with_items, is_past, room_for, cache_shard_of,
  cache_get, cache_set, cache_delete, cache_expiry, clear_cache, close_cache,
}
use grid_kv.Cache.Eviction.{IsShard}
use grid_kv.Cache.Coherence.{
  CacheCall, sets, gets, deletes, clears, closes, latest, run_cache, entry_of, IsCoherent,
}
use grid_kv.Cache.Steps.{get-IsCoherent, set-IsCoherent, delete-IsCoherent}

module _ {V : Type 0} where
  module _ (hash : Str → ℕ × ℕ) (fnv : Str → ℕ) where
    clear-IsCoherent :
        (w : Map (Entry V)) (c : Cache V)
        → IsCoherent hash fnv w c
        → IsCoherent hash fnv [] (clear_cache c)
    unfolding clear_cache load
    clear-IsCoherent w c ok = record {
      shards_ok =
          λ i. record { room = (ok.shards_ok i).room; bounded = omega arith; distinct = tt };
      latest_only = λ j e opened full found. cc;
    }

    close-IsCoherent :
        (w : Map (Entry V)) (c : Cache V)
        → IsCoherent hash fnv w c
        → IsCoherent hash fnv w (close_cache c)
    unfolding close_cache
    close-IsCoherent w c ok = record {
      shards_ok = ok.shards_ok;
      latest_only = λ j e opened full found. cc;
    }

    run-IsCoherent :
        (calls : List (CacheCall V)) (w : Map (Entry V)) (c : Cache V)
        → IsCoherent hash fnv w c
        → IsCoherent hash fnv (latest calls w) (run_cache hash fnv calls c)
    unfolding latest run_cache
    run-IsCoherent [] w c ok = ok
    run-IsCoherent (sets now key value ttl ∷ calls) w c ok =
        run-IsCoherent calls _ (cache_set hash fnv now key value ttl c)
          (set-IsCoherent hash fnv w c now key value ttl ok)
    run-IsCoherent (gets now key ∷ calls) w c ok =
        run-IsCoherent calls w (cache_get hash fnv now key c).1
          (get-IsCoherent hash fnv w c now key ok)
    run-IsCoherent (deletes key ∷ calls) w c ok =
        run-IsCoherent calls (delete key w) (cache_delete hash fnv key c).1
          (delete-IsCoherent hash fnv w c key ok)
    run-IsCoherent (clears ∷ calls) w c ok =
        run-IsCoherent calls [] (clear_cache c) (clear-IsCoherent w c ok)
    run-IsCoherent (closes ∷ calls) w c ok =
        run-IsCoherent calls w (close_cache c) (close-IsCoherent w c ok)

    new-IsCoherent : (shards size : ℕ) → IsCoherent {V = V} hash fnv [] (new_cache shards size)
    unfolding new_cache load
    new-IsCoherent shards size = record {
      shards_ok = λ i. record { room = ground arith; bounded = omega arith; distinct = tt };
      latest_only = λ j e opened full found. cc;
    }

    get-latest :
        (now : ℕ) (key : Str) (w : Map (Entry V)) (c : Cache V) (value : V)
        → IsCoherent hash fnv w c
        → (cache_get hash fnv now key c).0 ≡ some value
        → (e : Entry V) × (load key w ≡ some e) × (e.value ≡ value) × (is_past now e ≡ false)
    unfolding cache_get
    get-latest now key w c value ok h = elim (Bool-cases (c.closed || is_empty key)) [
      | inl idle ↦ absurd (ground arith)
      | inr live ↦ elim (Option-cases (entry_of hash fnv key c)) [
        | inl absent ↦ absurd (ground arith)
        | inr (e, found) ↦ (
          e,
          ok.latest_only key e (ground arith) (ground arith) found,
          ground arith,
          ground arith,
        )
      ]
    ]

    -- After any calls of a new cache, each shard holds at most as many entries as its size, which
    -- is positive, and no key twice.
    pub run_cache-IsShard :
        (shards size : ℕ) (calls : List (CacheCall V)) (i : ℕ)
        → IsShard ((run_cache hash fnv calls (new_cache shards size)).shards i)
    run_cache-IsShard shards size calls i =
        (run-IsCoherent calls [] (new_cache shards size) (new-IsCoherent shards size)).shards_ok i

    -- After any calls of a new cache, a `Get` that finds a value finds the one that was set last
    -- for the key, neither deleted nor cleared since, and not past its expiry.
    pub run_cache-latest :
        (shards size : ℕ) (calls : List (CacheCall V)) (now : ℕ) (key : Str) (value : V)
        → (cache_get hash fnv now key (run_cache hash fnv calls (new_cache shards size))).0
          ≡ some value
        → (e : Entry V) × (load key (latest calls []) ≡ some e)
          × (e.value ≡ value)
          × (is_past now e ≡ false)
    run_cache-latest shards size calls now key value h =
        get-latest now key (latest calls []) (run_cache hash fnv calls (new_cache shards size))
          value (run-IsCoherent calls [] (new_cache shards size) (new-IsCoherent shards size)) h

    -- An open cache whose shard of the key starts with an entry of the key.
    abbrev Holds : Str → Entry V → Cache V → Type 0
    Holds key e c = (c.closed ≡ false) × (entry_of hash fnv key c ≡ some e)

    put_front-Holds :
        (key : Str) (e : Entry V) (rest : Map (Entry V)) (c : Cache V)
        → c.closed ≡ false
        → let i = cache_shard_of hash key c.count in
          Holds key e (put_cache_shard i (with_items ((key, e) ∷ rest) (c.shards i)) c)
    unfolding load
    put_front-Holds key e rest c opened =
        let i = cache_shard_of hash key c.count in
        let same : (i == i) ≡ true = ground arith in (opened, rw (same, str_eq_refl key) refl)

    set-Holds :
        (now : ℕ) (key : Str) (value : V) (ttl : ℕ) (c : Cache V)
        → c.closed ≡ false
        → is_empty key ≡ false
        → Holds key
            (record { value = value; expire_at = cache_expiry now ttl })
            (cache_set hash fnv now key value ttl c)
    unfolding cache_set
    set-Holds now key value ttl c opened full =
        let e : Entry V = record { value = value; expire_at = cache_expiry now ttl } in
        let live : (c.closed || is_empty key) ≡ false = ground arith in
        let i = cache_shard_of hash key c.count in
        if_cases (Holds key e) (c.closed || is_empty key) _ _ (λ idle. absurd (ground arith))
          (λ _.
            option_cases (Holds key e) (entry_of hash fnv key c) _ _
              (λ absent.
                put_front-Holds key e (room_for (λ k. estimate fnv k c.lfu.filter) key (c.shards i))
                  c opened)
              (λ old found. put_front-Holds key e (delete key (c.shards i).items) c opened))

    get-Holds :
        (now : ℕ) (key : Str) (e : Entry V) (c : Cache V)
        → is_empty key ≡ false
        → is_past now e ≡ false
        → Holds key e c
        → (cache_get hash fnv now key c).0 ≡ some e.value
    unfolding cache_get
    get-Holds now key e c full alive holds =
        let live : (c.closed || is_empty key) ≡ false = ground (arith, holds.0) in
        rw (live, holds.1, alive) refl

    -- A `Get` of a key that is not empty finds what the `Set` before it wrote, whatever the cache
    -- held and whatever it had to evict, if the cache is open and the value is not past its expiry.
    pub cache_get-set :
        (now now' : ℕ) (key : Str) (value : V) (ttl : ℕ) (c : Cache V)
        → c.closed ≡ false
        → is_empty key ≡ false
        → is_past now' (record { value = value; expire_at = cache_expiry now ttl }) ≡ false
        → (cache_get hash fnv now' key (cache_set hash fnv now key value ttl c)).0 ≡ some value
    cache_get-set now now' key value ttl c opened full alive =
        get-Holds now' key (record { value = value; expire_at = cache_expiry now ttl })
          (cache_set hash fnv now key value ttl c) full alive
          (set-Holds now key value ttl c opened full)

    -- What `Delete` took out, or left in a closed cache, `Get` does not find.
    pub cache_get-delete :
        (now : ℕ) (key : Str) (c : Cache V)
        → is_empty key ≡ false
        → (cache_get hash fnv now key (cache_delete hash fnv key c).1).0 ≡ none
    unfolding cache_get cache_delete
    cache_get-delete now key c full =
        let i = cache_shard_of hash key c.count in
        let same : (i == i) ≡ true = ground arith in
        if_cases (λ (r : Bool × Cache V). (cache_get hash fnv now key r.1).0 ≡ none)
          (c.closed || is_empty key) _ _ (λ idle. rw idle refl)
          (λ live.
            option_cases (λ (r : Bool × Cache V). (cache_get hash fnv now key r.1).0 ≡ none)
              (entry_of hash fnv key c) _ _ (λ absent. rw (live, absent) refl)
              (λ e found.
                rw (live, same, load-delete key key (c.shards i).items, str_eq_refl key) refl))

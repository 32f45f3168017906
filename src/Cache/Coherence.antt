-- ===== src/Cache/Coherence.antt =====
-- internal/utils/cache/ttl_cache.go beside a map that forgets nothing.
use grid_kv.Base.{
  ℕ, ◌≡◌, refl, sym, ap, ◌∙◌, Bool, true, false, ◌||◌, ◌==◌, Option, none, some, List, [], ◌∷◌, Str,
  str_eq, str_eq_iff, is_empty, Map, load, store, delete, load-store, load-delete, arith, if_cases,
  Bool-cases, inl, inr,
}
use grid_kv.Cache.Defs.{
  Entry, Cache, put_cache_shard, with_items, cache_shard_of, cache_get, cache_set, cache_delete,
  cache_expiry, clear_cache, close_cache, noted,
}
use grid_kv.Cache.Eviction.{IsShard, delete-IsShard}

other_shard :
    (hash : Str → ℕ × ℕ) (key j : Str) (n : ℕ)
    → (cache_shard_of hash key n == cache_shard_of hash j n) ≡ false
    → str_eq key j ≡ false
other_shard hash key j n h =
    ground (arith, str_eq_iff key j, ap (λ k. cache_shard_of hash k n) {x = key} {y = j})

other_than_empty : (key j : Str) → is_empty key ≡ true → is_empty j ≡ false → str_eq key j ≡ false
unfolding str_eq
other_than_empty [] [] h k = cc
other_than_empty [] (c ∷ j) h k = refl
other_than_empty (c ∷ key) j h k = cc

-- The calls of a cache, each with the time that its clock shows.
pub data CacheCall (V : Type 0) : Type 0 where
  sets : ℕ → Str → V → ℕ → CacheCall V
  gets : ℕ → Str → CacheCall V
  deletes : Str → CacheCall V
  clears closes : CacheCall V

module _ {V : Type 0} where
  -- What was written last for each key, and not deleted since.
  unfoldable pub latest : List (CacheCall V) → Map (Entry V) → Map (Entry V)
  latest [] w = w
  latest (sets now key value ttl ∷ calls) w =
      latest calls (store key (record { value = value; expire_at = cache_expiry now ttl }) w)
  latest (gets now key ∷ calls) w = latest calls w
  latest (deletes key ∷ calls) w = latest calls (delete key w)
  latest (clears ∷ calls) w = latest calls []
  latest (closes ∷ calls) w = latest calls w

  module _ (hash : Str → ℕ × ℕ) (fnv : Str → ℕ) where
    abbrev pub after_call : CacheCall V → Cache V → Cache V
    after_call (sets now key value ttl) c = cache_set hash fnv now key value ttl c
    after_call (gets now key) c = (cache_get hash fnv now key c).1
    after_call (deletes key) c = (cache_delete hash fnv key c).1
    after_call clears c = clear_cache c
    after_call closes c = close_cache c

    unfoldable pub run_cache : List (CacheCall V) → Cache V → Cache V
    run_cache [] c = c
    run_cache (call ∷ calls) c = run_cache calls (after_call call c)

    abbrev pub entry_of : Str → Cache V → Option (Entry V)
    entry_of j c = load j (c.shards (cache_shard_of hash j c.count)).items

    -- An open cache holds of a key nothing but what was written last.
    pub record IsCoherent (w : Map (Entry V)) (c : Cache V) : Type 0 where
      pub shards_ok : (i : ℕ) → IsShard (c.shards i)
      pub latest_only :
          (j : Str) (e : Entry V)
          → c.closed ≡ false
          → is_empty j ≡ false
          → entry_of j c ≡ some e
          → load j w ≡ some e

    -- One shard changes.
    put-IsCoherent :
        (w w' : Map (Entry V)) (c : Cache V) (i : ℕ) (items : Map (Entry V))
        → IsCoherent w c
        → IsShard (with_items items (c.shards i))
        → ((j : Str) (e : Entry V)
            → c.closed ≡ false
            → is_empty j ≡ false
            → i ≡ cache_shard_of hash j c.count
            → load j items ≡ some e
            → load j w' ≡ some e)
        → ((j : Str) → ((i == cache_shard_of hash j c.count) ≡ false) → load j w' ≡ load j w)
        → IsCoherent w' (put_cache_shard i (with_items items (c.shards i)) c)
    put-IsCoherent w w' c i items ok shard here there = record {
      shards_ok = λ k. if_cases IsShard (k == i) _ _ (λ _. shard) (λ _. ok.shards_ok k);
      latest_only = λ j e opened full found.
          let k = cache_shard_of hash j c.count in
          elim (Bool-cases (k == i)) [
            | inl same ↦ here j e opened full (ground arith) (rw same at found)
            | inr other ↦
                there j (ground arith) ∙ ok.latest_only j e opened full (rw other at found)
          ];
    }

    pub noted-IsCoherent :
        (w : Map (Entry V)) (c : Cache V) (key : Str) (hit : Bool)
        → IsCoherent w c
        → IsCoherent w (noted hash fnv key hit c)
    noted-IsCoherent w c key hit ok = record {
      shards_ok = ok.shards_ok;
      latest_only = ok.latest_only;
    }

    -- One entry of a shard leaves.
    pub deleted-IsCoherent :
        (w : Map (Entry V)) (c : Cache V) (key : Str)
        → IsCoherent w c
        → let i = cache_shard_of hash key c.count in
          IsCoherent
            (delete key w)
            (put_cache_shard i (with_items (delete key (c.shards i).items) (c.shards i)) c)
    deleted-IsCoherent w c key ok =
        let i = cache_shard_of hash key c.count in
        put-IsCoherent w (delete key w) c i (delete key (c.shards i).items) ok
          (delete-IsShard key (c.shards i) (ok.shards_ok i))
          (λ j e opened full same found.
            let at : entry_of j c ≡ load j (c.shards i).items =
              ap (λ k. load j (c.shards k).items) (sym same) in
            ground (
              arith,
              at,
              ok.latest_only j e opened full,
              load-delete key j (c.shards i).items,
              load-delete key j w,
            ))
          (λ j other. ground (arith, load-delete key j w, other_shard hash key j c.count other))

    -- Fewer entries of one shard.
    pub forget-IsCoherent :
        (w : Map (Entry V)) (c : Cache V) (key : Str)
        → IsCoherent w c
        → let i = cache_shard_of hash key c.count in
          IsCoherent w
            (put_cache_shard i (with_items (delete key (c.shards i).items) (c.shards i)) c)
    forget-IsCoherent w c key ok =
        let i = cache_shard_of hash key c.count in
        put-IsCoherent w w c i (delete key (c.shards i).items) ok
          (delete-IsShard key (c.shards i) (ok.shards_ok i))
          (λ j e opened full same found. ok.latest_only j e opened full (
            ground (
              arith,
              ap (λ k. load j (c.shards k).items) same,
              load-delete key j (c.shards i).items,
            )))
          (λ j other. refl)

    -- A call that a closed cache or an empty key keeps from doing anything.
    pub idle-IsCoherent :
        (w w' : Map (Entry V)) (c : Cache V) (key : Str)
        → IsCoherent w c
        → (c.closed || is_empty key) ≡ true
        → ((j : Str) → str_eq key j ≡ false → load j w' ≡ load j w)
        → IsCoherent w' c
    idle-IsCoherent w w' c key ok idle same = record {
      shards_ok = ok.shards_ok;
      latest_only = λ j e opened full found.
          same j (other_than_empty key j (ground arith) full)
          ∙ ok.latest_only j e opened full found;
    }

    pub load-delete_other :
        (w : Map (Entry V)) (key j : Str) → str_eq key j ≡ false → load j (delete key w) ≡ load j w
    load-delete_other w key j h = rw (load-delete key j w, h) refl

    pub load-store_other :
        (w : Map (Entry V)) (key j : Str) (e : Entry V)
        → str_eq key j ≡ false
        → load j (store key e w) ≡ load j w
    load-store_other w key j e h = rw (load-store key j e w, h) refl

    pub absent_after_delete :
        (w : Map (Entry V)) (c : Cache V) (key : Str)
        → IsCoherent w c
        → entry_of key c ≡ none
        → IsCoherent (delete key w) c
    absent_after_delete w c key ok absent = record {
      shards_ok = ok.shards_ok;
      latest_only = λ j e opened full found.
          let not_key : str_eq key j ≡ false =
            ground (arith, str_eq_iff key j, ap (λ k. entry_of k c) {x = key} {y = j}) in
          load-delete_other w key j not_key ∙ ok.latest_only j e opened full found;
    }

    -- A shard whose front is a new entry of the key, behind it entries that were there.
    pub renew-IsCoherent :
        (w w' : Map (Entry V)) (c : Cache V) (key : Str) (e : Entry V) (rest : Map (Entry V))
        → IsCoherent w c
        → let i = cache_shard_of hash key c.count in
          IsShard (with_items ((key, e) ∷ rest) (c.shards i))
          → ((j : Str) (x : Entry V) → load j rest ≡ some x → load j (c.shards i).items ≡ some x)
          → load key w' ≡ some e
          → ((j : Str) → str_eq key j ≡ false → load j w' ≡ load j w)
          → IsCoherent w' (put_cache_shard i (with_items ((key, e) ∷ rest) (c.shards i)) c)
    unfolding load
    renew-IsCoherent w w' c key e rest ok shard old written same =
        let i = cache_shard_of hash key c.count in
        put-IsCoherent w w' c i ((key, e) ∷ rest) ok shard
          (λ j x opened full at found. elim (Bool-cases (str_eq key j)) [
            | inl this ↦
                let k : key ≡ j = (str_eq_iff key j).0 this in
                ap (λ k. load k w') (sym k) ∙ written ∙ rw (this, load) at found
            | inr other ↦
                let found' : load j rest ≡ some x = rw (other, load) at found in
                same j other
                ∙ ok.latest_only j x opened full
                    (ap (λ k. load j (c.shards k).items) (sym at) ∙ old j x found')
          ])
          (λ j other. same j (other_shard hash key j c.count other))

    pub old_entry :
        (key : Str) (items : Map (Entry V)) (j : Str) (x : Entry V)
        → load j (delete key items) ≡ some x
        → load j items ≡ some x
    old_entry key items j x h = ground (arith, load-delete key j items)

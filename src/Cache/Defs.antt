-- ===== src/Cache/Defs.antt =====
-- internal/utils/cache/ttl_cache.go: the cache. The hash (xxh3) is a library, and so a parameter.
-- The map `items` and the linked list of a shard hold the same entries, so that one list from the
-- head of the linked list stands for both; each operation is one atomic step. A nil cache is the
-- business of the callers, `none` there.
use grid_kv.Base.{
  ℕ, zero, suc, ◌+◌, ◌-◌, ◌*◌, ◌/◌, ◌%◌, ◌^◌, Bool, true, false, ◌&&◌, ◌||◌, Option, none, some, [],
  ◌∷◌, Str, is_empty, Map, load, delete, length, slt, leb, ltb, ◌==◌, add64, if◌then◌else◌,
}
use Prim.Native.Nat.{bit_or, bit_and, bit_xor}
use mathlib.Core.List.{reverse}
use grid_kv.Cache.Sketch.{TinyLfu, estimate, record_access, new_tiny_lfu}

-- `expire_at` is an int64, 0 for none.
pub record Entry (V : Type 0) : Type 0 where
  pub value : V
  pub expire_at : ℕ

pub record CacheShard (V : Type 0) : Type 0 where
  pub items : Map (Entry V)
  pub max_size : ℕ

-- The shards are numbered below `count`, a power of two, so that the mask is a remainder.
pub record Cache (V : Type 0) : Type 0 where
  pub shards : ℕ → CacheShard V
  pub count : ℕ
  pub closed : Bool
  pub lfu : TinyLfu

unfoldable pub is_pow2 : ℕ → Bool
is_pow2 n = slt 0 n && (bit_and n (n - 1) == 0)

abbrev or_shift : ℕ → ℕ → ℕ
or_shift n k = bit_or n (n / 2 ^ k)

-- `nextPow2` of a positive int
unfoldable pub next_pow2 : ℕ → ℕ
next_pow2 n =
    if leb n 1
    then 1
    else add64
        (or_shift (or_shift (or_shift (or_shift (or_shift (or_shift (n - 1) 1) 2) 4) 8) 16) 32) 1

abbrev pub shard_count : ℕ → ℕ
shard_count shards =
    let wanted = if slt 0 shards then shards else 256 in
    if is_pow2 wanted then wanted else next_pow2 wanted

abbrev pub shard_size : ℕ → ℕ → ℕ
shard_size shards size =
    let total = if slt 0 size then size else 10000 in
    let share = total / shard_count shards in if ltb share 1 then 1 else share

-- `New`; the options are int64 patterns.
unfoldable pub new_cache : {V : Type 0} → ℕ → ℕ → Cache V
unfolding is_pow2 next_pow2 new_tiny_lfu
new_cache shards size = record {
  shards = (λ i. record { items = []; max_size = shard_size shards size });
  count = shard_count shards;
  closed = false;
  lfu = new_tiny_lfu;
}

-- `getShard`: `hash` gives the low and the high half of the 128 bits.
unfoldable pub cache_shard_of : (Str → ℕ × ℕ) → Str → ℕ → ℕ
cache_shard_of hash key count = bit_xor ((hash key).0 * 2 % 2 ^ 64) (hash key).1 % 2 ^ 32 % count

abbrev pub cache_expiry : ℕ → ℕ → ℕ
cache_expiry now ttl = if slt 0 ttl then add64 now ttl else 0

module _ {V : Type 0} where
  abbrev pub put_cache_shard : ℕ → CacheShard V → Cache V → Cache V
  put_cache_shard i shard c = record c { shards = (λ j. if j == i then shard else c.shards j) }

  abbrev pub with_items : Map (Entry V) → CacheShard V → CacheShard V
  with_items items shard = record shard { items = items }

  -- `moveToFront`, which first takes the entry out
  abbrev pub to_front : Str → Entry V → Map (Entry V) → Map (Entry V)
  to_front key e items = (key, e) ∷ delete key items

  abbrev pub is_past : ℕ → Entry V → Bool
  is_past now e = slt 0 e.expire_at && slt e.expire_at now

  -- The search for a victim, from `current` towards the head: an entry seen less often than the
  -- new one. It stops in front of the head.
  unfoldable pub find_victim : (Str → ℕ) → ℕ → Str → Str → Map (Entry V) → Str
  find_victim freq new_freq oldest current [] =
      if ltb (freq current) new_freq then current else oldest
  find_victim freq new_freq oldest current ((key, e) ∷ rest) =
      let more = find_victim freq new_freq oldest key rest in
      if ltb (freq current) new_freq then current else (elim rest [ [] ↦ oldest | _ ∷ _ ↦ more ])

  -- `items` from the tail on
  unfoldable pub choose_victim : (Str → ℕ) → Str → Map (Entry V) → Option Str
  unfolding find_victim
  choose_victim freq key [] = none
  choose_victim freq key ((oldest, e) ∷ rest) = some (
      if ltb (freq key) (freq oldest)
      then find_victim freq (freq key) oldest oldest rest
      else oldest)

  abbrev pub evict : Option Str → Map (Entry V) → Map (Entry V)
  evict none items = items
  evict (some victim) items = delete victim items

  -- A full shard loses one entry for a new key.
  unfoldable pub room_for : (Str → ℕ) → Str → CacheShard V → Map (Entry V)
  unfolding choose_victim
  room_for freq key shard =
      if ltb 0 shard.max_size && leb shard.max_size (length shard.items)
      then evict (choose_victim freq key (reverse shard.items)) shard.items
      else shard.items

  -- `Close`
  unfoldable pub close_cache : Cache V → Cache V
  close_cache c = record c { closed = true }

  -- `Clear`
  unfoldable pub clear_cache : Cache V → Cache V
  clear_cache c = record c { shards = (λ i. with_items [] (c.shards i)) }

  abbrev count_items : ℕ → (ℕ → CacheShard V) → ℕ
  count_items zero shards = 0
  count_items (suc n) shards = count_items n shards + length (shards n).items

  -- `Len`
  unfoldable pub cache_len : Cache V → ℕ
  cache_len c = count_items c.count c.shards

  module _ (hash : Str → ℕ × ℕ) (fnv : Str → ℕ) where
    abbrev pub noted : Str → Bool → Cache V → Cache V
    noted key hit c = record c { lfu = record_access fnv key hit c.lfu }

    abbrev pub cache_found : ℕ → ℕ → Str → Entry V → Cache V → Option V × Cache V
    cache_found now i key e c =
        let shard = c.shards i in
        if is_past now e
        then (none, put_cache_shard i (with_items (delete key shard.items) shard) c)
        else (
          some e.value,
          noted key true (put_cache_shard i (with_items (to_front key e shard.items) shard) c),
        )

    -- `Get`, when the clock shows `now`
    unfoldable pub cache_get : ℕ → Str → Cache V → Option V × Cache V
    unfolding cache_shard_of
    cache_get now key c =
        let i = cache_shard_of hash key c.count in
        if c.closed || is_empty key then (none, c) else elim (load key (c.shards i).items) [
          | none ↦ (none, noted key false c)
          | some e ↦ cache_found now i key e c
        ]

    -- `Delete`, and `Del`, which has no result
    unfoldable pub cache_delete : Str → Cache V → Bool × Cache V
    unfolding cache_shard_of
    cache_delete key c =
        let i = cache_shard_of hash key c.count in
        let shard = c.shards i in
        if c.closed || is_empty key then (false, c) else elim (load key shard.items) [
          | none ↦ (false, c)
          | some e ↦ (true, put_cache_shard i (with_items (delete key shard.items) shard) c)
        ]

    -- `Set`; the time to live is an int64.
    unfoldable pub cache_set : ℕ → Str → V → ℕ → Cache V → Cache V
    unfolding room_for cache_shard_of
    cache_set now key value ttl c =
        let i = cache_shard_of hash key c.count in
        let shard = c.shards i in
        let e : Entry V = record { value = value; expire_at = cache_expiry now ttl } in
        if c.closed || is_empty key then c else elim (load key shard.items) [
          | some old ↦ put_cache_shard i (with_items (to_front key e shard.items) shard) c
          | none ↦ noted key true (
              put_cache_shard i
                (with_items ((key, e) ∷ room_for (λ k. estimate fnv k c.lfu.filter) key shard)
                  shard)
                c)
        ]

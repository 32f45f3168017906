-- ===== src/Storage/Answers.antt =====
-- What `Get` shows a client on each of its branches.
use grid_kv.Base.{
  ◌+◌, sub64, ==_iff, delete, Bool-cases, ℕ, ◌≡◌, refl, ◌∙◌, Bool, true, false, ◌&&◌, Option, none,
  some, Str, str_eq, is_empty, load-delete, if◌then◌else◌, Option-cases, inl, inr, arith,
}
use grid_kv.Compress.{Lz4}
use grid_kv.Storage.Evict.{StoreError}
use grid_kv.Storage.Item.{StoredItem}
use grid_kv.Storage.Shard.{touch_lru, remove_from_lru, CompressedItem, MemStorage, put_shard}
use grid_kv.Storage.Store.{
  drop_expired, answer, Result, get_item, read_found, shard_of, expired_at, item_value,
}
use grid_kv.Storage.Lookup.{lookup, lookup-put_shard}

module _ (hash_lo : Str → ℕ) (lz4 : Lz4) where
  -- What `Get` answers, and whether it drops the entry, for what the register holds.
  abbrev pub get_answer : ℕ → Option CompressedItem → Result StoredItem
  get_answer now none = Result.err StoreError.not_found
  get_answer now (some item) =
      if expired_at now item
      then Result.err StoreError.is_gone
      else answer lz4 item (item_value lz4 item)

  abbrev pub is_over : ℕ → Option CompressedItem → Bool
  is_over now none = false
  is_over now (some item) = expired_at now item

  get_item_absent :
      (now : ℕ) (key : Str) (s : MemStorage)
      → is_empty key ≡ false
      → lookup hash_lo key s ≡ none
      → get_item hash_lo lz4 now key s ≡ (
        Result.err StoreError.not_found,
        record s { miss_count = s.miss_count + 1; get_count = s.get_count + 1 },
      )
  unfolding get_item
  get_item_absent now key s named absent = rw (get_item, named, absent) refl

  get_item_found :
      (now : ℕ) (key : Str) (item : CompressedItem) (s : MemStorage)
      → is_empty key ≡ false
      → lookup hash_lo key s ≡ some item
      → get_item hash_lo lz4 now key s ≡ read_found lz4 now (shard_of hash_lo lz4 key s) key item s
  unfolding get_item
  get_item_found now key item s named found = rw (get_item, named, found) refl

  lookup-drop_expired :
      (key j : Str) (s : MemStorage)
      → lookup hash_lo j (drop_expired (shard_of hash_lo lz4 key s) key s)
        ≡ (if str_eq key j then none else lookup hash_lo j s)
  lookup-drop_expired key j s =
      let shard = s.shards (shard_of hash_lo lz4 key s) in
      lookup-put_shard hash_lo key j s
        (remove_from_lru key (record shard {
          data_map = delete key shard.data_map;
          sizes = record shard.sizes { keys = sub64 shard.sizes.keys 1 };
        }))
        none (λ k. load-delete key k shard.data_map)

  lookup-touch_lru :
      (key j : Str) (s : MemStorage)
      → lookup hash_lo j (
          put_shard
            (shard_of hash_lo lz4 key s)
            (touch_lru key (s.shards (shard_of hash_lo lz4 key s)))
            s)
        ≡ lookup hash_lo j s
  lookup-touch_lru key j s =
      ground (arith, ==_iff (shard_of hash_lo lz4 j s) (shard_of hash_lo lz4 key s))

  if_and_true :
      (c : Bool) (o : Option CompressedItem)
      → (if c then none else o) ≡ (if c && true then none else o)
  if_and_true c o = ground arith

  if_and_false : (c : Bool) (o : Option CompressedItem) → o ≡ (if c && false then none else o)
  if_and_false c o = ground arith

  read_found-lookup :
      (now : ℕ) (key j : Str) (item : CompressedItem) (s : MemStorage)
      → let r = read_found lz4 now (shard_of hash_lo lz4 key s) key item s in
        (r.0 ≡ get_answer now (some item))
        × (lookup hash_lo j r.1
            ≡ (if str_eq key j && expired_at now item then none else lookup hash_lo j s))
  unfolding read_found
  read_found-lookup now key j item s = elim (Bool-cases (expired_at now item)) [
    | inl gone ↦
        rw gone
          (refl, lookup-drop_expired key j s ∙ if_and_true (str_eq key j) (lookup hash_lo j s))
    | inr live ↦
        rw live (refl, lookup-touch_lru key j s ∙ if_and_false (str_eq key j) (lookup hash_lo j s))
  ]

  -- `Get` of a key that is not empty answers with what the register holds: not found, expired, or
  -- the item with its bytes unpacked; it removes the entry of its key if that has expired, and
  -- changes no other entry.
  pub get_item-lookup :
      (now : ℕ) (key j : Str) (s : MemStorage)
      → is_empty key ≡ false
      → ((get_item hash_lo lz4 now key s).0 ≡ get_answer now (lookup hash_lo key s))
        × (lookup hash_lo j (get_item hash_lo lz4 now key s).1 ≡ (
            if str_eq key j && is_over now (lookup hash_lo key s)
            then none
            else lookup hash_lo j s))
  get_item-lookup now key j s named = elim (Option-cases (lookup hash_lo key s)) [
    | inl absent ↦
        rw (get_item_absent now key s named absent, absent)
          (refl, if_and_false (str_eq key j) (lookup hash_lo j s))
    | inr (item, found) ↦
        rw (get_item_found now key item s named found, found) (read_found-lookup now key j item s)
  ]

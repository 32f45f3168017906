-- ===== src/Reader/Refill.antt =====
-- `Get` of internal/cluster/reader.go: an item from a replica is served from the cache next.
use grid_kv.Base.{
  ℕ, ◌≡◌, sym, ap, ◌∙◌, false, Option, none, some, Str, is_empty, inl, inr, Bool-cases,
  Option-cases, option_cases, arith,
}
use grid_kv.Cache.Defs.{Cache, cache_get, cache_set, cache_expiry, is_past}
use grid_kv.Cache.History.{cache_get-set}
use grid_kv.Node.{Libs, Node, targets_of, read_cache, fill_cache}
use grid_kv.Reader.Defs.{
  Reader, ReadResult, found, is_miss, remote_targets, first_value, read_remote, after_store, read,
}
use grid_kv.Reader.Sources.{cached_item, stored_item, missed, read-missed, read_hit}
use grid_kv.Storage.Evict.{StoreError}
use grid_kv.Storage.Item.{StoredItem, deep_copy}
use grid_kv.Storage.Store.{Result}

module _ (libs : Libs) where
  fill_cache-some :
      (now : ℕ) (key : Str) (x : StoredItem) (ttl : ℕ) (node : Node) (c : Cache StoredItem)
      → node.cache ≡ some c
      → (fill_cache libs now key x ttl node).cache
        ≡ some (cache_set libs.cache_hash libs.fnv now key x ttl c)
  unfolding fill_cache
  fill_cache-some now key x ttl node c has =
      option_cases
        (λ (n : Node). n.cache ≡ some (cache_set libs.cache_hash libs.fnv now key x ttl c))
        node.cache _ _ (λ absent. absurd (ground arith))
        (λ d is.
          let same : d ≡ c = ground arith in
          ap (λ k. some (cache_set libs.cache_hash libs.fnv now key x ttl k)) same)

  read_remote-fills :
      (now : ℕ) (key : Str) (r : Reader) (x : StoredItem) (c : Cache StoredItem)
      → (read_remote libs now key r).0 ≡ found x
      → r.node.cache ≡ some c
      → (read_remote libs now key r).1.node.cache
        ≡ some (cache_set libs.cache_hash libs.fnv now key x r.cache_ttl c)
  unfolding read_remote deep_copy
  read_remote-fills now key r x c h has = elim (Option-cases r.get_func) [
    | inl absent ↦ absurd (ground arith)
    | inr (get, is) ↦
        let targets = targets_of libs key r.node.replica_count r.node in
        let asked = remote_targets r.node.node_id r.node.member targets in
        elim (Option-cases (first_value (λ t. get t key) asked)) [
          | inl nobody ↦ absurd (ground arith)
          | inr (y, answered) ↦
              let same : y ≡ x = ground arith in
              ground (arith, fill_cache-some now key y r.cache_ttl r.node c has)
        ]
  ]

  after_store-fills :
      (now : ℕ) (key : Str) (r : Reader) (x : StoredItem) (c : Cache StoredItem) (e : StoreError)
      → (after_store libs now key r (Result.err e)).0 ≡ found x
      → r.node.cache ≡ some c
      → (after_store libs now key r (Result.err e)).1.node.cache
        ≡ some (cache_set libs.cache_hash libs.fnv now key x r.cache_ttl c)
  after_store-fills now key r x c e h has = elim (Bool-cases (is_miss e)) [
    | inl miss ↦ rw miss (read_remote-fills now key r x c (rw miss at h) has)
    | inr hard ↦ absurd (ground arith)
  ]

  -- The cache that the read leaves behind on a miss.
  read_cache-some :
      (now : ℕ) (key : Str) (node : Node) (c : Cache StoredItem)
      → node.cache ≡ some c
      → ((read_cache libs now key node).0 ≡ (cache_get libs.cache_hash libs.fnv now key c).0)
        × ((read_cache libs now key node).1.cache
            ≡ some (cache_get libs.cache_hash libs.fnv now key c).1)
  unfolding read_cache
  read_cache-some now key node c has =
      let get = λ (k : Cache StoredItem). cache_get libs.cache_hash libs.fnv now key k in
      option_cases
        (λ (p : Option StoredItem × Node). (p.0 ≡ (get c).0) × (p.1.cache ≡ some (get c).1))
        node.cache _ _ (λ absent. absurd (ground arith))
        (λ d is.
          let same : d ≡ c = ground arith in
          (ap (λ k. (get k).0) same, ap (λ k. some (get k).1) same))

  cache_get-closed :
      (now : ℕ) (key : Str) (c : Cache StoredItem)
      → (cache_get libs.cache_hash libs.fnv now key c).1.closed ≡ c.closed
  unfolding cache_get
  cache_get-closed now key c = ground arith

  -- The item is in the cache.
  abbrev Cached : ℕ → Str → StoredItem → Node → Type 0
  Cached now' key x node = (read_cache libs now' key node).0 ≡ some x

  set_then-Cached :
      (now now' : ℕ) (key : Str) (x : StoredItem) (ttl : ℕ) (node : Node) (c : Cache StoredItem)
      → node.cache ≡ some (cache_set libs.cache_hash libs.fnv now key x ttl c)
      → c.closed ≡ false
      → is_empty key ≡ false
      → is_past now' (record { value = x; expire_at = cache_expiry now ttl }) ≡ false
      → Cached now' key x node
  set_then-Cached now now' key x ttl node c has opened named alive =
      (read_cache-some now' key node _ has).0
      ∙ cache_get-set libs.cache_hash libs.fnv now now' key x ttl c opened named alive

  -- A `Get` that went to the replicas, with a cache that is open, leaves its item in the cache: the
  -- next `Get` at that node returns the same item until it expires in the cache, whatever the
  -- replicas and the store answer by then. The key is not empty.
  pub read_again :
      (now now' : ℕ) (key : Str) (r r' : Reader) (x : StoredItem) (c : Cache StoredItem)
      (e : StoreError)
      → is_empty key ≡ false
      → r.node.cache ≡ some c
      → c.closed ≡ false
      → cached_item libs now key r ≡ none
      → stored_item libs now key r ≡ Result.err e
      → (read libs now key r).0 ≡ found x
      → r'.node.cache ≡ (read libs now key r).1.node.cache
      → is_past now' (record { value = x; expire_at = cache_expiry now r.cache_ttl }) ≡ false
      → (read libs now' key r').0 ≡ found x
  read_again now now' key r r' x c e named has opened uncached unstored answer same alive =
      let is : read libs now key r
          ≡ after_store libs now key (missed libs now key r) (Result.err e) =
        read-missed libs now key r uncached
        ∙ ap (after_store libs now key (missed libs now key r)) unstored in
      let c' = (cache_get libs.cache_hash libs.fnv now key c).1 in
      let kept : (missed libs now key r).node.cache ≡ some c' =
        (read_cache-some now key r.node c has).1 in
      let filled =
        after_store-fills now key (missed libs now key r) x c' e
          (sym (ap (λ (p : ReadResult × Reader). p.0) is) ∙ answer) kept in
      let cached : r'.node.cache
          ≡ some (cache_set libs.cache_hash libs.fnv now key x r.cache_ttl c') =
        same ∙ ap (λ (p : ReadResult × Reader). p.1.node.cache) is ∙ filled in
      read_hit libs now' key r' x (
        set_then-Cached now now' key x r.cache_ttl r'.node c' cached
          (cache_get-closed now key c ∙ opened) named alive)

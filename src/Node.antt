-- ===== src/Node.antt =====
-- What the reader and the writer of a node (internal/cluster/reader.go and writer.go) share, and
-- the third-party functions below them.
use grid_kv.Base.{ℕ, Bool, Option, none, some, List, Str}
use grid_kv.Compress.{Lz4}
use grid_kv.Cache.Defs.{Cache, cache_get, cache_set, cache_delete}
use grid_kv.Member.State.{MemberMgr, node_state}
use grid_kv.Member.Types.{NodeState, state_eq}
use grid_kv.Ring.Defs.{HashRing, get_n}
use grid_kv.Storage.Item.{StoredItem}
use grid_kv.Storage.Shard.{MemStorage}
use grid_kv.Storage.Store.{Result, get_item}

-- xxh3 as the ring, the store and the cache use it, fnv, and LZ4.
pub record Libs : Type 0 where
  pub ring_hash : Str → ℕ
  pub store_hash : Str → ℕ
  pub cache_hash : Str → ℕ × ℕ
  pub fnv : Str → ℕ
  pub lz4 : Lz4

-- `none` for a nil cache or a nil member manager
pub record Node : Type 0 where
  pub node_id : Str
  pub replica_count : ℕ
  pub store : MemStorage
  pub cache : Option (Cache StoredItem)
  pub ring : HashRing
  pub member : Option MemberMgr

module _ (libs : Libs) where
  -- `r.ring.GetN(key, n)`
  abbrev pub targets_of : Str → ℕ → Node → List Str
  targets_of key n node = get_n libs.ring_hash key n node.ring

  -- `r.store.Get(key)`
  abbrev pub read_store : ℕ → Str → Node → Result StoredItem × Node
  read_store now key node =
      let (answer, store) = get_item libs.store_hash libs.lz4 now key node.store in
      (answer, record node { store = store })

  abbrev pub with_answer : Node → Option StoredItem × Cache StoredItem → Option StoredItem × Node
  with_answer node (answer, c) = (answer, record node { cache = some c })

  -- `if r.cache != nil { r.cache.Get(key) }`
  unfoldable pub read_cache : ℕ → Str → Node → Option StoredItem × Node
  unfolding cache_get
  read_cache now key node = elim node.cache [
    | none ↦ (none, node)
    | some c ↦ with_answer node (cache_get libs.cache_hash libs.fnv now key c)
  ]

  -- `if r.cache != nil { r.cache.Set(key, item, ttl) }`
  unfoldable pub fill_cache : ℕ → Str → StoredItem → ℕ → Node → Node
  unfolding cache_set
  fill_cache now key item ttl node = elim node.cache [
    | none ↦ node
    | some c ↦ record node { cache = some (cache_set libs.cache_hash libs.fnv now key item ttl c) }
  ]

  -- `if w.cache != nil { w.cache.Delete(key) }`
  unfoldable pub forget_cached : Str → Node → Node
  unfolding cache_delete
  forget_cached key node = elim node.cache [
    | none ↦ node
    | some c ↦ record node { cache = some (cache_delete libs.cache_hash libs.fnv key c).1 }
  ]

abbrev pub is_alive : Str → MemberMgr → Bool
is_alive id m = state_eq (node_state id m) NodeState.alive

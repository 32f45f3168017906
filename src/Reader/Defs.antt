-- ===== src/Reader/Defs.antt =====
-- internal/cluster/reader.go: the reads. A remote read is a call of `getFunc`, whose answer is an
-- argument; time limits and cancelled contexts, where the reads give up, do not occur, and the
-- executor takes every task. The buffers from the pools are empty when they are taken.
use grid_kv.Base.{
  ℕ, Bool, true, false, not, ◌&&◌, Option, none, some, List, [], ◌∷◌, Str, str_eq, Map, store,
  length, ◌==◌, if◌then◌else◌,
}
use grid_kv.Member.State.{MemberMgr}
use grid_kv.Node.{Libs, Node, targets_of, read_store, read_cache, fill_cache, is_alive}
use grid_kv.Storage.Evict.{StoreError}
use grid_kv.Storage.Item.{StoredItem, is_tombstone, deep_copy}
use grid_kv.Storage.Store.{Result}

-- The answer of a node to a read: an error, nil or an item.
abbrev pub Reply : Type 0
Reply = Result (Option StoredItem)

-- `get_func` is nil or a function of the node's ID and the key; the TTL is an int64.
pub record Reader : Type 0 where
  pub node : Node
  pub cache_ttl : ℕ
  pub get_func : Option (Str → Str → Reply)

-- What a read returns: `panics` stands for a call of a nil member manager.
pub data ReadResult : Type 0 where
  found : StoredItem → ReadResult
  missing : ReadResult
  failed : StoreError → ReadResult
  panics : ReadResult

pub data ConsistencyLevel : Type 0 where
  one quorum all : ConsistencyLevel
  other_level : ℕ → ConsistencyLevel

-- An item that a reader takes for a value.
abbrev pub is_value : StoredItem → Bool
is_value item = not (is_tombstone item) && not (length item.value == 0)

abbrev pub value_of : Reply → Option StoredItem
value_of (Result.err e) = none
value_of (Result.ok none) = none
value_of (Result.ok (some item)) = if is_value item then some item else none

abbrev pub with_copy : Option StoredItem → ReadResult
with_copy none = missing
with_copy (some item) = found item

-- `item.DeepCopy()`, which is a nil for a nil only
abbrev pub copy_of : StoredItem → ReadResult
copy_of item = with_copy (deep_copy (some item))

-- The replicas that `Get` asks: alive, and not the node itself.
unfoldable pub remote_targets : Str → Option MemberMgr → List Str → List Str
remote_targets self member [] = []
remote_targets self member (t ∷ ts) =
    let rest = remote_targets self member ts in
    if str_eq t self
    then rest
    else elim member [ none ↦ t ∷ rest | some m ↦ if is_alive t m then t ∷ rest else rest ]

-- One replica after the other, up to the first that has a value.
unfoldable pub first_value : (Str → Reply) → List Str → Option StoredItem
first_value ask [] = none
first_value ask (t ∷ ts) =
    let rest = first_value ask ts in elim (value_of (ask t)) [ none ↦ rest | some item ↦ some item ]

abbrev pub is_miss : StoreError → Bool
is_miss StoreError.not_found = true
is_miss StoreError.is_gone = true
is_miss _ = false

abbrev pub with_node : Reader → Node → Reader
with_node r node = record r { node = node }

module _ (libs : Libs) where
  -- What `Get` does when neither the cache nor the store has the key.
  unfoldable pub read_remote : ℕ → Str → Reader → ReadResult × Reader
  unfolding remote_targets first_value
  read_remote now key r =
      let targets = targets_of libs key r.node.replica_count r.node in
      elim r.get_func [
        | none ↦ (missing, r)
        | some get ↦
            elim (first_value (λ t. get t key)
              (remote_targets r.node.node_id r.node.member targets)) [
                | none ↦ (missing, r)
                | some item ↦
                    (copy_of item, with_node r (fill_cache libs now key item r.cache_ttl r.node))
              ]
      ]

  abbrev pub after_store : ℕ → Str → Reader → Result StoredItem → ReadResult × Reader
  after_store now key r (Result.ok item) = (found item, r)
  after_store now key r (Result.err e) = if is_miss e then read_remote now key r else (failed e, r)

  -- `Get`
  unfoldable pub read : ℕ → Str → Reader → ReadResult × Reader
  unfolding read_cache read_remote
  read now key r =
      let (cached, node) = read_cache libs now key r.node in
      let (stored, node') = read_store libs now key node in
      elim cached [
        | some item ↦ (copy_of item, with_node r node)
        | none ↦ after_store now key (with_node r node') stored
      ]

  abbrev pub add_found : Str → ReadResult → Map StoredItem → Map StoredItem
  add_found key (found item) m = store key item m
  add_found key _ m = m

  -- `BatchGet`: the reads run in parallel; the model takes them in the order of the keys.
  unfoldable pub batch_read : ℕ → List Str → Map StoredItem → Reader → Map StoredItem × Reader
  unfolding read
  batch_read now [] answers r = (answers, r)
  batch_read now (key ∷ keys) answers r =
      let (result, r') = read now key r in batch_read now keys (add_found key result answers) r'

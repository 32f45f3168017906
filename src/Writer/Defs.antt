-- ===== src/Writer/Defs.antt =====
-- internal/cluster/writer.go: the writer. A flush is a task for the executor, which takes every
-- task: the model notes that one waits, and runs it by a step of its own, as a timer may also ask
-- for one. `Range` over a map visits it in an order of its own choice: `shuffle` is one.
-- The multiples of the batch threshold do not overflow.
use grid_kv.Base.{
  ℕ, ◌+◌, ◌-◌, ◌*◌, ◌/◌, Bool, false, not, ◌||◌, Option, none, some, List, [], ◌∷◌, ◌++◌, Str,
  str_eq, Map, load, store, length, drop, add64, slt, ltb, ◌==◌, if◌then◌else◌,
}
use grid_kv.Hlc.Defs.{Hlc, now}
use grid_kv.Hlc.Version.{hlc_to_int64}
use grid_kv.Node.{Libs, Node, targets_of, forget_cached}
use grid_kv.Storage.Evict.{StoreError}
use grid_kv.Storage.Item.{StoredItem, deep_copy}
use grid_kv.Storage.Shard.{SyncOperation, OpType, MemStorage}
use grid_kv.Storage.Store.{set_item}

-- `flush_pending` is the flag of a flush that waits; the versions are int64 patterns.
pub record Writer : Type 0 where
  pub node : Node
  pub clock : Hlc
  pub batch_threshold : ℕ
  pub batch_count : ℕ
  pub flush_pending : Bool
  pub last_versions : Map ℕ
  pub pending_ops : List SyncOperation

pub data WriteError : Type 0 where
  no_replicas : WriteError
  store_failed : StoreError → WriteError

-- `newWriter` with its defaults; the numbers are int64 patterns.
abbrev pub positive_or : ℕ → ℕ → ℕ
positive_or n default = if slt 0 n then n else default

unfoldable pub new_writer : Node → Hlc → ℕ → Writer
new_writer node clock batch_threshold = record {
  node = record node { replica_count = positive_or node.replica_count 3 };
  clock = clock;
  batch_threshold = positive_or batch_threshold 200;
  batch_count = 0;
  flush_pending = false;
  last_versions = [];
  pending_ops = [];
}

-- `isLocalReplica`
unfoldable pub is_local_replica : Str → List Str → Bool
is_local_replica self [] = false
is_local_replica self (t ∷ ts) = str_eq t self || is_local_replica self ts

-- `triggerBatch`: a flush is asked for where a threshold is reached and none waits yet.
unfoldable pub trigger_batch : Writer → Writer
trigger_batch w =
    let count = add64 w.batch_count 1 in
    let asks =
      not (slt count w.batch_threshold) || ltb (w.batch_threshold * 10) (length w.pending_ops) in
    record w { batch_count = count; flush_pending = w.flush_pending || asks }

abbrev pub operation : Str → OpType → StoredItem → SyncOperation
operation key op_type item = record { key = key; op_type = op_type; item = deep_copy (some item) }

-- One operation for each target that is not the node itself.
unfoldable pub queued : Str → Str → OpType → StoredItem → List Str → List SyncOperation
queued self key op_type item [] = []
queued self key op_type item (t ∷ ts) =
    let rest = queued self key op_type item ts in
    if str_eq t self then rest else operation key op_type item ∷ rest

abbrev pub with_store : Writer → MemStorage → Writer
with_store w s = record w { node = record w.node { store = s } }

abbrev pub put_pending : List SyncOperation → Writer → Writer
put_pending ops w = record w { pending_ops = w.pending_ops ++ ops }

-- `hlcToInt64(w.hlc.Now())`, when the clock shows `wall`
unfoldable pub clock_version : ℕ → Writer → ℕ × Writer
unfolding now hlc_to_int64
clock_version wall w =
    let (clock, text) = now wall w.clock in (hlc_to_int64 wall text, record w { clock = clock })

abbrev max_versions : ℕ
max_versions = 10000

-- The version is made larger than the last one of the key.
abbrev pub raised : ℕ → Option ℕ → ℕ
raised version none = version
raised version (some last) = if slt last version then version else add64 last 1

-- More than 10000 keys: the first ones that `Range` visits leave.
unfoldable pub prune : (Map ℕ → Map ℕ) → Map ℕ → Map ℕ
prune shuffle m =
    if ltb max_versions (length m)
    then drop (length m - max_versions + max_versions / 5) (shuffle m)
    else m

unfoldable pub next_version : (Map ℕ → Map ℕ) → ℕ → Str → Writer → ℕ × Writer
unfolding clock_version prune
next_version shuffle wall key w =
    let (version, w') = clock_version wall w in
    let chosen = raised version (load key w.last_versions) in
    (chosen, record w' { last_versions = prune shuffle (store key chosen w.last_versions) })

abbrev pub stamped : Str → ℕ → StoredItem → StoredItem
stamped key version item = record {
  version = version;
  expire_at = item.expire_at;
  value = item.value;
  key = key;
}

-- The version of a deletion: after the given one, and positive.
abbrev pub tombstone_version : ℕ → ℕ → ℕ
tombstone_version version given =
    let later = if slt given version then version else add64 given 1 in
    if slt 0 later then later else 1

abbrev pub tombstone : Str → ℕ → StoredItem
tombstone key version = record { version = version; expire_at = 0; value = []; key = key }

-- `if err := w.storeOrQueue(…); err != nil { return err }; w.triggerBatch(); return nil`
abbrev pub then_trigger : Option WriteError × Writer → Option WriteError × Writer
then_trigger (some e, w) = (some e, w)
then_trigger (none, w) = (none, trigger_batch w)

module _ (libs : Libs) where
  abbrev pub set_store : Str → StoredItem → Writer → Option StoreError × Writer
  set_store key item w =
      let (error, s) = set_item libs.store_hash libs.lz4 key (some item) w.node.store in
      (error, with_store w s)

  abbrev pub forget : Str → Writer → Writer
  forget key w = record w { node = forget_cached libs key w.node }

  abbrev pub replicas : Str → Writer → List Str
  replicas key w = targets_of libs key w.node.replica_count w.node

  -- The end of `storeOrQueue`, where the store took the item.
  abbrev pub queue_for : Str → StoredItem → OpType → List Str → Writer → Writer
  queue_for key item op_type targets w =
      forget key (trigger_batch (put_pending (queued w.node.node_id key op_type item targets) w))

  unfoldable pub store_or_queue : Str → StoredItem → OpType → Writer → Option WriteError × Writer
  unfolding set_item trigger_batch queued forget_cached
  store_or_queue key item op_type w =
      let (error, w') = set_store key item w in
      elim (replicas key w) [
        | [] ↦ (some no_replicas, w)
        | t ∷ ts ↦ elim error [
          | some e ↦ (some (store_failed e), w')
          | none ↦ (none, queue_for key item op_type (t ∷ ts) w')
        ]
      ]

  -- `Set`
  unfoldable pub write_key :
      (Map ℕ → Map ℕ) → ℕ → Str → StoredItem → Writer → Option WriteError × Writer
  unfolding store_or_queue next_version
  write_key shuffle wall key item w =
      let (version, w') = next_version shuffle wall key w in
      then_trigger (store_or_queue key (stamped key version item) OpType.op_set w')

  -- `Delete`
  unfoldable pub delete_key : ℕ → Str → ℕ → Writer → Option WriteError × Writer
  unfolding store_or_queue clock_version
  delete_key wall key given w =
      let (version, w') = clock_version wall w in
      then_trigger
        (store_or_queue key (tombstone key (tombstone_version version given)) OpType.op_delete w')

  -- One item of `BatchSet`.
  unfoldable pub write_one : ℕ → Str → StoredItem → Writer → Writer
  unfolding set_item is_local_replica forget_cached
  write_one version key item w =
      let new_item = stamped key version item in
      elim (replicas key w) [
        | [] ↦ w
        | t ∷ ts ↦
            if is_local_replica w.node.node_id (t ∷ ts)
            then forget key (set_store key new_item w).1
            else put_pending (operation key OpType.op_set new_item ∷ []) w
      ]

  unfoldable pub write_each : ℕ → Map StoredItem → Writer → Writer
  unfolding write_one
  write_each version [] w = w
  write_each version ((key, item) ∷ items) w =
      write_each version items (write_one version key item w)

  -- `BatchSet`, which gives no error
  unfoldable pub batch_write : ℕ → Map StoredItem → Writer → Writer
  unfolding write_each clock_version trigger_batch
  batch_write wall items w =
      let (version, w') = clock_version wall w in
      if length items == 0 then w else trigger_batch (write_each version items w')

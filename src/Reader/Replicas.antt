-- ===== src/Reader/Replicas.antt =====
-- internal/cluster/reader.go: the reads that ask several replicas, `GetSpeculative` and
-- `GetWithConsistency`.
use grid_kv.Base.{
  ℕ, zero, suc, ◌+◌, ◌/◌, Bool, true, false, ◌&&◌, ◌||◌, Option, none, some, List, [], ◌∷◌, ◌++◌,
  Str, str_eq, is_empty, length, slt, ltb, ◌==◌, if◌then◌else◌,
}
use mathlib.Core.List.{filter_map}
use grid_kv.Member.State.{MemberMgr}
use grid_kv.Reader.Defs.{
  Reply, Reader, ReadResult, missing, failed, panics, ConsistencyLevel, one, quorum, all,
  other_level, value_of, copy_of, with_node,
}
use grid_kv.Node.{Libs, targets_of, read_store, read_cache, fill_cache, is_alive}
use grid_kv.Storage.Item.{StoredItem, Sign, compare_version}
use grid_kv.Storage.Store.{Result}

-- The targets of the other two reads: alive, or the node itself.
unfoldable pub alive_targets : Str → MemberMgr → List Str → List Str
alive_targets self m [] = []
alive_targets self m (t ∷ ts) =
    let rest = alive_targets self m ts in if is_alive t m || str_eq t self then t ∷ rest else rest

abbrev pub as_reply : Result StoredItem → Reply
as_reply (Result.ok item) = Result.ok (some item)
as_reply (Result.err e) = Result.err e

module _ (libs : Libs) where
  -- The answer of one target; a nil `getFunc` leaves nil and no error.
  unfoldable pub ask_target : ℕ → Str → Str → Reader → Reply × Reader
  ask_target now key t r =
      let (answer, node) = read_store libs now key r.node in
      if str_eq t r.node.node_id
      then (as_reply answer, with_node r node)
      else elim r.get_func [ none ↦ (Result.ok none, r) | some get ↦ (get t key, r) ]

  -- The answers of the targets, in the order in which they arrive.
  unfoldable pub ask_targets : ℕ → Str → List Str → Reader → List Reply × Reader
  unfolding ask_target
  ask_targets now key [] r = ([], r)
  ask_targets now key (t ∷ ts) r =
      let (reply, r') = ask_target now key t r in
      let (replies, r'') = ask_targets now key ts r' in (reply ∷ replies, r'')

-- The items of the answers that have a value.
abbrev pub values_of : List Reply → List StoredItem
values_of = filter_map value_of

-- The loops that keep the best item: a later one of the same version does not replace it.
abbrev pub better : Option StoredItem → StoredItem → StoredItem
better none item = item
better (some best) item = elim (compare_version item (some best)) [ Sign.greater ↦ item | _ ↦ best ]

unfoldable pub best_from : Option StoredItem → List StoredItem → Option StoredItem
best_from best [] = best
best_from best (item ∷ items) = best_from (some (better best item)) items

-- The keys of the map `versions`
unfoldable pub version_seen : ℕ → List ℕ → Bool
version_seen v [] = false
version_seen v (w ∷ ws) = (w == v) || version_seen v ws

unfoldable pub versions_from : List ℕ → List StoredItem → List ℕ
unfolding version_seen
versions_from seen [] = seen
versions_from seen (item ∷ items) =
    versions_from (if version_seen item.version seen then seen else item.version ∷ seen) items

-- `len(items) > 1` and `len(versions) > 1`: the items that are handed to `Repair`
unfoldable pub to_repair : List StoredItem → Option (List StoredItem)
unfolding versions_from
to_repair items =
    if ltb 1 (length items) && ltb 1 (length (versions_from [] items)) then some items else none

abbrev pub copy_best : Option StoredItem → ReadResult
copy_best none = missing
copy_best (some item) = copy_of item

-- What a read over several replicas does: its result, the items for `Repair`, and the new state.
pub record Outcome : Type 0 where
  pub result : ReadResult
  pub repair : Option (List StoredItem)
  pub reader : Reader

abbrev pub plain : ReadResult → Reader → Outcome
plain result r = record { result = result; repair = none; reader = r }

abbrev pub error_of : Result StoredItem → ReadResult
error_of (Result.ok item) = missing
error_of (Result.err e) = failed e

abbrev pub count_or_three : ℕ → ℕ
count_or_three n = if slt 0 n then n else 3

-- `requiredResponses`, for `alive` targets of which the local slice `aliveTargets` holds `local`.
abbrev pub required : ConsistencyLevel → ℕ → ℕ → ℕ
required one alive local = if ltb alive 1 then alive else 1
required quorum alive local = if ltb alive (alive / 2 + 1) then alive else alive / 2 + 1
required all alive local = if ltb alive local then alive else local
required (other_level n) alive local = if ltb alive 1 then alive else 1

-- The loop `loop2`, for `left` more answers: `items` and their number.
unfoldable pub gather : ℕ → ℕ → List Reply → List StoredItem → List StoredItem
gather zero needed replies items = items
gather (suc left) needed [] items = items
gather (suc left) needed (reply ∷ replies) items =
    let more =
      gather left needed replies
        (elim (value_of reply) [ none ↦ items | some item ↦ items ++ item ∷ [] ]) in
    if ltb (length items) needed then more else items

abbrev pub is_one : ConsistencyLevel → Bool
is_one one = true
is_one _ = false

-- `arrive` puts the answers into the order in which they arrive.
module _ (libs : Libs) (arrive : List Reply → List Reply) where
  -- `_, err := r.store.Get(key); return nil, err`
  abbrev pub unnamed : ℕ → Str → Reader → Outcome
  unnamed now key r =
      let (answer, node) = read_store libs now key r.node in
      plain (error_of answer) (with_node r node)

  unfoldable pub speculate : ℕ → Str → List Str → Reader → Outcome
  unfolding ask_targets best_from to_repair
  speculate now key targets r =
      let (replies, r') = ask_targets libs now key targets r in
      let items = values_of (arrive replies) in
      record { result = copy_best (best_from none items); repair = to_repair items; reader = r' }

  abbrev pub speculate_for : ℕ → Str → List Str → Reader → Outcome
  speculate_for now key [] r = plain missing r
  speculate_for now key (t ∷ ts) r = elim r.node.member [
    | none ↦ plain panics r
    | some m ↦ speculate now key (alive_targets r.node.node_id m (t ∷ ts)) r
  ]

  -- `GetSpeculative`; `n` is the pattern of an int.
  unfoldable pub read_speculative : ℕ → Str → ℕ → Reader → Outcome
  unfolding speculate alive_targets
  read_speculative now key n r =
      if is_empty key
      then unnamed now key r
      else speculate_for now key (targets_of libs key (count_or_three n) r.node) r

  abbrev pub cache_best : ℕ → Str → ConsistencyLevel → Option StoredItem → Reader → Reader
  cache_best now key level none r = r
  cache_best now key level (some best) r =
      if is_one level then with_node r (fill_cache libs now key best r.cache_ttl r.node) else r

  -- From the targets on. The appends went through the pointer to the pooled slice, so that the
  -- local slice `aliveTargets`, whose length bounds the loop, stays empty, and so does
  -- `*itemsPtr`, which decides on the repair.
  unfoldable pub consult : ℕ → Str → ConsistencyLevel → List Str → Reader → Outcome
  unfolding ask_targets gather best_from to_repair
  consult now key level targets r =
      let local : List Str = [] in
      let pooled : List StoredItem = [] in
      let needed = required level (length targets) (length local) in
      let (replies, r') = ask_targets libs now key targets r in
      let items = gather (length local) needed (arrive replies) [] in
      let best = best_from none items in
      if ltb (length items) needed then plain missing r' else record {
        result = copy_best best;
        repair = to_repair pooled;
        reader = cache_best now key level best r';
      }

  abbrev pub consult_alive : ℕ → Str → ConsistencyLevel → List Str → Reader → Outcome
  consult_alive now key level [] r = plain missing r
  consult_alive now key level (t ∷ ts) r = consult now key level (t ∷ ts) r

  abbrev pub consult_for : ℕ → Str → ConsistencyLevel → List Str → Reader → Outcome
  consult_for now key level [] r = plain missing r
  consult_for now key level (t ∷ ts) r = elim r.node.member [
    | none ↦ plain panics r
    | some m ↦ consult_alive now key level (alive_targets r.node.node_id m (t ∷ ts)) r
  ]

  abbrev pub read_replicas : ℕ → Str → ConsistencyLevel → Reader → Outcome
  read_replicas now key level r =
      consult_for now key level (targets_of libs key r.node.replica_count r.node) r

  -- `GetWithConsistency`
  unfoldable pub read_consistent : ℕ → Str → ConsistencyLevel → Reader → Outcome
  unfolding consult alive_targets read_cache
  read_consistent now key level r =
      let (cached, node) = read_cache libs now key r.node in
      if is_empty key
      then unnamed now key r
      else if is_one level
      then elim cached [
        | some item ↦ plain (copy_of item) (with_node r node)
        | none ↦ read_replicas now key level (with_node r node)
      ]
      else read_replicas now key level r

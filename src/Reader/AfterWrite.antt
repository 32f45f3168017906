-- ===== src/Reader/AfterWrite.antt =====
-- The writer and the reader of one node together: internal/cluster/writer.go and reader.go.
use grid_kv.Base.{
  ℕ, ◌≤◌, ◌≡◌, ◌≢◌, refl, ap, ◌∙◌, true, false, not, ◌||◌, Option, none, some, [], Str, is_empty,
  Map, length, slt, ltb, ◌==◌, option_cases, inl, inr, arith,
}
use grid_kv.Compress.{max_estimate}
use grid_kv.Node.{Libs, Node, read_cache}
use grid_kv.Reader.Defs.{Reader, ReadResult, found, read, after_store}
use grid_kv.Reader.Sources.{cached_item, stored_item, missed, read-missed}
use grid_kv.Storage.Evict.{StoreError}
use grid_kv.Storage.Item.{StoredItem}
use grid_kv.Storage.Lookup.{lookup}
use grid_kv.Storage.Reads.{Fits, get_item-set_item, set_item-write}
use grid_kv.Storage.Shard.{CompressedItem, OpType, MemStorage}
use grid_kv.Storage.Store.{Result, get_item, set_item}
use grid_kv.Writer.Defs.{
  Writer, WriteError, next_version, stamped, set_store, replicas, store_or_queue, then_trigger,
  trigger_batch, write_key,
}
use grid_kv.Writer.Writes.{IsQueued, store_or_queue-outcome}

module _ (libs : Libs) where
  then_trigger-node : (r : Option WriteError × Writer) → (then_trigger r).1.node ≡ r.1.node
  unfolding trigger_batch
  then_trigger-node (none, w) = refl
  then_trigger-node (some e, w) = refl

  read_cache-store :
      (now : ℕ) (key : Str) (node : Node) → (read_cache libs now key node).1.store ≡ node.store
  unfolding read_cache
  read_cache-store now key node =
      option_cases (λ (p : Option StoredItem × Node). p.1.store ≡ node.store) node.cache _ _
        (λ absent. refl) (λ c is. refl)

  -- A read that the store answers, with nothing in the cache.
  read_from_store :
      (now : ℕ) (key : Str) (r : Reader) (x : StoredItem)
      → cached_item libs now key r ≡ none
      → (get_item libs.store_hash libs.lz4 now key r.node.store).0 ≡ Result.ok x
      → (read libs now key r).0 ≡ found x
  read_from_store now key r x uncached answer =
      let stored : stored_item libs now key r ≡ Result.ok x =
        ap (λ s. (get_item libs.store_hash libs.lz4 now key s).0) (read_cache-store now key r.node)
        ∙ answer in
      ap (λ (p : ReadResult × Reader). p.0) (read-missed libs now key r uncached)
      ∙ ap (λ s. (after_store libs now key (missed libs now key r) s).0) stored

  -- A write that finds a replica and a store that takes the item.
  IsQueued-after :
      (key : Str) (item : StoredItem) (op_type : OpType) (w : Writer)
      → replicas libs key w ≢ []
      → (set_store libs key item w).0 ≡ none
      → IsQueued libs key item op_type w (store_or_queue libs key item op_type w)
  IsQueued-after key item op_type w somewhere taken =
      elim (store_or_queue-outcome libs key item op_type w) [
        | inl nobody ↦ absurd (somewhere nobody.0)
        | inr (inl refused) ↦ absurd (ground (arith, refused.2, taken))
        | inr (inr queued) ↦ queued.2
      ]

  -- Read your writes: after a `Set` with a replica for the key, `Get` at the same node answers with
  -- the bytes that were set, their version and their expiry, whatever the cache held before and
  -- whatever other replicas hold; if the key is not empty, the item fits without an eviction, has
  -- at most 64 MB, is newer than what the store has of the key, and has not expired.
  pub read-write_key :
      (shuffle : Map ℕ → Map ℕ) (wall now : ℕ) (key : Str) (item : StoredItem) (w : Writer)
      (r : Reader)
      → let version = (next_version shuffle wall key w).0 in
        is_empty key ≡ false
        → replicas libs key w ≢ []
        → Fits libs.store_hash libs.lz4 key (stamped key version item) w.node.store
        → length item.value ≤ max_estimate
        → ((old : CompressedItem)
            → lookup libs.store_hash key w.node.store ≡ some old
            → slt old.version version ≡ true)
        → (item.expire_at == 0) || not (ltb item.expire_at now) ≡ true
        → r.node ≡ (write_key libs shuffle wall key item w).1.node
        → (read libs now key r).0
          ≡ found (record {
            version = version;
            expire_at = item.expire_at;
            value = item.value;
            key = [];
          })
  unfolding write_key next_version
  read-write_key shuffle wall now key item w r named somewhere fits short newer live same =
      let (version, w') = next_version shuffle wall key w in
      let new = stamped key version item in
      let written = set_item-write libs.store_hash libs.lz4 key new w.node.store named fits in
      let queued =
        IsQueued-after key new OpType.op_set w' somewhere
          (ap (λ (p : Option StoreError × MemStorage). p.0) written) in
      let same_node : r.node ≡ (store_or_queue libs key new OpType.op_set w').1.node =
        same ∙ then_trigger-node (store_or_queue libs key new OpType.op_set w') in
      let store_is : r.node.store
          ≡ (set_item libs.store_hash libs.lz4 key (some new) w.node.store).1 =
        ap (λ (n : Node). n.store) same_node ∙ queued.stored in
      read_from_store now key r _
        (ap (λ (n : Node). (read_cache libs now key n).0) same_node ∙ queued.uncached now named)
        (ap (λ s. (get_item libs.store_hash libs.lz4 now key s).0) store_is
          ∙ get_item-set_item libs.store_hash libs.lz4 now key new w.node.store named fits short
              newer live)

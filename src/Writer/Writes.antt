-- ===== src/Writer/Writes.antt =====
-- `storeOrQueue`, `Set` and `Delete` of internal/cluster/writer.go: what a write leaves behind.
use grid_kv.Base.{
  ℕ, ◌≡◌, ◌≢◌, refl, sym, ap, ◌∙◌, false, Option, none, some, List, [], ◌∷◌, ◌++◌, Str, str_eq, is_empty,
  replicate, suc, if◌then◌else◌, option_cases, ◌⊎◌, inl, inr, arith,
}
use grid_kv.Node.{Libs, Node, read_cache, forget_cached}
use grid_kv.Cache.History.{cache_get-delete}
use grid_kv.Storage.Evict.{StoreError}
use grid_kv.Storage.Item.{StoredItem}
use grid_kv.Storage.Shard.{OpType}
use grid_kv.Writer.Cases.{store_or_queue_cases}
use grid_kv.Writer.Defs.{
  Writer, WriteError, no_replicas, store_failed, operation, queued, set_store, replicas,
  store_or_queue, trigger_batch,
}

-- How many of the targets are other nodes.
unfoldable pub others : Str → List Str → ℕ
others self [] = 0
others self (t ∷ ts) = let n = others self ts in if str_eq t self then n else suc n

queued-replicate :
    (self key : Str) (op_type : OpType) (item : StoredItem) (ts : List Str)
    → queued self key op_type item ts ≡ replicate (others self ts) (operation key op_type item)
unfolding queued others
queued-replicate self key op_type item [] = refl
queued-replicate self key op_type item (t ∷ ts) =
    ground (arith, queued-replicate self key op_type item ts)

module _ (libs : Libs) where
  pub forget_cached-none :
      (now : ℕ) (key : Str) (node : Node)
      → is_empty key ≡ false
      → (read_cache libs now key (forget_cached libs key node)).0 ≡ none
  unfolding read_cache forget_cached
  forget_cached-none now key node named =
      option_cases (λ (n : Node). (read_cache libs now key n).0 ≡ none) node.cache _ _
        (λ absent. rw absent refl)
        (λ c is. cache_get-delete libs.cache_hash libs.fnv now key c named)

  pub forget_cached-store :
      (key : Str) (node : Node) → (forget_cached libs key node).store ≡ node.store
  unfolding forget_cached
  forget_cached-store key node =
      option_cases (λ (n : Node). n.store ≡ node.store) node.cache _ _ (λ absent. refl)
        (λ c is. refl)

  -- What a write that succeeds leaves: the store with the item, one more operation pending for each
  -- target that is another node, and nothing in the cache for the key.
  pub record IsQueued (key : Str) (item : StoredItem) (op_type : OpType) (w : Writer)
      (r : Option WriteError × Writer) : Type 0 where
    pub succeeds : r.0 ≡ none
    pub stored : r.1.node.store ≡ (set_store libs key item w).1.node.store
    pub pending :
        r.1.pending_ops
        ≡ w.pending_ops
          ++ replicate (others w.node.node_id (replicas libs key w)) (operation key op_type item)
    pub uncached : (now : ℕ) → is_empty key ≡ false → (read_cache libs now key r.1.node).0 ≡ none

  -- What a write that the store refuses leaves.
  pub record IsRefused (e : StoreError) (key : Str) (item : StoredItem) (w : Writer)
      (r : Option WriteError × Writer) : Type 0 where
    pub fails : r.0 ≡ some (store_failed e)
    pub kept : r.1.node.store ≡ (set_store libs key item w).1.node.store
    pub not_pending : r.1.pending_ops ≡ w.pending_ops
    pub cache_left : r.1.node.cache ≡ w.node.cache

  -- What a write comes to: no node holds replicas of the key, or some node does and the store
  -- refuses the item, or some node does and the store takes it.
  abbrev pub WriteOutcome :
      Str → StoredItem → OpType → Writer → Option WriteError × Writer → Type 0
  WriteOutcome key item op_type w r =
      ((replicas libs key w ≡ []) × (r ≡ (some no_replicas, w)))
      ⊎ ((e : StoreError) × (replicas libs key w ≢ [])
          × ((set_store libs key item w).0 ≡ some e)
          × IsRefused e key item w r)
      ⊎ ((replicas libs key w ≢ [])
          × ((set_store libs key item w).0 ≡ none)
          × IsQueued key item op_type w r)

  -- `storeOrQueue` fails with `no_replicas` and changes nothing where no node holds replicas of the
  -- key. Where some node does and the store refuses the item, it fails with the error of the store,
  -- queues nothing and leaves the cache. Where some node does and the store takes the item, it
  -- succeeds: one operation is pending for each target that is another node, behind those that were
  -- pending, and the cache no longer has the key, if that is not empty. In the last two cases the
  -- store of the node is what its `Set` leaves.
  pub store_or_queue-outcome :
      (key : Str) (item : StoredItem) (op_type : OpType) (w : Writer)
      → WriteOutcome key item op_type w (store_or_queue libs key item op_type w)
  unfolding trigger_batch
  store_or_queue-outcome key item op_type w =
      store_or_queue_cases libs (WriteOutcome key item op_type w) key item op_type w
        (λ nobody. inl (nobody, refl))
        (λ e somewhere failed. inr (
          inl (
            e,
            somewhere,
            failed,
            record { fails = refl; kept = refl; not_pending = refl; cache_left = refl },
          )))
        (λ t ts is ok. inr (
          inr (
            (λ nobody. ground (arith, is, nobody)),
            ok,
            record {
              succeeds = refl;
              stored = forget_cached-store key (set_store libs key item w).1.node;
              pending =
                  ap (λ ops. w.pending_ops ++ ops)
                    (queued-replicate w.node.node_id key op_type item (t ∷ ts)
                      ∙ ap (λ l. replicate (others w.node.node_id l) (operation key op_type item))
                          (sym is));
              uncached =
                  λ now named.
                    forget_cached-none now key (set_store libs key item w).1.node named;
            },
          )))

-- ===== src/Writer/Cases.antt =====
-- The outcomes of `storeOrQueue` of internal/cluster/writer.go.
use grid_kv.Base.{◌≡◌, ◌≢◌, arith, Option, none, some, List, [], ◌∷◌, Str, list_cases, option_cases}
use grid_kv.Node.{Libs}
use grid_kv.Storage.Evict.{StoreError}
use grid_kv.Storage.Item.{StoredItem}
use grid_kv.Storage.Shard.{OpType}
use grid_kv.Writer.Defs.{
  Writer, WriteError, no_replicas, store_failed, set_store, replicas, queue_for, store_or_queue,
}

module _ {ℓ} (libs : Libs) (P : Option WriteError × Writer → Type ℓ) (key : Str) (item : StoredItem)
    (op_type : OpType) (w : Writer) where
  -- No replica, an error of the store, or a success.
  pub store_or_queue_cases :
      (replicas libs key w ≡ [] → P (some no_replicas, w))
      → ((e : StoreError)
          → replicas libs key w ≢ []
          → (set_store libs key item w).0 ≡ some e
          → P (some (store_failed e), (set_store libs key item w).1))
      → ((t : Str) (ts : List Str)
          → replicas libs key w ≡ t ∷ ts
          → (set_store libs key item w).0 ≡ none
          → P (none, queue_for libs key item op_type (t ∷ ts) (set_store libs key item w).1))
      → P (store_or_queue libs key item op_type w)
  unfolding store_or_queue
  store_or_queue_cases nobody refused stored =
      list_cases P (replicas libs key w) _ _ nobody (λ t ts is.
        option_cases P (set_store libs key item w).0 _ _ (λ ok. stored t ts is ok)
          (λ e bad. refused e (λ nobody. ground (arith, is, nobody)) bad))

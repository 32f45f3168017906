-- ===== src/Gossip/Apply.antt =====
-- `applyOps` of internal/cluster/gossip.go, and a `HandleMessage` of what `Push` sends.
use grid_kv.Base.{
  ℕ, ◌^◌, ◌<◌, ◌≡◌, refl, sym, ap, ◌∙◌, Bool, true, false, ◌&&◌, Option, none, some, List, map, Str,
  str_eq, str_eq_iff, str_eq_refl, is_empty, All, length, slt, if◌then◌else◌, if_cases,
  option_cases, Bool-cases, inl, inr, ◌⊎◌, arith,
}
use grid_kv.Codec.SyncTrip.{Sendable, sent, deserialize-serialize}
use grid_kv.Entropy.Digest.{starts_with}
use grid_kv.Gossip.Defs.{push_message, is_stale, is_replica, apply_item, apply_ops, handle_message}
use grid_kv.Node.{Libs, Node}
use grid_kv.Storage.Answers.{get_answer, is_over, get_item-lookup}
use grid_kv.Storage.Evict.{StoreError}
use grid_kv.Storage.Item.{StoredItem}
use grid_kv.Storage.Lookup.{lookup, write}
use grid_kv.Storage.Reads.{Fits, set_item-write}
use grid_kv.Storage.Shard.{CompressedItem, MemStorage, SyncOperation}
use grid_kv.Storage.Store.{get_item, prepare_item, item_value, expired_at}

module _ (libs : Libs) where
  -- The store after `applyOps` has looked at the key.
  abbrev pub looked_at : ℕ → Str → MemStorage → MemStorage
  looked_at now key s = (get_item libs.store_hash libs.lz4 now key s).1

  -- The entry that is there, unless it has expired.
  abbrev pub live_entry : ℕ → Option CompressedItem → Option CompressedItem
  live_entry now o = if is_over libs.store_hash libs.lz4 now o then none else o

  pub live_entry-some :
      (now : ℕ) (o : Option CompressedItem) (old : CompressedItem)
      → live_entry now o ≡ some old
      → o ≡ some old
  live_entry-some now none old found = found
  live_entry-some now (some e) old found = elim (Bool-cases (expired_at now e)) [
    | inl gone ↦ absurd (ground (arith, rw gone at found))
    | inr live ↦ rw live at found
  ]

  lookup-looked_at :
      (now : ℕ) (key j : Str) (s : MemStorage)
      → is_empty key ≡ false
      → lookup libs.store_hash j (looked_at now key s) ≡ (
          if str_eq key j
          then live_entry now (lookup libs.store_hash key s)
          else lookup libs.store_hash j s)
  lookup-looked_at now key j s named =
      (get_item-lookup libs.store_hash libs.lz4 now key j s named).1 ∙ own_key (str_eq_iff key j).0
    where
      over : Bool
      over = is_over libs.store_hash libs.lz4 now (lookup libs.store_hash key s)

      own_key :
          (str_eq key j ≡ true → key ≡ j)
          → (if str_eq key j && over then none else lookup libs.store_hash j s) ≡ (
              if str_eq key j
              then live_entry now (lookup libs.store_hash key s)
              else lookup libs.store_hash j s)
      own_key same = elim (Bool-cases (str_eq key j)) [
        | inl same_key ↦
            rw same_key
              (ap (λ k. if over then none else lookup libs.store_hash k s) (sym (same same_key)))
        | inr other ↦ rw other refl
      ]

  pub lookup-looked_at_self :
      (now : ℕ) (key : Str) (s : MemStorage)
      → is_empty key ≡ false
      → lookup libs.store_hash key (looked_at now key s)
        ≡ live_entry now (lookup libs.store_hash key s)
  lookup-looked_at_self now key s named =
      lookup-looked_at now key key s named ∙ rw (str_eq_refl key) refl

  pub apply_item-fresh :
      (now : ℕ) (key : Str) (item : StoredItem) (node : Node)
      → is_empty key ≡ false
      → is_replica libs key node ≡ true
      → Fits libs.store_hash libs.lz4 key item (looked_at now key node.store)
      → is_stale (get_item libs.store_hash libs.lz4 now key node.store).0 item ≡ false
      → let s = looked_at now key node.store in
        (apply_item libs now key item node).1.store
        ≡ write libs.store_hash key (prepare_item libs.lz4 s item) item s
  unfolding apply_item
  apply_item-fresh now key item node named here fits fresh =
      let s = looked_at now key node.store in
      let written = set_item-write libs.store_hash libs.lz4 key item s named fits in
      rw (here, fresh, apply_item) (ap (λ (p : Option StoreError × MemStorage). p.1) written)

  -- The stored item is not older, and the `Get` of the key is all that happens; or it is, and the
  -- operation's item has been written.
  abbrev pub Applied : ℕ → Str → StoredItem → Node → Option StoreError × Node → Type 0
  Applied now key item node r =
      let s = looked_at now key node.store in
      let stale = is_stale (get_item libs.store_hash libs.lz4 now key node.store).0 item in
      ((stale ≡ true) × (r ≡ (none, record node { store = s })))
      ⊎ ((stale ≡ false)
        × (r.1.store ≡ write libs.store_hash key (prepare_item libs.lz4 s item) item s))

  pub newer_fresh :
      (now : ℕ) (o : Option CompressedItem) (item : StoredItem)
      → ((old : CompressedItem) → o ≡ some old → slt old.version item.version ≡ true)
      → is_stale (get_answer libs.store_hash libs.lz4 now o) item ≡ false
  newer_fresh now none item newer = refl
  newer_fresh now (some old) item newer =
      if_cases (λ a. is_stale a item ≡ false) (expired_at now old) _ _ (λ gone. refl)
        (λ live.
          option_cases (λ a. is_stale a item ≡ false) (item_value libs.lz4 old) _ _ (λ broken. refl)
            (λ value whole. ground (arith, newer old refl)))

  -- A node that receives what `Push` sends of some operations applies those of them that have an
  -- item, in their order, up to the first that its store refuses, and sends nothing back. The
  -- operations are fewer than 2^32 and fit the wire.
  pub handle_message-push_message :
      (now : ℕ) (ops : List SyncOperation) (node : Node)
      → length ops < 2 ^ 32
      → All Sendable ops
      → handle_message libs now (push_message ops) node ≡ (
        (apply_ops libs now (map some (sent ops)) node).0,
        none,
        (apply_ops libs now (map some (sent ops)) node).1,
      )
  unfolding handle_message push_message starts_with
  handle_message-push_message now ops node few all =
      ap
        (λ (l : List (Option SyncOperation)).
          ((apply_ops libs now l node).0, none, (apply_ops libs now l node).1))
        (deserialize-serialize ops few all)

-- ===== src/Storage/Drained.antt =====
-- `GetSyncBuffer` of mem_storage.go twice in a row.
use grid_kv.Base.{
  ℕ, zero, suc, ◌-◌, ◌<◌, ◌≤◌, ◌≡◌, refl, sym, ap, ◌∙◌, Option, none, some, List, [], ◌∷◌, ◌++◌,
  Str, is_empty, load, length, ◌==◌, ==_iff, if◌then◌else◌, if_cases, option_cases, arith,
}
use grid_kv.Compress.{Lz4}
use grid_kv.Storage.Batch.{fill_op, fill_ops, sync_shards, get_sync_buffer, with_value}
use grid_kv.Storage.Buffer.{SyncBuffer, drain, collect_ops}
use grid_kv.Storage.Item.{StoredItem}
use grid_kv.Storage.Shard.{
  Config, Shard, CompressedItem, MemStorage, OpType, SyncOperation, put_shard,
}
use grid_kv.Storage.Store.{Result, get_item, read_found, expired_at, shard_of}

-- No shard's buffer has changed, nor the configuration.
abbrev pub SameBuffers : MemStorage → MemStorage → Type 0
SameBuffers s t = (t.config ≡ s.config) × ((i : ℕ) → (t.shards i).buffer ≡ (s.shards i).buffer)

-- Nothing is pending in the first shards.
abbrev pub Drained : ℕ → MemStorage → Type 0
Drained n s = (i : ℕ) → i < n → (s.shards i).buffer.head ≡ (s.shards i).buffer.tail

SameBuffers-trans : (s t u : MemStorage) → SameBuffers s t → SameBuffers t u → SameBuffers s u
SameBuffers-trans s t u (c, f) (d, g) = (d ∙ c, λ i. g i ∙ f i)

put_shard-SameBuffers :
    (n : ℕ) (shard : Shard) (s : MemStorage)
    → shard.buffer ≡ (s.shards n).buffer
    → (i : ℕ) → ((put_shard n shard s).shards i).buffer ≡ (s.shards i).buffer
put_shard-SameBuffers n shard s same i =
    if_cases (λ (x : Shard). x.buffer ≡ (s.shards i).buffer) (i == n) _ _
      (λ is. same ∙ ap (λ k. (s.shards k).buffer) (sym ((==_iff i n).0 is))) (λ other. refl)

nothing_pending : (b : SyncBuffer SyncOperation) → b.head ≡ b.tail → (drain b).0 ≡ []
unfolding drain collect_ops
nothing_pending b same =
    let nothing : b.head - b.tail ≡ 0 = omega arith in ap (λ n. collect_ops n b.tail b) nothing

module _ (hash_lo : Str → ℕ) (lz4 : Lz4) where
  read_found-SameBuffers :
      (now n : ℕ) (key : Str) (item : CompressedItem) (s : MemStorage)
      → SameBuffers s (read_found lz4 now n key item s).1
  unfolding read_found
  read_found-SameBuffers now n key item s =
      if_cases (λ (r : Result StoredItem × MemStorage). SameBuffers s r.1) (expired_at now item) _ _
        (λ gone. (refl, put_shard-SameBuffers n _ s refl))
        (λ live. (refl, put_shard-SameBuffers n _ s refl))

  get_item-SameBuffers :
      (now : ℕ) (key : Str) (s : MemStorage) → SameBuffers s (get_item hash_lo lz4 now key s).1
  unfolding get_item
  get_item-SameBuffers now key s =
      if_cases (λ (r : Result StoredItem × MemStorage). SameBuffers s r.1) (is_empty key) _ _
        (λ empty. (refl, λ i. refl))
        (λ named.
          option_cases (λ (r : Result StoredItem × MemStorage). SameBuffers s r.1)
            (load key (s.shards (shard_of hash_lo lz4 key s)).data_map) _ _
            (λ absent. (refl, λ i. refl))
            (λ item found. read_found-SameBuffers now (shard_of hash_lo lz4 key s) key item s))

  fill_op-SameBuffers :
      (now : ℕ) (op : SyncOperation) (s : MemStorage)
      → SameBuffers s (fill_op hash_lo lz4 now op s).1
  unfolding fill_op
  fill_op-SameBuffers now op s = by_kind op.op_type op.item
    where
      Kept : SyncOperation × MemStorage → Type 0
      Kept r = SameBuffers s r.1

      by_kind :
          (t : OpType) (o : Option StoredItem)
          → Kept (elim t [
            | OpType.op_delete ↦ (op, s)
            | OpType.op_other n ↦ (op, s)
            | OpType.op_set ↦ elim o [
              | none ↦ (op, s)
              | some item ↦
                  if length item.value == 0
                  then (
                    with_value hash_lo lz4 op item (get_item hash_lo lz4 now op.key s).0,
                    (get_item hash_lo lz4 now op.key s).1,
                  )
                  else (op, s)
            ]
          ])
      by_kind OpType.op_delete o = (refl, λ i. refl)
      by_kind (OpType.op_other n) o = (refl, λ i. refl)
      by_kind OpType.op_set none = (refl, λ i. refl)
      by_kind OpType.op_set (some item) =
          if_cases Kept (length item.value == 0) _ _ (λ empty. get_item-SameBuffers now op.key s)
            (λ full. (refl, λ i. refl))

  fill_ops-SameBuffers :
      (now : ℕ) (ops : List SyncOperation) (s : MemStorage)
      → SameBuffers s (fill_ops hash_lo lz4 now ops s).1
  unfolding fill_ops
  fill_ops-SameBuffers now [] s = (refl, λ i. refl)
  fill_ops-SameBuffers now (op ∷ ops) s =
      let s' = (fill_op hash_lo lz4 now op s).1 in
      SameBuffers-trans s s' (fill_ops hash_lo lz4 now ops s').1 (fill_op-SameBuffers now op s)
        (fill_ops-SameBuffers now ops s')

  -- The shards behind the first `n` are left alone.
  sync_shards-later :
      (now n i : ℕ) (s : MemStorage)
      → n ≤ i
      → ((sync_shards hash_lo lz4 now n s).1.shards i).buffer ≡ (s.shards i).buffer
  unfolding sync_shards
  sync_shards-later now zero i s later = refl
  sync_shards-later now (suc n) i s later =
      let s' = (sync_shards hash_lo lz4 now n s).1 in
      let ops = (drain (s'.shards n).buffer).0 in
      if_cases (λ (x : Shard). x.buffer ≡ (s.shards i).buffer) (i == n) _ _
        (λ same. absurd (ground arith))
        (λ other. (fill_ops-SameBuffers now ops s').1 i ∙ sync_shards-later now n i s (omega arith))

  sync_shards-Drained : (now n : ℕ) (s : MemStorage) → Drained n (sync_shards hash_lo lz4 now n s).1
  unfolding sync_shards drain
  sync_shards-Drained now zero s i lt = absurd (omega arith)
  sync_shards-Drained now (suc n) s i lt =
      let s' = (sync_shards hash_lo lz4 now n s).1 in
      let ops = (drain (s'.shards n).buffer).0 in
      if_cases (λ (x : Shard). x.buffer.head ≡ x.buffer.tail) (i == n) _ _ (λ same. refl)
        (λ other.
          let kept = (fill_ops-SameBuffers now ops s').1 i in
          ap (λ b. b.head) kept
          ∙ sync_shards-Drained now n s i (ground arith)
          ∙ sym (ap (λ b. b.tail) kept))

  sync_shards-config :
      (now n : ℕ) (s : MemStorage) → (sync_shards hash_lo lz4 now n s).1.config ≡ s.config
  unfolding sync_shards
  sync_shards-config now zero s = refl
  sync_shards-config now (suc n) s =
      let s' = (sync_shards hash_lo lz4 now n s).1 in
      (fill_ops-SameBuffers now (drain (s'.shards n).buffer).0 s').0 ∙ sync_shards-config now n s

  Drained-sync_shards :
      (now n : ℕ) (s : MemStorage) → Drained n s → (sync_shards hash_lo lz4 now n s).0 ≡ []
  unfolding sync_shards fill_ops
  Drained-sync_shards now zero s none_left = refl
  Drained-sync_shards now (suc n) s none_left =
      let s' = (sync_shards hash_lo lz4 now n s).1 in
      let before = Drained-sync_shards now n s (λ i lt. none_left i (omega arith)) in
      let nothing : (drain (s'.shards n).buffer).0 ≡ [] =
        nothing_pending (s'.shards n).buffer
          (rw (sync_shards-later now n n s (omega arith)) (none_left n (omega arith))) in
      ap (λ l. l ++ (fill_ops hash_lo lz4 now (drain (s'.shards n).buffer).0 s').0) before
      ∙ ap (λ ops. (fill_ops hash_lo lz4 now ops s').0) nothing

  -- What one `GetSyncBuffer` has taken, the next one does not find: a second one, at whatever time,
  -- is empty.
  pub get_sync_buffer_twice :
      (now later : ℕ) (s : MemStorage)
      → (get_sync_buffer hash_lo lz4 later (get_sync_buffer hash_lo lz4 now s).1).0 ≡ []
  unfolding get_sync_buffer
  get_sync_buffer_twice now later s =
      let s' = (get_sync_buffer hash_lo lz4 now s).1 in
      ap (λ (c : Config). (sync_shards hash_lo lz4 later c.shard_count s').0)
        (sync_shards-config now s.config.shard_count s)
      ∙ Drained-sync_shards later s.config.shard_count s'
          (sync_shards-Drained now s.config.shard_count s)

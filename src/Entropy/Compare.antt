-- ===== src/Entropy/Compare.antt =====
-- internal/cluster/entropy.go: what a digest covers, and what a comparison reports.
use grid_kv.Base.{
  ℕ, zero, suc, ◌<◌, ◌≡◌, refl, ap, ◌∙◌, Bool, true, false, not, List, [], ◌∷◌, Str, Map, load, All,
  length, length-set, length-replicate, get_elem?-set_self, set, replicate, ltb, ◌==◌,
  if◌then◌else◌, Bool-cases, inl, inr, arith,
}
use mathlib.Core.Path.{subst}
use mathlib.Core.List.{append-nil}
use native.Mathlib.Nat.{mod-lt}
use grid_kv.Entropy.Digest.{
  bloom_size, same_bit, differs, bit_at, bit_of, digest_keys, digest, compare_keys, missing_keys,
  sync_keys,
}
use grid_kv.Node.{Libs}
use grid_kv.Storage.Batch.{keys, all_keys, live_keys, live_entries, for_shards}
use grid_kv.Storage.Item.{StoredItem}
use grid_kv.Storage.Shard.{CompressedItem, Shard, MemStorage, put_shard}
use grid_kv.Storage.Store.{Result, get_item}

bit_at-set_self :
    (bloom : List Bool) (n : ℕ) → n < length bloom → bit_at (set bloom n true) n ≡ true
bit_at-set_self bloom n lt = rw (get_elem?-set_self bloom n true lt, bit_at) refl

-- A bit that is set stays set.
bit_at-set :
    (bloom : List Bool) (i n : ℕ) → bit_at bloom n ≡ true → bit_at (set bloom i true) n ≡ true
bit_at-set [] i n h = h
bit_at-set (b ∷ bloom) zero zero h = refl
bit_at-set (b ∷ bloom) zero (suc n) h = h
bit_at-set (b ∷ bloom) (suc i) zero h = h
bit_at-set (b ∷ bloom) (suc i) (suc n) h = bit_at-set bloom i n h

-- The keys of a store, listed again.
live_keys-live_entries :
    (now : ℕ) (m : Map CompressedItem) → live_keys now (live_entries now m) ≡ live_keys now m
live_keys-live_entries now [] = refl
live_keys-live_entries now ((k, item) ∷ m) = ground (arith, live_keys-live_entries now m)

abbrev pruned : ℕ → Shard → Shard
pruned now shard = record shard { data_map = live_entries now shard.data_map }

abbrev prune_shards : ℕ → ℕ → MemStorage → MemStorage
prune_shards now n s = for_shards n (λ i s'. put_shard i (pruned now (s'.shards i)) s') s

shards_pruned :
    (now n k : ℕ) (s : MemStorage)
    → (prune_shards now n s).shards k ≡ (if ltb k n then pruned now (s.shards k) else s.shards k)
shards_pruned now zero k s = ground arith
shards_pruned now (suc n) k s =
    let below : ltb n n ≡ false = ground arith in
    let at_n : (prune_shards now n s).shards n ≡ s.shards n =
      shards_pruned now n n s ∙ ap (λ b. if b then pruned now (s.shards n) else s.shards n) below in
    elim (Bool-cases (k == n)) [
      | inl same ↦
          let e : n ≡ k = ground arith in
          let test : ltb k (suc n) ≡ true = ground arith in
          rw (same, test) (ap (pruned now) at_n ∙ ap (λ j. pruned now (s.shards j)) e)
      | inr other ↦
          let test : ltb k n ≡ ltb k (suc n) = ground arith in
          rw other (
            shards_pruned now n k s
            ∙ ap (λ b. if b then pruned now (s.shards k) else s.shards k) test)
    ]

config_pruned : (now n : ℕ) (s : MemStorage) → (prune_shards now n s).config ≡ s.config
config_pruned now zero s = refl
config_pruned now (suc n) s = config_pruned now n s

all_keys_ext :
    (now n : ℕ) (s s' : MemStorage)
    → ((k : ℕ) → k < n → live_keys now (s'.shards k).data_map ≡ live_keys now (s.shards k).data_map)
    → all_keys now n s' ≡ all_keys now n s
unfolding all_keys
all_keys_ext now zero s s' same = refl
all_keys_ext now (suc n) s s' same =
    rw (all_keys_ext now n s s' (λ k lt. same k (omega arith)), same n (omega arith)) refl

keys_again : (now : ℕ) (s : MemStorage) → (keys now (keys now s).1).0 ≡ (keys now s).0
unfolding keys
keys_again now s =
    let n = s.config.shard_count in
    ap (λ m. all_keys now m (prune_shards now n s))
      (ap (λ c. c.shard_count) (config_pruned now n s))
    ∙ all_keys_ext now n s (prune_shards now n s) (λ k lt.
      let test : ltb k n ≡ true = ground arith in
      ap (λ (x : Shard). live_keys now x.data_map)
        (shards_pruned now n k s ∙ ap (λ b. if b then pruned now (s.shards k) else s.shards k) test)
      ∙ live_keys-live_entries now (s.shards k).data_map)

module _ (libs : Libs) (hash_hi : Str → ℕ) where
  -- The filter has the bit of the key.
  abbrev pub Marked : List Bool → Str → Type 0
  Marked bloom key = bit_at bloom (bit_of libs hash_hi bloom_size key) ≡ true

  digest_keys-keeps :
      (now : ℕ) (ks : List Str) (bloom : List Bool) (vv : Map ℕ) (s : MemStorage) (n : ℕ)
      → bit_at bloom n ≡ true
      → bit_at (digest_keys libs hash_hi now ks bloom vv s).0 n ≡ true
  unfolding digest_keys
  digest_keys-keeps now [] bloom vv s n h = h
  digest_keys-keeps now (key ∷ ks) bloom vv s n h =
      digest_keys-keeps now ks _ _ _ n (bit_at-set bloom (bit_of libs hash_hi bloom_size key) n h)

  digest_keys-Marked :
      (now : ℕ) (ks : List Str) (bloom : List Bool) (vv : Map ℕ) (s : MemStorage)
      → length bloom ≡ bloom_size
      → All (Marked (digest_keys libs hash_hi now ks bloom vv s).0) ks
  unfolding digest_keys
  digest_keys-Marked now [] bloom vv s size = tt
  digest_keys-Marked now (key ∷ ks) bloom vv s size =
      let bit = bit_of libs hash_hi bloom_size key in
      (
        digest_keys-keeps now ks (set bloom bit true) _ _ bit
            (bit_at-set_self bloom bit (rw size (mod-lt (hash_hi key) (omega arith)))),
        digest_keys-Marked now ks (set bloom bit true) _ _ (length-set bloom bit true ∙ size),
      )

  -- The digest of the whole store has the bits of all its keys: its filter has no false negatives.
  pub digest-Marked :
      (now : ℕ) (s : MemStorage) → All (Marked (digest libs hash_hi now [] s).0) (keys now s).0
  unfolding digest
  digest-Marked now s =
      digest_keys-Marked now (keys now s).0 (replicate bloom_size false) [] (keys now s).1
        (length-replicate bloom_size false)

  -- The keys that the remote filter lacks, and the others that the store can read, one read after
  -- the other.
  unfoldable pub reported : ℕ → List Bool → List Str → MemStorage → List Str
  reported now bloom [] s = []
  reported now bloom (key ∷ ks) s =
      let (answer, s') = get_item libs.store_hash libs.lz4 now key s in
      let skipped = reported now bloom ks s in
      let rest = reported now bloom ks s' in
      elim (bit_at bloom (bit_of libs hash_hi bloom_size key)) [
        | false ↦ key ∷ skipped
        | true ↦ elim answer [ Result.ok item ↦ key ∷ rest | Result.err e ↦ rest ]
      ]

  compare_step :
      (has : Bool) (key : Str) (answer : Result StoredItem) (skipped rest skipped' rest' : List Str)
      (s1 s2 : MemStorage)
      → skipped ≡ skipped'
      → rest ≡ rest'
      → (λ (p : List Str × MemStorage). p.0)
          (if not (same_bit has true)
            then (key ∷ skipped, s1)
            else ((if differs libs hash_hi has key answer [] then key ∷ rest else rest), s2))
        ≡ (elim has [
          | false ↦ key ∷ skipped'
          | true ↦ elim answer [ Result.ok item ↦ key ∷ rest' | Result.err e ↦ rest' ]
        ])
  unfolding load
  compare_step false key answer skipped rest skipped' rest' s1 s2 p q = ap (◌∷◌ key) p
  compare_step true key (Result.ok item) skipped rest skipped' rest' s1 s2 p q = ap (◌∷◌ key) q
  compare_step true key (Result.err e) skipped rest skipped' rest' s1 s2 p q = q

  compare_keys-reported :
      (now : ℕ) (bloom local : List Bool) (ks : List Str) (s : MemStorage)
      → length bloom ≡ bloom_size
      → All (Marked local) ks
      → (compare_keys libs hash_hi now bloom [] local ks s).0 ≡ reported now bloom ks s
  unfolding compare_keys reported
  compare_keys-reported now bloom local [] s size marked = refl
  compare_keys-reported now bloom local (key ∷ ks) s size marked =
      let s' = (get_item libs.store_hash libs.lz4 now key s).1 in
      let skipped = compare_keys-reported now bloom local ks s size marked.1 in
      let rest = compare_keys-reported now bloom local ks s' size marked.1 in
      rw (size, marked.0)
        (compare_step (bit_at bloom (bit_of libs hash_hi bloom_size key)) key
          (get_item libs.store_hash libs.lz4 now key s).0 _ _ _ _ _ _ skipped rest)

  -- Compared with any filter of the digest's size and an empty version vector, which is what a
  -- round of anti-entropy passes, `Sync` reports exactly the local keys that the filter lacks, and
  -- every other local key that the store can read: also where the filter is the node's own.
  pub sync_keys-reported :
      (now : ℕ) (bloom : List Bool) (s : MemStorage)
      → length bloom ≡ bloom_size
      → (sync_keys libs hash_hi now bloom [] s).0
        ≡ reported now bloom (keys now s).0 (digest libs hash_hi now [] (keys now s).1).2
  unfolding sync_keys missing_keys
  sync_keys-reported now bloom s size =
      let s1 = (keys now s).1 in
      let local = digest libs hash_hi now [] s1 in
      rw append-nil (
        compare_keys-reported now bloom local.0 (keys now s).0 local.2 size
          (subst (All (Marked local.0)) (keys_again now s) (digest-Marked now s1)))

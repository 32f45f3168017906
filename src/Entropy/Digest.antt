-- ===== src/Entropy/Digest.antt =====
-- internal/cluster/entropy.go: `Digest`, `Sync` and a round of anti-entropy. A Bloom filter is the
-- list of its bits, eight to a byte of the source. The versions are int64 patterns; the order of
-- `Range` over the version vector is that of its list.
use grid_kv.Base.{
  ℕ, ◌%◌, Bool, true, false, not, ◌&&◌, ◌||◌, Option, none, some, List, [], ◌∷◌, ◌++◌, Str,
  is_empty, Map, load, store, length, get_elem?, set, replicate, slt, ◌==◌, if◌then◌else◌,
}
use grid_kv.Member.State.{MemberMgr, members_list}
use grid_kv.Member.Types.{NodeInfo, NodeState, state_eq}
use grid_kv.Node.{Libs}
use grid_kv.Storage.Batch.{keys}
use grid_kv.Storage.Item.{StoredItem}
use grid_kv.Storage.Shard.{MemStorage}
use grid_kv.Storage.Store.{Result, get_item}

abbrev pub bloom_size : ℕ
bloom_size = 8192

-- The bit number `n`; a filter has no others.
abbrev pub bit_at : List Bool → ℕ → Bool
bit_at bloom n = elim (get_elem? bloom n) [ none ↦ false | some b ↦ b ]

abbrev pub same_bit : Bool → Bool → Bool
same_bit true b = b
same_bit false b = not b

abbrev pub version_at : Str → Map ℕ → ℕ
version_at key vv = elim (load key vv) [ none ↦ 0 | some v ↦ v ]

abbrev pub add_version : Str → Result StoredItem → Map ℕ → Map ℕ
add_version key (Result.err e) vv = vv
add_version key (Result.ok item) vv =
    if slt (version_at key vv) item.version then store key item.version vv else vv

-- `key[:len(rangeKey)] == rangeKey`, for a key that is long enough
unfoldable pub starts_with : Str → Str → Bool
starts_with [] key = true
starts_with (c ∷ prefix) [] = false
starts_with (c ∷ prefix) (d ∷ key) = (c == d) && starts_with prefix key

unfoldable pub in_range : Str → List Str → List Str
unfolding starts_with
in_range prefix [] = []
in_range prefix (key ∷ ks) =
    let rest = in_range prefix ks in if starts_with prefix key then key ∷ rest else rest

-- The addresses of the alive members; the node itself is one of them.
unfoldable pub alive_addresses : List NodeInfo → List Str
alive_addresses [] = []
alive_addresses (info ∷ infos) =
    let rest = alive_addresses infos in
    if state_eq info.state NodeState.alive && not (is_empty info.address)
    then info.address ∷ rest
    else rest

-- `hash_hi` is the high half of the 128 bits of xxh3.
module _ (libs : Libs) (hash_hi : Str → ℕ) where
  abbrev pub bit_of : ℕ → Str → ℕ
  bit_of size key = hash_hi key % size

  -- The loop of `Digest`.
  unfoldable pub digest_keys :
      ℕ → List Str → List Bool → Map ℕ → MemStorage → List Bool × Map ℕ × MemStorage
  unfolding get_item
  digest_keys now [] bloom vv s = (bloom, vv, s)
  digest_keys now (key ∷ ks) bloom vv s =
      let (answer, s') = get_item libs.store_hash libs.lz4 now key s in
      digest_keys now ks (set bloom (bit_of bloom_size key) true) (add_version key answer vv) s'

  -- `Digest`
  unfoldable pub digest : ℕ → Str → MemStorage → List Bool × Map ℕ × MemStorage
  unfolding digest_keys in_range keys
  digest now prefix s =
      let (all, s') = keys now s in
      digest_keys now (if is_empty prefix then all else in_range prefix all)
        (replicate bloom_size false) [] s'

  -- A key whose bits agree: is it to be reported, for what the store answers?
  abbrev pub differs : Bool → Str → Result StoredItem → Map ℕ → Bool
  differs has_key key (Result.ok item) vv = elim (load key vv) [
    | none ↦ has_key
    | some v ↦ slt item.version v
  ]
  differs has_key key (Result.err e) vv = elim (load key vv) [ none ↦ false | some v ↦ true ]

  -- The loop of `Sync` over the local keys.
  unfoldable pub compare_keys :
      ℕ → List Bool → Map ℕ → List Bool → List Str → MemStorage → List Str × MemStorage
  unfolding get_item
  compare_keys now bloom vv local [] s = ([], s)
  compare_keys now bloom vv local (key ∷ ks) s =
      let bit = bit_of (length bloom) key in
      let has_key = bit_at bloom bit in
      let (answer, s') = get_item libs.store_hash libs.lz4 now key s in
      let (skipped, s1) = compare_keys now bloom vv local ks s in
      let (rest, s2) = compare_keys now bloom vv local ks s' in
      if (length bloom == 0) || not (same_bit has_key (bit_at local bit))
      then (key ∷ skipped, s1)
      else ((if differs has_key key answer vv then key ∷ rest else rest), s2)

  -- The loop of `Sync` over the remote version vector.
  unfoldable pub missing_keys : ℕ → Map ℕ → MemStorage → List Str × MemStorage
  unfolding get_item
  missing_keys now [] s = ([], s)
  missing_keys now ((key, v) ∷ vv) s =
      let (answer, s') = get_item libs.store_hash libs.lz4 now key s in
      let (rest, s'') = missing_keys now vv s' in
      ((elim answer [ Result.ok item ↦ rest | Result.err e ↦ key ∷ rest ]), s'')

  -- `Sync`
  unfoldable pub sync_keys : ℕ → List Bool → Map ℕ → MemStorage → List Str × MemStorage
  unfolding compare_keys missing_keys digest keys
  sync_keys now bloom vv s =
      let (all, s1) = keys now s in
      let (local, _, s2) = digest now [] s1 in
      let (here, s3) = compare_keys now bloom vv local all s2 in
      let (there, s4) = missing_keys now vv s3 in (here ++ there, s4)

  -- `doAntiEntropy`, where the managers are there: the address to pull from, if it pulls. The
  -- clock, in nanoseconds, is positive.
  unfoldable pub anti_entropy : ℕ → ℕ → MemberMgr → MemStorage → Option Str × MemStorage
  unfolding sync_keys digest alive_addresses members_list
  anti_entropy now unix_nano m s =
      let alive = alive_addresses (members_list m) in
      let (bloom, _, s1) = digest now [] s in
      let (different, s2) = sync_keys now bloom [] s1 in
      if length alive == 0
      then (none, s)
      else if length different == 0
      then (none, s2)
      else (get_elem? alive (unix_nano % length alive), s2)

-- ===== src/Writer/Versions.antt =====
-- The versions that internal/cluster/writer.go gives to writes.
use grid_kv.Base.{
  ℕ, suc, ◌+◌, ◌-◌, ◌≤◌, ◌<◌, ◌≡◌, refl, sym, ap, ◌∙◌, Bool, true, false, Option, none, some, List, [],
  ◌∷◌, Str, str_eq, str_eq_iff, Map, load, store, load-store, length-store_new, length-store_found,
  length, length-drop, All, slt, add64, ltb, if◌then◌else◌, ltb→lt, if_cases, inl, inr, Bool-cases,
  Option-cases, option_cases, arith,
}
use mathlib.Core.Path.{subst}
use grid_kv.Node.{Libs}
use grid_kv.Writer.Cases.{store_or_queue_cases}
use grid_kv.Storage.Item.{StoredItem}
use grid_kv.Storage.Shard.{OpType}
use grid_kv.Writer.Defs.{
  Writer, WriteError, raised, prune, next_version, stamped, tombstone_version, store_or_queue,
  then_trigger, trigger_batch, write_key,
}

abbrev pub max_int64 : ℕ
max_int64 = 0x7FFFFFFFFFFFFFFF

-- `v` comes after the last version, if there is one.
abbrev pub After : Option ℕ → ℕ → Type 0
After none v = Unit
After (some last) v = slt last v ≡ true

-- Versions that end below the largest int64.
abbrev pub Small : Option ℕ → Type 0
Small none = Unit
Small (some last) = slt last max_int64 ≡ true

slt_next : (last : ℕ) → slt last max_int64 ≡ true → slt last (add64 last 1) ≡ true
unfolding slt add64
slt_next last h = ground arith

raised-After : (version : ℕ) (last : Option ℕ) → Small last → After last (raised version last)
raised-After version none small = tt
raised-After version (some last) small =
    if_cases (λ v. slt last v ≡ true) (slt last version) version (add64 last 1) (λ later. later)
      (λ not_later. slt_next last small)

pub tombstone_version-later :
    (version given : ℕ)
    → slt given max_int64 ≡ true
    → (slt given (tombstone_version version given) ≡ true)
      × (slt 0 (tombstone_version version given) ≡ true)
unfolding slt add64
tombstone_version-later version given small = ground arith

length-prune :
    (shuffle : Map ℕ → Map ℕ) (m : Map ℕ)
    → length (shuffle m) ≡ length m
    → length (prune shuffle m) ≤ 10000
unfolding prune
length-prune shuffle m same =
    if_cases (λ (k : Map ℕ). length k ≤ 10000) (ltb 10000 (length m)) _ _
      (λ many.
        omega
          (arith, length-drop (length m - 10000 + 2000) (shuffle m), ltb→lt 10000 (length m) many))
      (λ few. ground arith)

-- The versions that the writer remembers never exceed 10000 keys, whichever of them `Range` visits
-- first when the oldest are dropped.
pub next_version-bounded :
    (shuffle : Map ℕ → Map ℕ) (wall : ℕ) (key : Str) (w : Writer)
    → ((m : Map ℕ) → length (shuffle m) ≡ length m)
    → length (next_version shuffle wall key w).1.last_versions ≤ 10000
unfolding next_version
next_version-bounded shuffle wall key w same =
    let m = store key (next_version shuffle wall key w).0 w.last_versions in
    length-prune shuffle m (same m)

-- With room for one more key nothing is forgotten.
prune-few : (shuffle : Map ℕ → Map ℕ) (m : Map ℕ) → length m ≤ 10000 → prune shuffle m ≡ m
unfolding prune
prune-few shuffle m few = ground arith

remembered :
    (shuffle : Map ℕ → Map ℕ) (wall : ℕ) (key : Str) (w : Writer)
    → length (store key (next_version shuffle wall key w).0 w.last_versions) ≤ 10000
    → (next_version shuffle wall key w).1.last_versions
      ≡ store key (next_version shuffle wall key w).0 w.last_versions
unfolding next_version
remembered shuffle wall key w few =
    prune-few shuffle _ few

-- A call of `Set`: the clock, the key and the item.
pub record SetCall : Type 0 where
  pub wall : ℕ
  pub key : Str
  pub item : StoredItem

-- The versions of the writes to one key rise, from the last one on.
abbrev pub Rising : Str → Option ℕ → List (Str × ℕ) → Type 0
Rising key last [] = Unit
Rising key last ((k, v) ∷ log) =
    if str_eq k key then After last v × Rising key (some v) log else Rising key last log

-- How many keys of a log are new to a map of versions, each counted once.
unfoldable pub new_keys : Map ℕ → List (Str × ℕ) → ℕ
new_keys m [] = 0
new_keys m ((k, v) ∷ log) =
    let rest = new_keys (store k v m) log in elim (load k m) [ none ↦ suc rest | some last ↦ rest ]

-- A map grows by the keys that are new to it.
length-store_new_keys :
    (k : Str) (v : ℕ) (m : Map ℕ) (log : List (Str × ℕ))
    → length (store k v m) + new_keys (store k v m) log ≡ length m + new_keys m ((k, v) ∷ log)
unfolding new_keys
length-store_new_keys k v m log =
    let rest = new_keys (store k v m) log in
    option_cases
      (λ n. length (store k v m) + rest ≡ length m + n)
      (load k m) (suc rest) (λ last. rest)
      (λ absent. omega (arith, length-store_new k v m absent))
      (λ w known. omega (arith, length-store_found k v w m known))

Rising-cons :
    (k key : Str) (v : ℕ) (last : Option ℕ) (log : List (Str × ℕ))
    → (str_eq k key ≡ true → After last v)
    → Rising key (if str_eq k key then some v else last) log
    → Rising key last ((k, v) ∷ log)
Rising-cons k key v last log later rest = elim (Bool-cases (str_eq k key)) [
  | inl same ↦ rw same (later same, rw same at rest)
  | inr other ↦ rw other (rw other at rest)
]

module _ (libs : Libs) (shuffle : Map ℕ → Map ℕ) where
  -- The keys and versions of the writes, which run one after the other.
  unfoldable pub write_log : List SetCall → Writer → List (Str × ℕ)
  unfolding write_key
  write_log [] w = []
  write_log (call ∷ calls) w =
      (call.key, (next_version shuffle call.wall call.key w).0)
      ∷ write_log calls (write_key libs shuffle call.wall call.key call.item w).1

  abbrev SameVersions : Map ℕ → Option WriteError × Writer → Type 0
  SameVersions m r = r.1.last_versions ≡ m

  then_trigger-last_versions :
      (m : Map ℕ) (r : Option WriteError × Writer)
      → SameVersions m r
      → SameVersions m (then_trigger r)
  unfolding trigger_batch
  then_trigger-last_versions m (none, w) same = same
  then_trigger-last_versions m (some e, w) same = same

  store_or_queue-last_versions :
      (key : Str) (item : StoredItem) (op_type : OpType) (w : Writer)
      → SameVersions w.last_versions (store_or_queue libs key item op_type w)
  unfolding trigger_batch
  store_or_queue-last_versions key item op_type w =
      store_or_queue_cases libs (SameVersions w.last_versions) key item op_type w (λ nobody. refl)
        (λ e somewhere refused. refl) (λ t ts is ok. refl)

  write_key-last_versions :
      (wall : ℕ) (key : Str) (item : StoredItem) (w : Writer)
      → (write_key libs shuffle wall key item w).1.last_versions
        ≡ (next_version shuffle wall key w).1.last_versions
  unfolding write_key
  write_key-last_versions wall key item w =
      let w' = (next_version shuffle wall key w).1 in
      then_trigger-last_versions w'.last_versions _ (
        store_or_queue-last_versions key (stamped key (next_version shuffle wall key w).0 item)
          OpType.op_set w')

  pub next_version-After :
      (wall : ℕ) (key : Str) (w : Writer)
      → Small (load key w.last_versions)
      → After (load key w.last_versions) (next_version shuffle wall key w).0
  unfolding next_version
  next_version-After wall key w small = raised-After _ (load key w.last_versions) small

  write_key-remembers :
      (wall : ℕ) (key : Str) (item : StoredItem) (w : Writer)
      → length (store key (next_version shuffle wall key w).0 w.last_versions) ≤ 10000
      → (write_key libs shuffle wall key item w).1.last_versions
        ≡ store key (next_version shuffle wall key w).0 w.last_versions
  write_key-remembers wall key item w few =
      write_key-last_versions wall key item w ∙ remembered shuffle wall key w few

  Small-if :
      (b : Bool) (v : ℕ) (last : Option ℕ)
      → slt v max_int64 ≡ true
      → Small last
      → Small (if b then some v else last)
  Small-if true v last below small = below
  Small-if false v last below small = small

  -- Across any sequence of `Set`s, whether they succeed or fail and whatever the clock shows, the
  -- versions given to one key rise strictly, as int64: as long as the keys that the writer remembers
  -- at first and the new ones that it meets are 10000 at most, so that it forgets none, and neither
  -- the last version of the key nor a version that is given has reached the largest int64.
  pub write_log-Rising :
      (key : Str) (calls : List SetCall) (w : Writer)
      → length w.last_versions + new_keys w.last_versions (write_log calls w) ≤ 10000
      → Small (load key w.last_versions)
      → All (λ (entry : Str × ℕ). slt entry.1 max_int64 ≡ true) (write_log calls w)
      → Rising key (load key w.last_versions) (write_log calls w)
  unfolding write_log
  write_log-Rising key [] w few small below = tt
  write_log-Rising key (call ∷ calls) w few small below =
      let v = (next_version shuffle call.wall call.key w).0 in
      let w' = (write_key libs shuffle call.wall call.key call.item w).1 in
      let grown = length-store_new_keys call.key v w.last_versions (write_log calls w') in
      let kept : w'.last_versions ≡ store call.key v w.last_versions =
        write_key-remembers call.wall call.key call.item w (omega (arith, grown)) in
      let next : load key w'.last_versions
          ≡ (if str_eq call.key key then some v else load key w.last_versions) =
        ap (load key) kept ∙ load-store call.key key v w.last_versions in
      let rest : Rising key (if str_eq call.key key then some v else load key w.last_versions)
          (write_log calls w') =
        subst (λ (o : Option ℕ). Rising key o (write_log calls w')) next
          (write_log-Rising key calls w'
            (omega (
              arith,
              ap (λ m. length {A = Str × ℕ} m + new_keys m (write_log calls w')) kept,
              grown,
            ))
            (subst Small (sym next)
              (Small-if (str_eq call.key key) v (load key w.last_versions) below.0 small))
            below.1) in
      Rising-cons call.key key v (load key w.last_versions) (write_log calls w')
        (λ same.
          subst (λ k. After (load k w.last_versions) v) ((str_eq_iff call.key key).0 same)
            (next_version-After call.wall call.key w (
              subst (λ k. Small (load k w.last_versions)) (sym ((str_eq_iff call.key key).0 same))
                small)))
        rest

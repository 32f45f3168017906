-- ===== src/Reader/Sources.antt =====
-- `Get` of internal/cluster/reader.go: where the item comes from, and where it comes from next.
use grid_kv.Base.{
  ℕ, ◌≡◌, refl, sym, ap, ◌∙◌, true, false, Option, none, some, List, [], ◌∷◌, Str, str_eq,
  str_eq_iff, str_eq_refl, contains, ◌⊎◌, inl, inr, Bool-cases, Option-cases, option_cases, arith,
}
use grid_kv.Member.State.{MemberMgr}
use grid_kv.Node.{Libs, Node, targets_of, read_cache, read_store, is_alive}
use grid_kv.Reader.Defs.{
  Reply, Reader, ReadResult, found, value_of, is_miss, remote_targets, first_value, read_remote,
  after_store, with_node, read,
}
use grid_kv.Storage.Item.{StoredItem, deep_copy}
use grid_kv.Storage.Store.{Result}

first_value-lem :
    (ask : Str → Reply) (ts : List Str) (x : StoredItem)
    → first_value ask ts ≡ some x
    → (t : Str) × (contains t ts ≡ true) × (value_of (ask t) ≡ some x)
unfolding first_value contains
first_value-lem ask [] x h = cc
first_value-lem ask (t ∷ ts) x h = elim (Option-cases (value_of (ask t))) [
  | inl absent ↦
      let (u, among, value) = first_value-lem ask ts x (ground arith) in (u, ground arith, value)
  | inr (y, value) ↦ (t, rw (str_eq_refl t) refl, ground arith)
]

remote_targets-among :
    (self : Str) (member : Option MemberMgr) (ts : List Str) (t : Str)
    → contains t (remote_targets self member ts) ≡ true
    → contains t ts ≡ true
unfolding remote_targets contains
remote_targets-among self member [] t h = cc
remote_targets-among self none (u ∷ ts) t h = ground (arith, remote_targets-among self none ts t)
remote_targets-among self (some m) (u ∷ ts) t h =
    ground (arith, remote_targets-among self (some m) ts t)

remote_targets-other :
    (self : Str) (member : Option MemberMgr) (ts : List Str) (t : Str)
    → contains t (remote_targets self member ts) ≡ true
    → str_eq t self ≡ false
unfolding remote_targets contains
remote_targets-other self member [] t h = cc
remote_targets-other self none (u ∷ ts) t h = ground (
  arith,
  remote_targets-other self none ts t,
  str_eq_iff u t,
  str_eq_iff u self,
  str_eq_iff t self,
)
remote_targets-other self (some m) (u ∷ ts) t h = ground (
  arith,
  remote_targets-other self (some m) ts t,
  str_eq_iff u t,
  str_eq_iff u self,
  str_eq_iff t self,
)

remote_targets-alive :
    (self : Str) (m : MemberMgr) (ts : List Str) (t : Str)
    → contains t (remote_targets self (some m) ts) ≡ true
    → is_alive t m ≡ true
unfolding remote_targets contains
remote_targets-alive self m [] t h = cc
remote_targets-alive self m (u ∷ ts) t h = elim (Bool-cases (is_alive u m)) [
  | inl up ↦ elim (Bool-cases (str_eq u t)) [
    | inl same ↦ ap (λ k. is_alive k m) (sym ((str_eq_iff u t).0 same)) ∙ up
    | inr other ↦ remote_targets-alive self m ts t (ground arith)
  ]
  | inr down ↦ remote_targets-alive self m ts t (ground arith)
]

-- A replica that is asked: one of the targets, not the node, and alive where that is known.
pub record IsRemote (self : Str) (member : Option MemberMgr) (ts : List Str) (t : Str)
    : Type 0 where
  pub target : contains t ts ≡ true
  pub remote : str_eq t self ≡ false
  pub alive : (m : MemberMgr) → member ≡ some m → is_alive t m ≡ true

remote_targets-IsRemote :
    (self : Str) (member : Option MemberMgr) (ts : List Str) (t : Str)
    → contains t (remote_targets self member ts) ≡ true
    → IsRemote self member ts t
remote_targets-IsRemote self member ts t h = record {
  target = remote_targets-among self member ts t h;
  remote = remote_targets-other self member ts t h;
  alive = λ m is. remote_targets-alive self m ts t (rw is at h);
}

module _ (libs : Libs) where
  -- A replica of the key has the item.
  abbrev pub FromReplica : Str → StoredItem → Reader → Type 0
  FromReplica key x r =
      (get : Str → Str → Reply) × (r.get_func ≡ some get)
      × ((t : Str) × IsRemote r.node.node_id r.node.member
            (targets_of libs key r.node.replica_count r.node) t
          × (value_of (get t key) ≡ some x))

  read_remote-source :
      (now : ℕ) (key : Str) (r : Reader) (x : StoredItem)
      → (read_remote libs now key r).0 ≡ found x
      → FromReplica key x r
  unfolding read_remote deep_copy
  read_remote-source now key r x h = elim (Option-cases r.get_func) [
    | inl absent ↦ absurd (ground arith)
    | inr (get, is) ↦
        let targets = targets_of libs key r.node.replica_count r.node in
        let asked = remote_targets r.node.node_id r.node.member targets in
        elim (Option-cases (first_value (λ t. get t key) asked)) [
          | inl nobody ↦ absurd (ground arith)
          | inr (y, answered) ↦
              let (t, among, value) = first_value-lem (λ t. get t key) asked y answered in
              let same : y ≡ x = ground arith in
              (
                get,
                is,
                (
                  t,
                  remote_targets-IsRemote r.node.node_id r.node.member targets t among,
                  value ∙ ap some same,
                ),
              )
        ]
  ]

  -- What a read sees of the cache and of the store.
  abbrev pub cached_item : ℕ → Str → Reader → Option StoredItem
  cached_item now key r = (read_cache libs now key r.node).0

  abbrev pub stored_item : ℕ → Str → Reader → Result StoredItem
  stored_item now key r = (read_store libs now key (read_cache libs now key r.node).1).0

  abbrev pub missed : ℕ → Str → Reader → Reader
  missed now key r = with_node r (read_store libs now key (read_cache libs now key r.node).1).1

  -- The cache and the store change nothing of what decides on the replicas.
  missed-FromReplica :
      (now : ℕ) (key : Str) (x : StoredItem) (r : Reader)
      → FromReplica key x (missed now key r)
      → FromReplica key x r
  unfolding read_cache
  missed-FromReplica now key x r =
      option_cases
        (λ (p : Option StoredItem × Node).
          FromReplica key x (with_node r (read_store libs now key p.1).1) → FromReplica key x r)
        r.node.cache _ _ (λ absent h. h) (λ c is h. h)

  after_store-source :
      (now : ℕ) (key : Str) (r : Reader) (x : StoredItem) (stored : Result StoredItem)
      → (after_store libs now key r stored).0 ≡ found x
      → (stored ≡ Result.ok x) ⊎ FromReplica key x r
  after_store-source now key r x (Result.ok item) h = inl (ground arith)
  after_store-source now key r x (Result.err e) h = elim (Bool-cases (is_miss e)) [
    | inl miss ↦ inr (read_remote-source now key r x (rw miss at h))
    | inr hard ↦ absurd (ground arith)
  ]

  pub read-missed :
      (now : ℕ) (key : Str) (r : Reader)
      → cached_item now key r ≡ none
      → read libs now key r ≡ after_store libs now key (missed now key r) (stored_item now key r)
  unfolding read
  read-missed now key r absent = rw (absent, read) refl

  pub read_hit :
      (now : ℕ) (key : Str) (r : Reader) (y : StoredItem)
      → cached_item now key r ≡ some y
      → (read libs now key r).0 ≡ found y
  unfolding read deep_copy
  read_hit now key r y cached = rw (cached, read) refl

  -- An item that `Get` returns is the one that the cache has; or, if the cache has none, the one
  -- that the store answers with; or the value of a replica of the key that was asked: one of the
  -- targets other than the node itself, alive where the members are known.
  pub read-source :
      (now : ℕ) (key : Str) (r : Reader) (x : StoredItem)
      → (read libs now key r).0 ≡ found x
      → (cached_item now key r ≡ some x)
        ⊎ ((cached_item now key r ≡ none)
            × ((stored_item now key r ≡ Result.ok x) ⊎ FromReplica key x r))
  read-source now key r x h = elim (Option-cases (cached_item now key r)) [
    | inl absent ↦
        elim (after_store-source now key (missed now key r) x (stored_item now key r)
          (sym (ap (λ (p : ReadResult × Reader). p.0) (read-missed now key r absent)) ∙ h)) [
            | inl here ↦ inr (absent, inl here)
            | inr there ↦ inr (absent, inr (missed-FromReplica now key x r there))
          ]
    | inr (y, cached) ↦
        let same : y ≡ x = ground (arith, read_hit now key r y cached) in
        inl (cached ∙ ap some same)
  ]

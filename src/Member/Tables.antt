-- ===== src/Member/Tables.antt =====
-- The well-formed tables of members, and the runs of the manager of internal/cluster/member.go.
use grid_kv.Base.{
  ◌≡◌, refl, false, inl, inr, Option, none, some, List, Str, Map, load, store, load-store, Distinct,
  store-Distinct, str_eq, str_eq_iff, is_empty, Bool-cases, arith, ℕ,
}
use grid_kv.Member.Types.{NodeInfo}
use grid_kv.Member.State.{MemberMgr}
use grid_kv.Member.Run.{Event, MemberConfig, new_member_mgr, start, run}
use grid_kv.Member.Induction.{Closed, SameNode, run-R}

-- An entry stands under its own ID and has an address.
abbrev pub EntryOf : Str → Option NodeInfo → Type 0
EntryOf id none = Unit
EntryOf id (some info) = (info.node_id ≡ id) × (is_empty info.address ≡ false)

pub record IsTable (t : Map NodeInfo) : Type 0 where
  pub distinct : Distinct t
  pub entries : (id : Str) → EntryOf id (load id t)

abbrev Keeps : Map NodeInfo → Map NodeInfo → Type 0
Keeps t u = IsTable t → IsTable u

store-IsTable :
    (t : Map NodeInfo) (id : Str) (new : NodeInfo)
    → EntryOf id (some new)
    → IsTable t
    → IsTable (store id new t)
store-IsTable t id new h w = record {
  distinct = store-Distinct id new t w.distinct;
  entries = λ j. rw (load-store id j new t) (elim (Bool-cases (str_eq id j)) [
    | inl same ↦ rw (same, ← (str_eq_iff id j).0 same) h
    | inr other ↦ rw other (w.entries j)
  ]);
}

EntryOf-same :
    (id : Str) (old new : NodeInfo)
    → SameNode old new
    → EntryOf id (some old)
    → EntryOf id (some new)
EntryOf-same id old new s h = rw (s.same_id, s.same_address) h

Keeps-Closed : Closed Keeps
Keeps-Closed = record {
  reflexive = λ t w. w;
  transitive = λ t u v g h w. h (g w);
  updates = λ t new a _. store-IsTable t new.node_id new (refl, a);
  alters = λ t id old new e s w.
      store-IsTable t id new (EntryOf-same id old new s (rw e at (w.entries id))) w;
}

pub run-IsTable : (m : MemberMgr) (es : List Event) → IsTable m.members → IsTable (run m es).members
run-IsTable = run-R Keeps Keeps-Closed

new_member_mgr-IsTable :
    (now : ℕ) (cfg : MemberConfig)
    → is_empty cfg.address ≡ false
    → IsTable (new_member_mgr now cfg).members
unfolding new_member_mgr load
new_member_mgr-IsTable now cfg a = record {
  distinct = (refl, tt);
  entries = λ id. ground (arith, str_eq_iff cfg.node_id id);
}

-- A manager that is made with an address keeps, through every sequence of events after its start,
-- a table with at most one entry for an ID, where each entry holds the ID that it stands under and
-- an address that is not empty.
pub run-new_member_mgr-IsTable :
    (now unix_nano : ℕ) (cfg : MemberConfig) (es : List Event)
    → is_empty cfg.address ≡ false
    → IsTable (run (start unix_nano (new_member_mgr now cfg)) es).members
unfolding start
run-new_member_mgr-IsTable now unix_nano cfg es a =
    run-IsTable (start unix_nano (new_member_mgr now cfg)) es (new_member_mgr-IsTable now cfg a)

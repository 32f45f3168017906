-- ===== src/Member/Growth.antt =====
-- Incarnations along a run of the manager of internal/cluster/member.go.
use grid_kv.Base.{
  inl, inr, Option, none, some, List, Str, Map, load, store, load-store, str_eq, str_eq_iff,
  slt_irrefl, slt_trans_ge, Bool-cases,
}
use grid_kv.Member.Types.{NodeInfo}
use grid_kv.Member.State.{MemberMgr}
use grid_kv.Member.Run.{Event, run}
use grid_kv.Member.Induction.{Closed, NoOlder, SameNode, run-R}

NoOlder-refl : (a : Option NodeInfo) → NoOlder a a
NoOlder-refl none = tt
NoOlder-refl (some i) = slt_irrefl i.incarnation

NoOlder-trans : (a b c : Option NodeInfo) → NoOlder a b → NoOlder b c → NoOlder a c
NoOlder-trans none b c h k = tt
NoOlder-trans (some i) none c h k = absurd h
NoOlder-trans (some i) (some j) none h k = absurd k
NoOlder-trans (some i) (some j) (some l) h k =
    slt_trans_ge i.incarnation j.incarnation l.incarnation h k

-- No member of the first table is missing in the second, or has an older incarnation there.
abbrev pub Grows : Map NodeInfo → Map NodeInfo → Type 0
Grows t u = (id : Str) → NoOlder (load id t) (load id u)

store-Grows :
    (t : Map NodeInfo) (id : Str) (new : NodeInfo)
    → NoOlder (load id t) (some new)
    → Grows t (store id new t)
store-Grows t id new h j = rw (load-store id j new t) (elim (Bool-cases (str_eq id j)) [
  | inl same ↦ rw (same, ← (str_eq_iff id j).0 same) h
  | inr other ↦ rw other (NoOlder-refl (load j t))
])

NoOlder-same : (old new : NodeInfo) → SameNode old new → NoOlder (some old) (some new)
NoOlder-same old new s = rw s.same_incarnation (slt_irrefl old.incarnation)

Grows-Closed : Closed Grows
Grows-Closed = record {
  reflexive = λ t id. NoOlder-refl (load id t);
  transitive = λ t u v g h id. NoOlder-trans (load id t) (load id u) (load id v) (g id) (h id);
  updates = λ t new _ h. store-Grows t new.node_id new h;
  alters = λ t id old new e s. store-Grows t id new (rw e (NoOlder-same old new s));
}

-- Whatever sequence of messages, ping rounds, suspect timeouts and departures a manager goes
-- through, every member that it knew it still knows, with an incarnation that is no older in the
-- order of int64.
pub run-Grows : (m : MemberMgr) (es : List Event) → Grows m.members (run m es).members
run-Grows = run-R Grows Grows-Closed

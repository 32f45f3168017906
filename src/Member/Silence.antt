-- ===== src/Member/Silence.antt =====
-- A silent member through two ping rounds of `doPing` (internal/cluster/member.go).
use grid_kv.Base.{
  ℕ, ◌+◌, ◌<◌, ◌≡◌, refl, ◌∙◌, true, false, Option, none, some, List, [], ◌∷◌, Str, load,
  load-store, Distinct, str_eq, str_eq_iff, lt→ltb, arith,
}
use grid_kv.Member.Types.{NodeState, NodeInfo, state_code}
use grid_kv.Member.State.{MemberMgr, mark_suspect, mark_dead, with_state}
use grid_kv.Member.Ping.{ping_member, visit, visit_all, do_ping, keys}
use grid_kv.Member.Run.{Event, step, run}
use grid_kv.Member.Tables.{IsTable, run-IsTable}
use grid_kv.Member.Convergence.{view, facts}
use grid_kv.Member.Detection.{
  is_overdue, silent_code, do_ping-VisitedOnce, visit-Apart, do_ping-verdict,
}

-- An entry that was last heard of at `heard`.
abbrev Silent : ℕ → Option NodeInfo → Type 0
Silent heard none = ⊥
Silent heard (some i) = i.last_active ≡ heard

visit_overdue :
    (now : ℕ) (id : Str) (m : MemberMgr) (i : NodeInfo)
    → load id m.members ≡ some i
    → is_overdue now id i m ≡ true
    → Silent i.last_active (load id (visit now id m).members)
unfolding visit ping_member mark_dead mark_suspect
visit_overdue now id m i e o = ground (
  arith,
  load-store id id (with_state NodeState.suspect i) m.members,
  load-store id id (with_state NodeState.dead i) m.members,
  str_eq_iff id id,
)

do_ping_overdue :
    (now : ℕ) (m : MemberMgr) (j : Str) (i : NodeInfo)
    → Distinct m.members
    → load j m.members ≡ some i
    → is_overdue now j i m ≡ true
    → Silent i.last_active (load j (do_ping now m).members)
do_ping_overdue now m j i d h o =
    let v = do_ping-VisitedOnce now m j d h in
    rw v.result (visit_overdue now j v.at i (v.same_entry ∙ h) (rw (v.same_self, v.same_timeout) o))

record SameConfig (m m' : MemberMgr) : Type 0 where
  same_self : m'.node_id ≡ m.node_id
  same_timeout : m'.failure_timeout ≡ m.failure_timeout

visit_all-SameConfig :
    (now : ℕ) (ids : List Str) (m : MemberMgr) → SameConfig m (visit_all now ids m)
unfolding visit_all
visit_all-SameConfig now [] m = record { same_self = refl; same_timeout = refl }
visit_all-SameConfig now (id ∷ ids) m =
    let a = visit-Apart now id id m in
    let c = visit_all-SameConfig now ids (visit now id m) in
    record { same_self = c.same_self ∙ a.same_self; same_timeout = c.same_timeout ∙ a.same_timeout }

do_ping-SameConfig : (now : ℕ) (m : MemberMgr) → SameConfig m (do_ping now m)
unfolding do_ping
do_ping-SameConfig now m = visit_all-SameConfig now (keys m.members) m

-- The second round, for what the first one left.
second_round :
    (now : ℕ) (m : MemberMgr) (j : Str) (o : Option NodeInfo) (a : Str) (c inc heard : ℕ)
    → Distinct m.members
    → load j m.members ≡ o
    → Silent heard o
    → facts o ≡ some (a, silent_code c, inc)
    → str_eq j m.node_id ≡ false
    → heard + m.failure_timeout < now
    → view j (do_ping now m) ≡ some (a, 3, inc)
second_round now m j none a c inc heard d e s f ne lt = absurd s
second_round now m j (some i) a c inc heard d e s f ne lt =
    ground (arith, do_ping-verdict now m j i d e)

-- A member other than the node itself of which nothing is heard is dead after two ping rounds, each
-- of them later than the failure timeout after the member was last heard of. Its address and its
-- incarnation are kept.
pub silence_kills :
    (now₁ now₂ : ℕ) (m : MemberMgr) (j : Str) (i : NodeInfo)
    → IsTable m.members
    → load j m.members ≡ some i
    → str_eq j m.node_id ≡ false
    → i.last_active + m.failure_timeout < now₁
    → i.last_active + m.failure_timeout < now₂
    → view j (run m (Event.pings now₁ ∷ Event.pings now₂ ∷ [])) ≡ some (i.address, 3, i.incarnation)
unfolding run step
silence_kills now₁ now₂ m j i w h ne lt₁ lt₂ =
    second_round now₂ (do_ping now₁ m) j (load j (do_ping now₁ m).members) i.address
      (state_code i.state) i.incarnation i.last_active after.distinct refl
      (do_ping_overdue now₁ m j i w.distinct h overdue)
      (do_ping-verdict now₁ m j i w.distinct h ∙ rw overdue) (rw c.same_self ne)
      (rw c.same_timeout lt₂)
  where
    overdue : is_overdue now₁ j i m ≡ true
    overdue = rw (ne, lt→ltb _ _ lt₁)

    c : SameConfig m (do_ping now₁ m)
    c = do_ping-SameConfig now₁ m

    after : IsTable (do_ping now₁ m).members
    after = run-IsTable m (Event.pings now₁ ∷ []) w

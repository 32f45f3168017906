-- ===== src/Member/State.antt =====
-- `memberMgr` and the operations that change one entry of its table: `updateNode`, `markSuspect`,
-- `markDead`, `updateLastActive`, and the sends.
use grid_kv.Base.{
  ℕ, ◌+◌, Bool, ◌&&◌, Option, none, some, List, [], ◌∷◌, map, Str, str_eq, is_empty, Map, load,
  store, slt, ltb, ◌==◌, if◌then◌else◌,
}
use grid_kv.Member.Types.{NodeState, NodeInfo, Msg, state_eq}

-- The network's `sendFunc`: whether a message to an address is sent without an error. It may go by
-- all that was sent before, the last message first.
abbrev pub SendFunc : Type 0
SendFunc = List (Str × Msg) → Str → Msg → Bool

pub record MemberMgr : Type 0 where
  pub node_id : Str
  pub address : Str
  pub incarnation : ℕ
  pub members : Map NodeInfo
  pub ping_interval : ℕ
  pub failure_timeout : ℕ
  pub suspect_timeout : ℕ
  pub indirect_probes : Map Str
  -- nil or a function
  pub send_func : Option SendFunc
  -- what was handed to `sendFunc`, the last message first
  pub sent : List (Str × Msg)
  -- calls of `onMembershipChange`
  pub changes : ℕ
  -- the scheduler's tasks: when, and the suspect to look at
  pub timers : List (ℕ × Str)

abbrev pub second : ℕ
second = 1000000000

-- `if m.onMembershipChange != nil { m.onMembershipChange() }`, for a manager that has a callback
abbrev pub notify : MemberMgr → MemberMgr
notify m = record m { changes = m.changes + 1 }

-- `if m.sendFunc != nil { _ = m.sendFunc(address, msg) }`
unfoldable pub send_to : Str → Msg → MemberMgr → MemberMgr
send_to a msg m = elim m.send_func [ none ↦ m | some f ↦ record m { sent = (a, msg) ∷ m.sent } ]

-- The address of a member, "" if it is not there.
unfoldable pub known_address : Str → MemberMgr → Str
known_address id m = elim (load id m.members) [ none ↦ [] | some info ↦ info.address ]

-- A send to a member whose address is known.
unfoldable pub send_to_member : Str → Msg → MemberMgr → MemberMgr
unfolding known_address send_to
send_to_member id msg m =
    if is_empty (known_address id m) then m else send_to (known_address id m) msg m

abbrev pub fresh_info : ℕ → Str → Str → ℕ → NodeState → NodeInfo
fresh_info now id address incarnation state = record {
  node_id = id;
  address = address;
  state = state;
  incarnation = incarnation;
  last_active = now;
  suspect_since = 0;
}

-- `updateNode` from where the entry is read; `old` is what `Load` gave.
unfoldable pub update_entry : NodeInfo → MemberMgr → Option NodeInfo → MemberMgr
update_entry new m none = notify (record m { members = store new.node_id new m.members })
update_entry new m (some info) =
    if slt new.incarnation info.incarnation
    then m
    else if state_eq info.state new.state
        && str_eq info.address new.address
        && info.incarnation == new.incarnation
    then (if ltb (info.last_active + second) new.last_active
        then record m { members = store new.node_id new m.members }
        else m)
    else notify (record m { members = store new.node_id new m.members })

unfoldable pub update_node : ℕ → Str → Str → ℕ → NodeState → MemberMgr → MemberMgr
unfolding update_entry
update_node now id address incarnation state m =
    if is_empty address
    then m
    else update_entry (fresh_info now id address incarnation state) m (load id m.members)

-- The copies that `markSuspect` and `markDead` make leave `SuspectSince` at its zero value.
abbrev pub with_state : NodeState → NodeInfo → NodeInfo
with_state s info = record info { state = s; suspect_since = 0 }

unfoldable pub mark_suspect : ℕ → Str → MemberMgr → MemberMgr
mark_suspect now id m = elim (load id m.members) [
  | none ↦ m
  | some info ↦
      if state_eq info.state NodeState.suspect
      then m
      else notify (record m {
        members = store id (with_state NodeState.suspect info) m.members;
        timers = (now + m.suspect_timeout, id) ∷ m.timers;
      })
]

unfoldable pub mark_dead : Str → MemberMgr → MemberMgr
mark_dead id m = elim (load id m.members) [
  | none ↦ m
  | some info ↦
      if state_eq info.state NodeState.dead
      then m
      else notify (record m { members = store id (with_state NodeState.dead info) m.members })
]

-- What the scheduler runs when the task of `markSuspect` is due.
unfoldable pub suspect_timer : ℕ → Str → MemberMgr → MemberMgr
suspect_timer now id m = elim (load id m.members) [
  | none ↦ m
  | some info ↦
      if state_eq info.state NodeState.suspect && ltb (info.last_active + m.suspect_timeout) now
      then mark_dead id m
      else m
]

unfoldable pub update_last_active : ℕ → Str → MemberMgr → MemberMgr
update_last_active now id m = if is_empty id then m else elim (load id m.members) [
  | none ↦ m
  | some info ↦
      if state_eq info.state NodeState.alive
      then (if ltb now (info.last_active + second)
          then m
          else record m { members = store id (record info { last_active = now }) m.members })
      else m
]

unfoldable pub members_list : MemberMgr → List NodeInfo
members_list m = map (λ e. e.1) m.members

-- `State`
unfoldable pub node_state : Str → MemberMgr → NodeState
node_state id m = elim (load id m.members) [ none ↦ NodeState.unknown | some info ↦ info.state ]

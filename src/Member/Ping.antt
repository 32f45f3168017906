-- ===== src/Member/Ping.antt =====
-- The failure detector of internal/cluster/member.go: `doPing` and `tryIndirectProbe`.
use grid_kv.Base.{
  ℕ, ◌+◌, ◌-◌, ◌*◌, ◌%◌, ◌^◌, ◌&&◌, not, Option, none, some, List, [], ◌∷◌, Str, str_eq, load, Map,
  runes, ltb, length, get_elem?, if◌then◌else◌,
}
use grid_kv.Member.Types.{NodeState, NodeInfo, Msg, state_eq}
use grid_kv.Member.State.{MemberMgr, send_to_member, mark_suspect, mark_dead, update_last_active}

-- The members that may forward a probe, in the order of the table.
unfoldable pub alive_members : Str → Str → Map NodeInfo → List Str
alive_members self target [] = []
alive_members self target ((id, info) ∷ rest) =
    let others = alive_members self target rest in
    if not (str_eq id self) && not (str_eq id target) && state_eq info.state NodeState.alive
    then id ∷ others
    else others

-- `hash = hash*31 + int(c)` over the runes, in 64 bits.
unfoldable pub probe_hash : ℕ → List ℕ → ℕ
probe_hash hash [] = hash
probe_hash hash (c ∷ cs) = probe_hash ((hash * 31 + c) % 2 ^ 64) cs

-- `if hash < 0 { hash = -hash }`. The least int64 is its own negation: no index is in range then.
unfoldable pub abs_hash : ℕ → Option ℕ
abs_hash h = if ltb h (2 ^ 63) then some h else if ltb (2 ^ 63) h then some (2 ^ 64 - h) else none

-- `aliveMembers[hash%len(aliveMembers)]`; `none` where the list is empty.
unfoldable pub proxy_of : Str → List Str → Option Str
unfolding probe_hash abs_hash runes
proxy_of target alive = elim (abs_hash (probe_hash 0 (runes target))) [
  | none ↦ none
  | some h ↦ get_elem? alive (h % length alive)
]

unfoldable pub try_indirect_probe : Str → MemberMgr → MemberMgr
try_indirect_probe target m = elim (proxy_of target (alive_members m.node_id target m.members)) [
  | none ↦ m
  | some proxy ↦
      send_to_member proxy
        (Msg.indirect_probe
          (record { from = m.node_id; target = target; incarnation = m.incarnation }))
        m
]

-- `if err := m.sendFunc(info.Address, pingMsg); err != nil {} else { m.updateLastActive(nodeID) }`
unfoldable pub send_ping : ℕ → Str → NodeInfo → MemberMgr → MemberMgr
send_ping now id info m = elim m.send_func [
  | none ↦ m
  | some f ↦
      (let m' = record m { sent = (info.address, message) ∷ m.sent } in
        if f m.sent info.address message then update_last_active now id m' else m')
]
  where
    message : Msg
    message = Msg.ping (record { from = m.node_id; to = id; incarnation = m.incarnation })

-- The body of the loop, for one member.
unfoldable pub ping_member : ℕ → Str → NodeInfo → MemberMgr → MemberMgr
ping_member now id info m =
    if str_eq id m.node_id
    then m
    else if state_eq info.state NodeState.dead
    then m
    else if ltb (info.last_active + m.failure_timeout) now
    then (if state_eq info.state NodeState.suspect then mark_dead id m else mark_suspect now id m)
    else if state_eq info.state NodeState.suspect
    then try_indirect_probe id m
    else send_ping now id info m

-- `Range` hands each key with the value that it has when it is visited.
unfoldable pub visit : ℕ → Str → MemberMgr → MemberMgr
visit now id m = elim (load id m.members) [ none ↦ m | some info ↦ ping_member now id info m ]

unfoldable pub visit_all : ℕ → List Str → MemberMgr → MemberMgr
visit_all now [] m = m
visit_all now (id ∷ ids) m = visit_all now ids (visit now id m)

unfoldable pub keys : Map NodeInfo → List Str
keys [] = []
keys ((id, _) ∷ rest) = id ∷ keys rest

unfoldable pub do_ping : ℕ → MemberMgr → MemberMgr
do_ping now m = visit_all now (keys m.members) m

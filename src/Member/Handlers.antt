-- ===== src/Member/Handlers.antt =====
-- `HandleMessage` of internal/cluster/member.go and the handlers that it dispatches to. Each
-- handler returns a nil error on every path, so only the manager is returned. `now` is the time
-- that the clock shows during the call.
use grid_kv.Base.{
  ℕ, Bool, false, ◌||◌, Option, none, some, List, [], ◌∷◌, Str, str_eq, is_empty, load, store,
  delete, ltb, ◌==◌, length, if◌then◌else◌,
}
use grid_kv.Member.Types.{
  NodeState, NodeInfo, Msg, PingMsg, AckMsg, ConnectMsg, LeaveMsg, IndirectProbeMsg, IndirectAckMsg,
  ClusterSyncMsg,
}
use grid_kv.Member.State.{
  MemberMgr, send_to, known_address, send_to_member, update_node, members_list,
}

unfoldable pub handle_ping : ℕ → PingMsg → MemberMgr → MemberMgr
handle_ping now msg m =
    let address = known_address msg.from m in
    if is_empty address
    then m
    else send_to address
        (Msg.ack (record { from = m.node_id; to = msg.from; incarnation = m.incarnation }))
        (update_node now msg.from address msg.incarnation NodeState.alive m)

-- The first half of `handleAck`: the sender is alive.
unfoldable pub refresh_sender : ℕ → AckMsg → MemberMgr → MemberMgr
refresh_sender now msg m =
    let address = known_address msg.from m in
    if is_empty address
    then m
    else update_node now msg.from address msg.incarnation NodeState.alive m

-- The second half: an ack that answers an indirect probe is passed on, once.
unfoldable pub forward_ack : AckMsg → MemberMgr → MemberMgr
forward_ack msg m = elim (load msg.from m.indirect_probes) [
  | none ↦ m
  | some sender ↦
      send_to_member sender
        (Msg.indirect_ack (record {
          from = m.node_id;
          to = sender;
          target = msg.from;
          incarnation = msg.incarnation;
        }))
        (record m { indirect_probes = delete msg.from m.indirect_probes })
]

unfoldable pub handle_ack : ℕ → AckMsg → MemberMgr → MemberMgr
handle_ack now msg m = forward_ack msg (refresh_sender now msg m)

unfoldable pub handle_connect : ℕ → ConnectMsg → MemberMgr → MemberMgr
handle_connect now msg m =
    if ltb (length msg.address) 3
    then m
    else (let m' = update_node now msg.node_id msg.address msg.incarnation NodeState.alive m in
        send_to msg.address
          (Msg.cluster_sync (record { from = m'.node_id; members = members_list m' })) m')

-- `updateNode` is called with the address "".
unfoldable pub handle_leave : ℕ → LeaveMsg → MemberMgr → MemberMgr
handle_leave now msg m = update_node now msg.node_id [] msg.incarnation NodeState.dead m

unfoldable pub handle_indirect_probe : IndirectProbeMsg → MemberMgr → MemberMgr
handle_indirect_probe msg m = elim m.send_func [
  | none ↦ m
  | some _ ↦
      (let address = known_address msg.target m in
        if is_empty address
        then m
        else send_to address
            (Msg.ping (record { from = m.node_id; to = msg.target; incarnation = msg.incarnation }))
            (record m { indirect_probes = store msg.target msg.from m.indirect_probes }))
]

-- The first half of `handleIndirectAck`: the probed node is alive.
unfoldable pub refresh_target : ℕ → IndirectAckMsg → MemberMgr → MemberMgr
refresh_target now msg m =
    let address = known_address msg.target m in
    if is_empty address
    then m
    else update_node now msg.target address msg.incarnation NodeState.alive m

unfoldable pub handle_indirect_ack : ℕ → IndirectAckMsg → MemberMgr → MemberMgr
handle_indirect_ack now msg m = elim m.send_func [
  | none ↦ m
  | some _ ↦
      send_to_member msg.to
        (Msg.ack (record { from = msg.target; to = msg.to; incarnation = msg.incarnation }))
        (refresh_target now msg m)
]

-- `member.Address[0] == 0`
abbrev pub starts_with_zero : Str → Bool
starts_with_zero [] = false
starts_with_zero (b ∷ _) = b == 0

unfoldable pub sync_member : ℕ → NodeInfo → MemberMgr → MemberMgr
sync_member now info m =
    if str_eq info.node_id m.node_id
    then m
    else if is_empty info.address
    then m
    else if ltb (length info.address) 3 || starts_with_zero info.address
    then m
    else update_node now info.node_id info.address info.incarnation info.state m

unfoldable pub sync_members : ℕ → List NodeInfo → MemberMgr → MemberMgr
sync_members now [] m = m
sync_members now (info ∷ infos) m = sync_members now infos (sync_member now info m)

unfoldable pub handle_cluster_sync : ℕ → ClusterSyncMsg → MemberMgr → MemberMgr
handle_cluster_sync now msg m = sync_members now msg.members m

-- `none` is a value of another type, or nil.
unfoldable pub handle_message : ℕ → Option Msg → MemberMgr → MemberMgr
handle_message now none m = m
handle_message now (some (Msg.ping v)) m = handle_ping now v m
handle_message now (some (Msg.ack v)) m = handle_ack now v m
handle_message now (some (Msg.connect v)) m = handle_connect now v m
handle_message now (some (Msg.leave v)) m = handle_leave now v m
handle_message now (some (Msg.indirect_probe v)) m = handle_indirect_probe v m
handle_message now (some (Msg.indirect_ack v)) m = handle_indirect_ack now v m
handle_message now (some (Msg.cluster_sync v)) m = handle_cluster_sync now v m

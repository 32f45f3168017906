-- ===== src/Member/Induction/Messages.antt =====
-- The handlers of messages, in the induction over events.
use grid_kv.Base.{ℕ, Option, none, some, List, [], ◌∷◌, Map, arith}
use grid_kv.Member.Types.{NodeState, NodeInfo, Msg, PingMsg, AckMsg, ConnectMsg, IndirectAckMsg}
use grid_kv.Member.State.{MemberMgr, send_to, send_to_member, known_address}
use grid_kv.Member.Handlers.{
  handle_ping, handle_ack, refresh_sender, handle_connect, handle_leave, handle_indirect_ack,
  refresh_target, sync_member, sync_members, handle_cluster_sync, handle_message,
}
use grid_kv.Member.Induction.Writes.{
  Closed, update_node-R, members-forward_ack, members-handle_indirect_probe,
}

module _ (R : Map NodeInfo → Map NodeInfo → Type 0) (c : Closed R) where
  handle_ping-R :
      (now : ℕ) (msg : PingMsg) (m : MemberMgr) → R m.members (handle_ping now msg m).members
  unfolding handle_ping send_to
  handle_ping-R now msg m = ground (
    arith,
    c.reflexive m.members,
    update_node-R R c now msg.from (known_address msg.from m) msg.incarnation NodeState.alive m,
  )

  handle_ack-R :
      (now : ℕ) (msg : AckMsg) (m : MemberMgr) → R m.members (handle_ack now msg m).members
  unfolding handle_ack refresh_sender
  handle_ack-R now msg m = rw (members-forward_ack msg (refresh_sender now msg m)) (
      ground (
        arith,
        c.reflexive m.members,
        update_node-R R c now msg.from (known_address msg.from m) msg.incarnation NodeState.alive m,
      ))

  handle_connect-R :
      (now : ℕ) (msg : ConnectMsg) (m : MemberMgr) → R m.members (handle_connect now msg m).members
  unfolding handle_connect send_to
  handle_connect-R now msg m = ground (
    arith,
    c.reflexive m.members,
    update_node-R R c now msg.node_id msg.address msg.incarnation NodeState.alive m,
  )

  refresh_target-R :
      (now : ℕ) (msg : IndirectAckMsg) (m : MemberMgr)
      → R m.members (refresh_target now msg m).members
  unfolding refresh_target
  refresh_target-R now msg m = ground (
    arith,
    c.reflexive m.members,
    update_node-R R c now msg.target (known_address msg.target m) msg.incarnation NodeState.alive m,
  )

  handle_indirect_ack-R :
      (now : ℕ) (msg : IndirectAckMsg) (m : MemberMgr)
      → R m.members (handle_indirect_ack now msg m).members
  unfolding handle_indirect_ack send_to_member
  handle_indirect_ack-R now msg m =
      ground (arith, c.reflexive m.members, refresh_target-R now msg m)

  sync_member-R :
      (now : ℕ) (info : NodeInfo) (m : MemberMgr) → R m.members (sync_member now info m).members
  unfolding sync_member
  sync_member-R now info m = ground (
    arith,
    c.reflexive m.members,
    update_node-R R c now info.node_id info.address info.incarnation info.state m,
  )

  sync_members-R :
      (now : ℕ) (infos : List NodeInfo) (m : MemberMgr)
      → R m.members (sync_members now infos m).members
  unfolding sync_members
  sync_members-R now [] m = c.reflexive m.members
  sync_members-R now (info ∷ infos) m =
      c.transitive _ _ _ (sync_member-R now info m)
        (sync_members-R now infos (sync_member now info m))

  pub handle_message-R :
      (now : ℕ) (msg : Option Msg) (m : MemberMgr) → R m.members (handle_message now msg m).members
  unfolding handle_message handle_leave handle_cluster_sync
  handle_message-R now none m = c.reflexive m.members
  handle_message-R now (some (Msg.ping v)) m = handle_ping-R now v m
  handle_message-R now (some (Msg.ack v)) m = handle_ack-R now v m
  handle_message-R now (some (Msg.connect v)) m = handle_connect-R now v m
  handle_message-R now (some (Msg.leave v)) m = update_node-R R c now v.node_id [] v.incarnation _ m
  handle_message-R now (some (Msg.indirect_probe v)) m =
      rw (members-handle_indirect_probe v m) (c.reflexive m.members)
  handle_message-R now (some (Msg.indirect_ack v)) m = handle_indirect_ack-R now v m
  handle_message-R now (some (Msg.cluster_sync v)) m = sync_members-R now v.members m

-- ===== src/Tests/Members.antt =====
-- Two members, "a" and "b", of internal/cluster/member.go.
use grid_kv.Base.{◌≡◌, refl, true, some, List, [], ◌∷◌, Str, str_eq, load, store, slt, bias, arith}
use grid_kv.Member.Types.{
  PingMsg, NodeState, state_code, state_eq, NodeInfo, AckMsg, IndirectProbeMsg, Msg,
}
use grid_kv.Member.State.{
  MemberMgr, SendFunc, known_address, update_node, update_entry, send_to, send_to_member,
}
use grid_kv.Member.Handlers.{handle_message, handle_connect}
use grid_kv.Member.Ping.{do_ping}
use grid_kv.Member.Run.{MemberConfig, new_member_mgr, start, Event, step, run}
use grid_kv.Member.Growth.{Grows, run-Grows}
use grid_kv.Member.Tables.{IsTable, run-new_member_mgr-IsTable}
use grid_kv.Member.Convergence.{view}
use grid_kv.Member.Detection.{do_ping-verdict}
use grid_kv.Member.Silence.{silence_kills}

abbrev id_a : Str
id_a = 97 ∷ []

abbrev id_b : Str
id_b = 98 ∷ []

abbrev address_b : Str
address_b = 49 ∷ 58 ∷ 57 ∷ []

abbrev deaf : SendFunc
deaf sent address msg = true

abbrev config_a : MemberConfig
config_a = record {
  node_id = id_a;
  address = 48 ∷ 58 ∷ 57 ∷ [];
  ping_interval = 0;
  failure_timeout = 0;
  suspect_timeout = 0;
  send_func = some deaf;
}

abbrev info_b : NodeInfo
info_b = record {
  node_id = id_b;
  address = address_b;
  state = NodeState.alive;
  incarnation = 7;
  last_active = 1;
  suspect_since = 0;
}

abbrev info_a : NodeInfo
info_a = record {
  node_id = id_a;
  address = 48 ∷ 58 ∷ 57 ∷ [];
  state = NodeState.alive;
  incarnation = 0;
  last_active = 0;
  suspect_since = 0;
}

-- "a", which has been asked by "a" itself to probe "b".
abbrev two_members : MemberMgr
two_members = record {
  node_id = id_a;
  address = 48 ∷ 58 ∷ 57 ∷ [];
  incarnation = 5;
  members = (id_a, info_a) ∷ (id_b, info_b) ∷ [];
  ping_interval = 250000000;
  failure_timeout = 100;
  suspect_timeout = 8000000000;
  indirect_probes = (id_b, id_a) ∷ [];
  send_func = some deaf;
  sent = [];
  changes = 0;
  timers = [];
}

abbrev joins : List Event
joins =
    Event.receives 1
      (some (Msg.connect (record { node_id = id_b; address = address_b; incarnation = 7 })))
    ∷ []

abbrev after_join : MemberMgr
after_join = run (start 5 (new_member_mgr 0 config_a)) joins

run-Grows_example : Grows two_members.members (run two_members joins).members
run-Grows_example = run-Grows two_members joins

run-new_member_mgr-IsTable_example : IsTable after_join.members
run-new_member_mgr-IsTable_example = run-new_member_mgr-IsTable 0 5 config_a joins refl

do_ping-verdict_example : view id_b (do_ping 500 two_members) ≡ some (address_b, 2, 7)
unfolding load str_eq state_code
do_ping-verdict_example = do_ping-verdict 500 two_members id_b info_b (refl, (refl, tt)) refl

silence_kills_example :
    view id_b (run after_join (Event.pings 12000000002 ∷ Event.pings 12000000003 ∷ []))
    ≡ some (address_b, 3, 7)
unfolding run step handle_message handle_connect update_node update_entry start new_member_mgr load
    store str_eq slt bias state_eq state_code send_to send_to_member known_address
silence_kills_example =
    silence_kills 12000000002 12000000003 after_join id_b info_b
      (run-new_member_mgr-IsTable 0 5 config_a joins refl) refl refl (omega arith) (omega arith)

abbrev probe_b : IndirectProbeMsg
probe_b = record { from = id_a; target = id_b; incarnation = 7 }

abbrev after_probe : MemberMgr
after_probe = handle_message 9 (some (Msg.indirect_probe probe_b)) two_members

abbrev ack_b : AckMsg
ack_b = record { from = id_b; to = id_a; incarnation = 7 }

abbrev after_ack : MemberMgr
after_ack = handle_message 9 (some (Msg.ack ack_b)) two_members

abbrev ping_from_b : PingMsg
ping_from_b = record { from = id_b; to = id_a; incarnation = 7 }

-- ===== src/Member/Run.antt =====
-- The life of a manager: `newMemberMgr`, `Start`, `Join`, `Leave`, and the events that reach it.
use grid_kv.Base.{
  ℕ, suc, Bool, true, false, ◌&&◌, not, Option, none, some, List, [], ◌∷◌, Str, str_eq, slt, add64,
  ltb, length, ◌==◌, if◌then◌else◌,
}
use grid_kv.Member.Types.{NodeState, NodeInfo, Msg, state_eq}
use grid_kv.Member.State.{MemberMgr, SendFunc, send_to, mark_dead, suspect_timer, fresh_info}
use grid_kv.Member.Handlers.{handle_message}
use grid_kv.Member.Ping.{do_ping}

pub record MemberConfig : Type 0 where
  pub node_id : Str
  pub address : Str
  pub ping_interval : ℕ
  pub failure_timeout : ℕ
  pub suspect_timeout : ℕ
  pub send_func : Option SendFunc

-- A duration, an int64, that is at most 0 takes the default.
abbrev or_default : ℕ → ℕ → ℕ
or_default d default = if slt 0 d then d else default

-- The executor's own error is not modelled: the manager is what comes back without one.
unfoldable pub new_member_mgr : ℕ → MemberConfig → MemberMgr
new_member_mgr now cfg = record {
  node_id = cfg.node_id;
  address = cfg.address;
  incarnation = 0;
  members = (cfg.node_id, fresh_info now cfg.node_id cfg.address 0 NodeState.alive) ∷ [];
  ping_interval = or_default cfg.ping_interval 250000000;
  failure_timeout = or_default cfg.failure_timeout 12000000000;
  suspect_timeout = or_default cfg.suspect_timeout 8000000000;
  indirect_probes = [];
  send_func = cfg.send_func;
  sent = [];
  changes = 0;
  timers = [];
}

-- `Start` takes the wall clock, `time.Now().UnixNano()`, for the first incarnation.
unfoldable pub start : ℕ → MemberMgr → MemberMgr
start unix_nano m = record m { incarnation = unix_nano }

pub data JoinError : Type 0 where
  no_send_func seeds_unreachable : JoinError

-- The loop of `Join`: the manager, how many seeds took the message, and whether one refused it.
unfoldable pub join_seeds : SendFunc → List Str → MemberMgr × ℕ × Bool → MemberMgr × ℕ × Bool
join_seeds f [] s = s
join_seeds f (addr ∷ seeds) (m, reached, failed) = join_seeds f seeds (
    if ltb (length m.address) 3 then (m, reached, failed) else (
      record m { sent = (addr, message) ∷ m.sent },
      (if f m.sent addr message then suc reached else reached),
      (if f m.sent addr message then failed else true),
    ))
  where
    message : Msg
    message =
        Msg.connect
          (record { node_id = m.node_id; address = m.address; incarnation = m.incarnation })

unfoldable pub join_result : MemberMgr × ℕ × Bool → MemberMgr × Option JoinError
join_result (m, reached, failed) =
    (m, (if (reached == 0) && failed then some JoinError.seeds_unreachable else none))

unfoldable pub join : List Str → MemberMgr → MemberMgr × Option JoinError
unfolding join_seeds join_result
join [] m = (m, none)
join (seed ∷ seeds) m = elim m.send_func [
  | none ↦ (m, some JoinError.no_send_func)
  | some f ↦ join_result (join_seeds f (seed ∷ seeds) (m, 0, false))
]

unfoldable pub notify_leaving : List (Str × NodeInfo) → MemberMgr → MemberMgr
notify_leaving [] m = m
notify_leaving ((_, info) ∷ rest) m = notify_leaving rest (
    if not (str_eq info.node_id m.node_id) && state_eq info.state NodeState.alive
    then send_to info.address
        (Msg.leave (record { node_id = m.node_id; incarnation = m.incarnation })) m
    else m)

unfoldable pub leave : MemberMgr → MemberMgr
leave m =
    let m' = mark_dead m.node_id (record m { incarnation = add64 m.incarnation 1 }) in
    notify_leaving m'.members m'

-- What can happen to a running manager, with the time at which it happens.
pub data Event : Type 0 where
  receives : ℕ → Option Msg → Event
  pings : ℕ → Event
  times_out : ℕ → Str → Event
  leaves : Event

unfoldable pub step : MemberMgr → Event → MemberMgr
step m (Event.receives now msg) = handle_message now msg m
step m (Event.pings now) = do_ping now m
step m (Event.times_out now id) = suspect_timer now id m
step m Event.leaves = leave m

unfoldable pub run : MemberMgr → List Event → MemberMgr
run m [] = m
run m (e ∷ es) = run (step m e) es

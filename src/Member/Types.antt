-- ===== src/Member/Types.antt =====
-- The data of internal/cluster/member.go and types.go. Times are nanoseconds since Go's zero time;
-- an `int64` incarnation is kept as its 64-bit pattern.
use grid_kv.Base.{ℕ, Bool, Str, List, ◌==◌}

-- An int32 of the wire; `other` holds the numbers that have no name.
pub data NodeState : Type 0 where
  unknown alive suspect dead : NodeState
  other : ℕ → NodeState

unfoldable pub state_code : NodeState → ℕ
state_code NodeState.unknown = 0
state_code NodeState.alive = 1
state_code NodeState.suspect = 2
state_code NodeState.dead = 3
state_code (NodeState.other n) = n

-- `a == b` on states
unfoldable pub state_eq : NodeState → NodeState → Bool
unfolding state_code
state_eq a b = state_code a == state_code b

pub record NodeInfo : Type 0 where
  pub node_id : Str
  pub address : Str
  pub state : NodeState
  pub incarnation : ℕ
  pub last_active : ℕ
  pub suspect_since : ℕ

pub record PingMsg : Type 0 where
  pub from : Str
  pub to : Str
  pub incarnation : ℕ

pub record ConnectMsg : Type 0 where
  pub node_id : Str
  pub address : Str
  pub incarnation : ℕ

pub record LeaveMsg : Type 0 where
  pub node_id : Str
  pub incarnation : ℕ

pub record AckMsg : Type 0 where
  pub from : Str
  pub to : Str
  pub incarnation : ℕ

pub record IndirectProbeMsg : Type 0 where
  pub from : Str
  pub target : Str
  pub incarnation : ℕ

pub record IndirectAckMsg : Type 0 where
  pub from : Str
  pub to : Str
  pub target : Str
  pub incarnation : ℕ

pub record ClusterSyncMsg : Type 0 where
  pub from : Str
  pub members : List NodeInfo

-- What `HandleMessage` switches on.
pub data Msg : Type 0 where
  ping : PingMsg → Msg
  ack : AckMsg → Msg
  connect : ConnectMsg → Msg
  leave : LeaveMsg → Msg
  indirect_probe : IndirectProbeMsg → Msg
  indirect_ack : IndirectAckMsg → Msg
  cluster_sync : ClusterSyncMsg → Msg

-- ===== src/Codec/Messages.antt =====
-- `MemberMsgCodec`: how a message of a member is written, and what is read from it. The log lines
-- are left out.
use grid_kv.Base.{
  ℕ, zero, suc, ◌+◌, ◌-◌, ◌*◌, ◌%◌, ◌^◌, Bool, false, not, ◌&&◌, Option, none, some, List, [], ◌∷◌,
  ◌++◌, Str, is_empty, length, ltb, leb, ◌==◌, if◌then◌else◌,
}
use grid_kv.Member.Types.{
  NodeState, state_code, NodeInfo, PingMsg, ConnectMsg, LeaveMsg, AckMsg, IndirectProbeMsg,
  ClusterSyncMsg, Msg,
}
use grid_kv.Codec.Wire.{◌>>=◌, ◌>>◌, require, put_uint, get_uint, encode_string, decode_string}

-- The nanoseconds from Go's zero time to 1970, `UnixNano` and `time.Unix(0, n)`
abbrev pub unix_epoch : ℕ
unix_epoch = 62135596800000000000

abbrev pub unix_nano : ℕ → ℕ
unix_nano t = (t + 4 * 2 ^ 64 - unix_epoch) % 2 ^ 64

abbrev pub unix_time : ℕ → ℕ
unix_time n = if ltb n (2 ^ 63) then unix_epoch + n else unix_epoch + n - 2 ^ 64

-- The messages that are two strings and a number, and the one that is one string and a number.
unfoldable pub encode_pair : Str → Str → ℕ → List ℕ
unfolding put_uint encode_string
encode_pair a b n = encode_string a ++ (encode_string b ++ put_uint 8 n)

unfoldable pub encode_leave : LeaveMsg → List ℕ
unfolding put_uint encode_string
encode_leave msg = encode_string msg.node_id ++ put_uint 8 msg.incarnation

unfoldable pub encode_node_info : NodeInfo → List ℕ
unfolding put_uint encode_string
encode_node_info info =
    encode_string info.node_id
    ++ (encode_string info.address
        ++ (put_uint 4 (state_code info.state)
            ++ (put_uint 8 info.incarnation ++ put_uint 8 (unix_nano info.last_active))))

unfoldable pub encode_members : List NodeInfo → List ℕ
unfolding encode_node_info
encode_members [] = []
encode_members (info ∷ members) = encode_node_info info ++ encode_members members

unfoldable pub encode_cluster_sync : ClusterSyncMsg → List ℕ
unfolding put_uint encode_string encode_members
encode_cluster_sync msg =
    encode_string msg.from ++ (put_uint 4 (length msg.members) ++ encode_members msg.members)

-- `EncodeMemberMsg`: nothing for a message that it does not list.
unfoldable pub encode_member_msg : Msg → List ℕ
unfolding encode_pair encode_leave encode_cluster_sync
encode_member_msg (Msg.ping msg) = encode_pair msg.from msg.to msg.incarnation
encode_member_msg (Msg.ack msg) = encode_pair msg.from msg.to msg.incarnation
encode_member_msg (Msg.connect msg) = encode_pair msg.node_id msg.address msg.incarnation
encode_member_msg (Msg.leave msg) = encode_leave msg
encode_member_msg (Msg.indirect_probe msg) = encode_pair msg.from msg.target msg.incarnation
encode_member_msg (Msg.cluster_sync msg) = encode_cluster_sync msg
encode_member_msg (Msg.indirect_ack msg) = []

unfoldable pub decode_ping : List ℕ → Option PingMsg
unfolding get_uint decode_string
decode_ping input = do
  (from, tail) ← decode_string input
  (to, number) ← decode_string tail
  (incarnation, rest) ← get_uint 8 number
  some (record { from = from; to = to; incarnation = incarnation })

unfoldable pub decode_ack : List ℕ → Option AckMsg
unfolding get_uint decode_string
decode_ack input = do
  (from, tail) ← decode_string input
  (to, number) ← decode_string tail
  (incarnation, rest) ← get_uint 8 number
  some (record { from = from; to = to; incarnation = incarnation })

unfoldable pub decode_indirect_probe : List ℕ → Option IndirectProbeMsg
unfolding get_uint decode_string
decode_indirect_probe input = do
  (from, tail) ← decode_string input
  (target, number) ← decode_string tail
  (incarnation, rest) ← get_uint 8 number
  some (record { from = from; target = target; incarnation = incarnation })

unfoldable pub decode_leave : List ℕ → Option LeaveMsg
unfolding get_uint decode_string
decode_leave input = do
  (node_id, number) ← decode_string input
  (incarnation, rest) ← get_uint 8 number
  some (record { node_id = node_id; incarnation = incarnation })

-- At least three bytes, and the first is not 0.
abbrev pub valid_address : Str → Bool
valid_address [] = false
valid_address (b ∷ bs) = not (ltb (length (b ∷ bs)) 3) && not (b == 0)

unfoldable pub decode_connect : List ℕ → Option ConnectMsg
unfolding get_uint decode_string
decode_connect input = do
  (node_id, tail) ← decode_string input
  require (not (is_empty node_id))
  (address, number) ← decode_string tail
  require (valid_address address)
  (incarnation, rest) ← get_uint 8 number
  some (record { node_id = node_id; address = address; incarnation = incarnation })

abbrev pub decode_state : ℕ → NodeState
decode_state n =
    if n == 0
    then NodeState.unknown
    else if n == 1
    then NodeState.alive
    else if n == 2
    then NodeState.suspect
    else if n == 3
    then NodeState.dead
    else NodeState.other n

-- The fields of a member from the time on, from the incarnation on, and from the state on.
abbrev pub read_active : Str → Str → ℕ → ℕ → ℕ × List ℕ → Option (NodeInfo × List ℕ)
read_active node_id address state incarnation (nano, rest) = some (
  record {
    node_id = node_id;
    address = address;
    state = decode_state state;
    incarnation = incarnation;
    last_active = unix_time nano;
    suspect_since = 0;
  },
  rest,
)

abbrev pub read_incarnation : Str → Str → ℕ → ℕ × List ℕ → Option (NodeInfo × List ℕ)
read_incarnation node_id address state (incarnation, tail) =
    get_uint 8 tail >>= read_active node_id address state incarnation

abbrev pub read_state : Str → Str → ℕ × List ℕ → Option (NodeInfo × List ℕ)
read_state node_id address (state, tail) =
    get_uint 8 tail >>= read_incarnation node_id address state

unfoldable pub decode_node_info : List ℕ → Option (NodeInfo × List ℕ)
unfolding get_uint decode_string
decode_node_info input = do
  (node_id, tail) ← decode_string input
  (address, tail₁) ← decode_string tail
  get_uint 4 tail₁ >>= read_state node_id address

unfoldable pub decode_members : ℕ → List ℕ → Option (List NodeInfo)
unfolding decode_node_info
decode_members zero input = some []
decode_members (suc n) input = do
  (info, rest) ← decode_node_info input
  require (valid_address info.address)
  members ← decode_members n rest
  some (info ∷ members)

abbrev pub read_members : Str → ℕ × List ℕ → Option ClusterSyncMsg
read_members from (count, rest) = do
  require (leb count 1000)
  members ← decode_members count rest
  some (record { from = from; members = members })

unfoldable pub decode_cluster_sync : List ℕ → Option ClusterSyncMsg
unfolding get_uint decode_string decode_members
decode_cluster_sync input = do
  (from, tail) ← decode_string input
  get_uint 4 tail >>= read_members from

-- The first type: a ping if it reads as one with a receiver, or an ack, or an indirect probe.
abbrev pub with_receiver : Option PingMsg → Option Msg → Option Msg
with_receiver none other = other
with_receiver (some msg) other = if is_empty msg.to then other else some (Msg.ping msg)

abbrev pub ack_with_receiver : Option AckMsg → Option Msg → Option Msg
ack_with_receiver none other = other
ack_with_receiver (some msg) other = if is_empty msg.to then other else some (Msg.ack msg)

abbrev pub as_probe : Option IndirectProbeMsg → Option Msg
as_probe none = none
as_probe (some msg) = some (Msg.indirect_probe msg)

abbrev pub as_cluster_sync : Option ClusterSyncMsg → Option Msg
as_cluster_sync none = none
as_cluster_sync (some msg) = some (Msg.cluster_sync msg)

abbrev pub as_leave : Option LeaveMsg → Option Msg
as_leave none = none
as_leave (some msg) = some (Msg.leave msg)

-- A message that reads as a connect is one; what `decodeConnectMsg` accepts has both strings.
abbrev pub connect_or_sync : Option ConnectMsg → Option Msg → Option Msg
connect_or_sync none other = other
connect_or_sync (some msg) other = some (Msg.connect msg)

-- The second type: whether a small number follows the first string.
unfoldable pub looks_like_sync : List ℕ → Bool
unfolding get_uint decode_string
looks_like_sync input =
    let count = do (from, tail) ← decode_string input; (n, rest) ← get_uint 4 tail; some n
    in not (ltb (length input) 10) && elim count [ none ↦ false | some n ↦ leb n 1000 ]

unfoldable pub decode_member_msg : List ℕ → ℕ → Option Msg
unfolding decode_ping decode_ack decode_indirect_probe decode_connect decode_cluster_sync
    decode_leave looks_like_sync
decode_member_msg input msg_type =
    let probe = as_probe (decode_indirect_probe input) in
    let sync = as_cluster_sync (decode_cluster_sync input) in
    if is_empty input
    then none
    else if msg_type == 1
    then with_receiver (decode_ping input) (ack_with_receiver (decode_ack input) probe)
    else if msg_type == 2
    then (if looks_like_sync input then sync else connect_or_sync (decode_connect input) sync)
    else if msg_type == 3
    then as_leave (decode_leave input)
    else none

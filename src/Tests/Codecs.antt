-- ===== src/Tests/Codecs.antt =====
-- Messages and operations of two members on the wire.
use grid_kv.Base.{◌≡◌, refl, sym, none, some, [], ◌∷◌, Str, slt, bias, arith}
use mathlib.Core.Option.{some-injective}
use grid_kv.Codec.SyncMessage.{NodeFits, decode_member_msg-cluster_sync}
use grid_kv.Member.Types.{
  NodeState, state_code, NodeInfo, ClusterSyncMsg, PingMsg, ConnectMsg, LeaveMsg, AckMsg,
  IndirectProbeMsg, Msg,
}
use grid_kv.Storage.Item.{StoredItem}
use grid_kv.Storage.Shard.{OpType, SyncOperation}
use grid_kv.Codec.Wire.{put_uint, encode_string}
use grid_kv.Codec.Messages.{encode_member_msg, decode_member_msg}
use grid_kv.Codec.RoundTrip.{decode_member_msg-encode_member_msg}
use grid_kv.Codec.SyncOps.{encode_op, serialize, deserialize}
use grid_kv.Codec.SyncTrip.{FitsWire, Sendable, deserialize-serialize}

abbrev pub id_a : Str
id_a = 97 ∷ []

abbrev pub id_b : Str
id_b = 98 ∷ []

abbrev address_a : Str
address_a = 49 ∷ 58 ∷ 57 ∷ []

abbrev ping_b : PingMsg
ping_b = record { from = id_a; to = id_b; incarnation = 1700000000000000000 }

abbrev connect_a : ConnectMsg
connect_a = record { node_id = id_a; address = address_a; incarnation = 300 }

abbrev leave_a : LeaveMsg
leave_a = record { node_id = id_a; incarnation = 301 }

abbrev ack_b : AckMsg
ack_b = record { from = id_a; to = id_b; incarnation = 5 }

abbrev probe_b : IndirectProbeMsg
probe_b = record { from = id_a; target = id_b; incarnation = 6 }

decode_member_msg-encode_member_msg_example :
    (decode_member_msg (encode_member_msg (Msg.ping ping_b)) 1 ≡ some (Msg.ping ping_b))
    × (decode_member_msg (encode_member_msg (Msg.connect connect_a)) 2
        ≡ some (Msg.connect connect_a))
    × (decode_member_msg (encode_member_msg (Msg.leave leave_a)) 3 ≡ some (Msg.leave leave_a))
decode_member_msg-encode_member_msg_example =
    decode_member_msg-encode_member_msg ping_b connect_a leave_a
      (omega arith, omega arith, omega arith) (omega arith, omega arith, omega arith)
      (omega arith, omega arith) refl refl refl

abbrev pub item_a : StoredItem
item_a = record { version = 9; expire_at = 0; value = 1 ∷ 2 ∷ []; key = id_a }

abbrev pub set_a : SyncOperation
set_a = record { key = id_a; op_type = OpType.op_set; item = some item_a }

abbrev pub delete_b : SyncOperation
delete_b = record { key = id_b; op_type = OpType.op_delete; item = none }

set_a-FitsWire : FitsWire set_a item_a
unfolding encode_op encode_string put_uint slt bias
set_a-FitsWire = record {
  key_length = omega arith;
  same_key = refl;
  version_bits = omega arith;
  value_length = omega arith;
  total_length = omega arith;
  named_type = refl;
  expiry = refl;
}

pub set_a-Sendable : Sendable set_a
set_a-Sendable item has = rw (sym (some-injective item_a item has)) set_a-FitsWire

pub delete_b-Sendable : Sendable delete_b
delete_b-Sendable item has = ground arith

deserialize-serialize_example :
    deserialize (serialize (set_a ∷ delete_b ∷ set_a ∷ [])) ≡ some set_a ∷ some set_a ∷ []
deserialize-serialize_example =
    deserialize-serialize (set_a ∷ delete_b ∷ set_a ∷ []) (omega arith)
      (set_a-Sendable, (delete_b-Sendable, (set_a-Sendable, tt)))

abbrev member_a : NodeInfo
member_a = record {
  node_id = id_a;
  address = address_a;
  state = NodeState.suspect;
  incarnation = 7;
  last_active = 63835596800000000000;
  suspect_since = 0;
}

abbrev sync_a : ClusterSyncMsg
sync_a = record { from = id_b; members = member_a ∷ member_a ∷ [] }

member_a-NodeFits : NodeFits member_a
unfolding state_code
member_a-NodeFits = record {
  id_length = omega arith;
  address_length = omega arith;
  valid = refl;
  state_bits = omega arith;
  named_state = refl;
  incarnation_bits = omega arith;
  active = refl;
  not_sent = refl;
}

decode_member_msg-cluster_sync_example :
    decode_member_msg (encode_member_msg (Msg.cluster_sync sync_a)) 2
    ≡ some (Msg.cluster_sync sync_a)
decode_member_msg-cluster_sync_example =
    decode_member_msg-cluster_sync sync_a member_a (member_a ∷ []) (omega arith) refl refl
      (member_a-NodeFits, (member_a-NodeFits, tt))

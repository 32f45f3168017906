-- ===== src/Codec/Echo.antt =====
-- The answer to a ping, as the one who pinged reads it from the wire.
use grid_kv.Base.{ℕ, ◌<◌, ◌^◌, ◌≡◌, refl, ◌∙◌, ap, false, some, ◌∷◌, Str, is_empty, load, arith}
use grid_kv.Member.Types.{NodeState, PingMsg, AckMsg, Msg}
use grid_kv.Member.State.{MemberMgr, SendFunc, known_address, send_to, update_node, fresh_info}
use grid_kv.Member.Handlers.{handle_message, handle_ping}
use grid_kv.Member.Relay.{update_entry-sent}
use grid_kv.Codec.Messages.{encode_member_msg, decode_member_msg}
use grid_kv.Codec.RoundTrip.{Fits16, decode_member_msg-pair}

-- What `handlePing` answers.
abbrev pub ack_of : PingMsg → MemberMgr → AckMsg
ack_of msg m = record { from = m.node_id; to = msg.from; incarnation = m.incarnation }

update_node-sent :
    (now : ℕ) (id address : Str) (inc : ℕ) (state : NodeState) (m : MemberMgr)
    → ((update_node now id address inc state m).sent ≡ m.sent)
      × ((update_node now id address inc state m).send_func ≡ m.send_func)
unfolding update_node
update_node-sent now id address inc state m =
    let k = update_entry-sent (fresh_info now id address inc state) m (load id m.members) in
    ground (arith, k.0, k.2)

send_to-sent :
    (a : Str) (msg : Msg) (m : MemberMgr) (f : SendFunc)
    → m.send_func ≡ some f
    → (send_to a msg m).sent ≡ (a, msg) ∷ m.sent
unfolding send_to
send_to-sent a msg m f can = ground (arith, can)

handle_ping_known :
    (now : ℕ) (msg : PingMsg) (m : MemberMgr)
    → is_empty (known_address msg.from m) ≡ false
    → handle_ping now msg m
      ≡ send_to
          (known_address msg.from m)
          (Msg.ack (ack_of msg m))
          (update_node now msg.from (known_address msg.from m) msg.incarnation NodeState.alive m)
unfolding handle_ping
handle_ping_known now msg m known = rw (handle_ping, known) refl

-- A manager that can send answers a ping of a member whose address it knows with one ack, and that
-- ack is read from the wire as a ping, to be answered in turn. This holds for IDs that are not
-- empty and shorter than 65536 bytes.
pub answer_reads_as_ping :
    (now : ℕ) (msg : PingMsg) (m : MemberMgr) (f : SendFunc)
    → m.send_func ≡ some f
    → is_empty (known_address msg.from m) ≡ false
    → is_empty msg.from ≡ false
    → Fits16 m.node_id
    → Fits16 msg.from
    → m.incarnation < 2 ^ 64
    → ((handle_message now (some (Msg.ping msg)) m).sent
        ≡ (known_address msg.from m, Msg.ack (ack_of msg m)) ∷ m.sent)
      × (decode_member_msg (encode_member_msg (Msg.ack (ack_of msg m))) 1
          ≡ some
              (Msg.ping (record { from = m.node_id; to = msg.from; incarnation = m.incarnation })))
unfolding handle_message encode_member_msg
answer_reads_as_ping now msg m f can known named short short' bits =
    let address = known_address msg.from m in
    let m' = update_node now msg.from address msg.incarnation NodeState.alive m in
    let same = update_node-sent now msg.from address msg.incarnation NodeState.alive m in
    (
      ap (λ r. r.sent) (handle_ping_known now msg m known)
          ∙ send_to-sent address (Msg.ack (ack_of msg m)) m' f (same.1 ∙ can)
          ∙ ap (λ held. (address, Msg.ack (ack_of msg m)) ∷ held) same.0,
      decode_member_msg-pair m.node_id msg.from m.incarnation short short' bits named,
    )

-- ===== src/Codec/RoundTrip.antt =====
-- What the codec of the member messages reads back.
use grid_kv.Base.{
  ℕ, ◌+◌, ◌*◌, ◌/◌, ◌%◌, ◌^◌, ◌<◌, ◌≡◌, refl, sym, ◌∙◌, ap, Bool, true, false, not, ◌&&◌, Option,
  none, some, [], ◌∷◌, ◌++◌, Str, is_empty, length, ltb, leb, ◌==◌, if◌then◌else◌, arith,
}
use mathlib.Core.List.{append-nil}
use grid_kv.Member.Types.{PingMsg, ConnectMsg, LeaveMsg, AckMsg, IndirectProbeMsg, Msg}
use grid_kv.Codec.Wire.{
  ◌>>=◌, bind-some, require, put_uint, get_uint, encode_string, get_uint-put_uint,
  decode_string-encode_string,
}
use grid_kv.Codec.Messages.{
  encode_pair, encode_leave, encode_member_msg, decode_ping, decode_leave, decode_connect,
  decode_ack, decode_indirect_probe, decode_cluster_sync, as_probe, as_cluster_sync, as_leave,
  decode_member_msg, valid_address, looks_like_sync, with_receiver, ack_with_receiver,
  connect_or_sync,
}

-- A number of `k` bytes at the end of a message.
last_uint : (n : ℕ) → n < 2 ^ 64 → get_uint 8 (put_uint 8 n) ≡ some (n, [])
last_uint n h = ap (get_uint 8) (sym (append-nil (put_uint 8 n))) ∙ get_uint-put_uint 8 n [] h

decode_ping-encode_pair :
    (a b : Str) (n : ℕ)
    → length a < 2 ^ 16
    → length b < 2 ^ 16
    → n < 2 ^ 64
    → decode_ping (encode_pair a b n) ≡ some (record { from = a; to = b; incarnation = n })
unfolding decode_ping encode_pair
decode_ping-encode_pair a b n ha hb hn =
    bind-some _ (decode_string-encode_string a (encode_string b ++ put_uint 8 n) ha)
    ∙ bind-some _ (decode_string-encode_string b (put_uint 8 n) hb)
    ∙ bind-some (λ p. some (record { from = a; to = b; incarnation = p.0 })) (last_uint n hn)

decode_connect-encode_pair :
    (a b : Str) (n : ℕ)
    → length a < 2 ^ 16
    → length b < 2 ^ 16
    → n < 2 ^ 64
    → is_empty a ≡ false
    → valid_address b ≡ true
    → decode_connect (encode_pair a b n)
      ≡ some (record { node_id = a; address = b; incarnation = n })
unfolding decode_connect encode_pair
decode_connect-encode_pair a b n ha hb hn named valid =
    bind-some _ (decode_string-encode_string a (encode_string b ++ put_uint 8 n) ha)
    ∙ bind-some _ (ap (λ c. require (not c)) named)
    ∙ bind-some _ (decode_string-encode_string b (put_uint 8 n) hb)
    ∙ bind-some _ (ap require valid)
    ∙ bind-some (λ p. some (record { node_id = a; address = b; incarnation = p.0 }))
        (last_uint n hn)

decode_leave-encode_leave :
    (msg : LeaveMsg)
    → length msg.node_id < 2 ^ 16
    → msg.incarnation < 2 ^ 64
    → decode_leave (encode_leave msg) ≡ some msg
unfolding decode_leave encode_leave
decode_leave-encode_leave msg h hn =
    bind-some _ (decode_string-encode_string msg.node_id (put_uint 8 msg.incarnation) h)
    ∙ bind-some (λ p. some (record { node_id = msg.node_id; incarnation = p.0 }))
        (last_uint msg.incarnation hn)

-- The fields that the wire can hold: short strings and an int64.
abbrev pub Fits16 : Str → Type 0
Fits16 s = length s < 2 ^ 16

-- A sender and a receiver make a ping of whatever has them.
pub decode_member_msg-pair :
    (a b : Str) (n : ℕ)
    → Fits16 a
    → Fits16 b
    → n < 2 ^ 64
    → is_empty b ≡ false
    → decode_member_msg (encode_pair a b n) 1
      ≡ some (Msg.ping (record { from = a; to = b; incarnation = n }))
unfolding decode_member_msg encode_pair encode_string put_uint
decode_member_msg-pair a b n ha hb hn named =
    let input = encode_pair a b n in
    ap
      (λ o.
        with_receiver o
          (ack_with_receiver (decode_ack input) (as_probe (decode_indirect_probe input))))
      (decode_ping-encode_pair a b n ha hb hn)
    ∙ rw named refl

-- The first four bytes after the string of a connect message: not a small number.
not_small :
    (c : Bool) (lo hi x y : ℕ)
    → (x == 0) ≡ false
    → c && leb (lo + 256 * (hi + 256 * (x + 256 * (y + 256 * 0)))) 1000 ≡ false
not_small c lo hi x y h = ground arith

looks_like_sync-connect :
    (a b : Str) (n : ℕ)
    → Fits16 a
    → valid_address b ≡ true
    → looks_like_sync (encode_pair a b n) ≡ false
unfolding looks_like_sync encode_pair encode_string put_uint get_uint
looks_like_sync-connect a [] n ha valid = ground arith
looks_like_sync-connect a (x ∷ []) n ha valid = ground arith
looks_like_sync-connect a (x ∷ y ∷ bs) n ha valid =
    let long = not (ltb (length (encode_pair a (x ∷ y ∷ bs) n)) 10) in
    ap (λ (o : Option ℕ). long && elim o [ none ↦ false | some m ↦ leb m 1000 ])
      (bind-some (λ p. do (m, rest) ← get_uint 4 p.1; some m)
        (decode_string-encode_string a (encode_string (x ∷ y ∷ bs) ++ put_uint 8 n) ha))
    ∙ not_small long (length (x ∷ y ∷ bs) % 256) (length (x ∷ y ∷ bs) / 256 % 256) x y
        (ground (arith, valid))

decode_member_msg-connect :
    (msg : ConnectMsg)
    → Fits16 msg.node_id
    → Fits16 msg.address
    → msg.incarnation < 2 ^ 64
    → is_empty msg.node_id ≡ false
    → valid_address msg.address ≡ true
    → decode_member_msg (encode_member_msg (Msg.connect msg)) 2 ≡ some (Msg.connect msg)
unfolding decode_member_msg encode_member_msg encode_pair encode_string put_uint
decode_member_msg-connect msg ha hb hn named valid =
    let input = encode_pair msg.node_id msg.address msg.incarnation in
    let sync = as_cluster_sync (decode_cluster_sync input) in
    ap (λ c. if c then sync else connect_or_sync (decode_connect input) sync)
      (looks_like_sync-connect msg.node_id msg.address msg.incarnation ha valid)
    ∙ ap (λ o. connect_or_sync o sync)
        (decode_connect-encode_pair msg.node_id msg.address msg.incarnation ha hb hn named valid)

-- A ping with a receiver, a connect message with a node ID and a valid address, and a leave message
-- read back as they were written, if their strings are shorter than 65536 bytes and their
-- incarnations are patterns of an int64.
pub decode_member_msg-encode_member_msg :
    (ping : PingMsg) (connect : ConnectMsg) (leave : LeaveMsg)
    → Fits16 ping.from × Fits16 ping.to × (ping.incarnation < 2 ^ 64)
    → Fits16 connect.node_id × Fits16 connect.address × (connect.incarnation < 2 ^ 64)
    → Fits16 leave.node_id × (leave.incarnation < 2 ^ 64)
    → is_empty ping.to ≡ false
    → is_empty connect.node_id ≡ false
    → valid_address connect.address ≡ true
    → (decode_member_msg (encode_member_msg (Msg.ping ping)) 1 ≡ some (Msg.ping ping))
      × (decode_member_msg (encode_member_msg (Msg.connect connect)) 2 ≡ some (Msg.connect connect))
      × (decode_member_msg (encode_member_msg (Msg.leave leave)) 3 ≡ some (Msg.leave leave))
unfolding decode_member_msg encode_member_msg encode_leave encode_string put_uint
decode_member_msg-encode_member_msg ping connect leave hp hc hl receiver named valid = (
  decode_member_msg-pair ping.from ping.to ping.incarnation hp.0 hp.1 hp.2 receiver,
  decode_member_msg-connect connect hc.0 hc.1 hc.2 named valid,
  ap as_leave (decode_leave-encode_leave leave hl.0 hl.1),
)

-- An ack and an indirect probe, with a receiver and a target, read as pings when they arrive, if
-- their strings are shorter than 65536 bytes and their incarnations are patterns of an int64.
pub decode_member_msg-ack :
    (ack : AckMsg) (probe : IndirectProbeMsg)
    → Fits16 ack.from × Fits16 ack.to × (ack.incarnation < 2 ^ 64)
    → Fits16 probe.from × Fits16 probe.target × (probe.incarnation < 2 ^ 64)
    → is_empty ack.to ≡ false
    → is_empty probe.target ≡ false
    → (decode_member_msg (encode_member_msg (Msg.ack ack)) 1
        ≡ some (Msg.ping (record { from = ack.from; to = ack.to; incarnation = ack.incarnation })))
      × (decode_member_msg (encode_member_msg (Msg.indirect_probe probe)) 1
          ≡ some (
              Msg.ping
                (record { from = probe.from; to = probe.target; incarnation = probe.incarnation })))
unfolding encode_member_msg
decode_member_msg-ack ack probe ha hp receiver target = (
  decode_member_msg-pair ack.from ack.to ack.incarnation ha.0 ha.1 ha.2 receiver,
  decode_member_msg-pair probe.from probe.target probe.incarnation hp.0 hp.1 hp.2 target,
)

-- ===== src/Codec/SyncMessage.antt =====
-- What the codec reads back of a cluster-sync message.
use grid_kv.Base.{
  ℕ, zero, suc, ◌/◌, ◌≤◌, ◌<◌, ◌^◌, ◌≡◌, refl, sym, ◌∙◌, ap, true, false, Option, none, some, List,
  [], ◌∷◌, ◌++◌, Str, is_empty, length, length-append, ltb, leb, not, ◌&&◌, All, arith,
}
use mathlib.Core.List.{append_assoc}
use grid_kv.Member.Types.{state_code, NodeInfo, ClusterSyncMsg, Msg}
use grid_kv.Codec.Wire.{
  bind-some, require, limit, put_uint, get_uint, encode_string, decode_string, get_uint-put_uint,
  decode_string-encode_string,
}
use grid_kv.Codec.Messages.{
  unix_nano, unix_time, decode_state, valid_address, encode_node_info, encode_members,
  encode_cluster_sync, read_active, read_incarnation, read_state, decode_node_info, decode_members,
  read_members, decode_cluster_sync, encode_member_msg, decode_member_msg, looks_like_sync,
  as_cluster_sync,
}

-- What the wire can hold of a member: a known address, a state with a code of 32 bits that it is
-- read from, a time between 1678 and 2262, and no time of suspicion, which is not sent.
pub record NodeFits (info : NodeInfo) : Type 0 where
  pub id_length : length info.node_id < 2 ^ 16
  pub address_length : length info.address < 2 ^ 16
  pub valid : valid_address info.address ≡ true
  pub state_bits : state_code info.state < 2 ^ 32
  pub named_state : decode_state (state_code info.state) ≡ info.state
  pub incarnation_bits : info.incarnation < 2 ^ 64
  pub active : unix_time (unix_nano info.last_active) ≡ info.last_active
  pub not_sent : info.suspect_since ≡ 0

decode_string_front :
    (s : Str) (xs rest : List ℕ)
    → length s < 2 ^ 16
    → decode_string ((encode_string s ++ xs) ++ rest) ≡ some (s, xs ++ rest)
decode_string_front s xs rest h =
    ap decode_string (append_assoc (encode_string s) xs rest)
    ∙ decode_string-encode_string s (xs ++ rest) h

get_uint_front :
    (k n : ℕ) (xs rest : List ℕ)
    → n < limit k
    → get_uint k ((put_uint k n ++ xs) ++ rest) ≡ some (n, xs ++ rest)
get_uint_front k n xs rest h =
    ap (get_uint k) (append_assoc (put_uint k n) xs rest) ∙ get_uint-put_uint k n (xs ++ rest) h

unix_nano_bound : (t : ℕ) → unix_nano t < 2 ^ 64
unix_nano_bound t = omega arith

decode_node_info-encode_node_info :
    (info : NodeInfo) (rest : List ℕ)
    → NodeFits info
    → decode_node_info (encode_node_info info ++ rest) ≡ some (info, rest)
unfolding decode_node_info encode_node_info
decode_node_info-encode_node_info info rest fits =
    let nano = unix_nano info.last_active in
    let code = state_code info.state in
    let time_part = put_uint 8 nano in
    let incarnation_part = put_uint 8 info.incarnation ++ time_part in
    let state_part = put_uint 4 code ++ incarnation_part in
    bind-some _ (
      decode_string_front info.node_id (encode_string info.address ++ state_part) rest
        fits.id_length)
    ∙ bind-some _ (decode_string_front info.address state_part rest fits.address_length)
    ∙ bind-some (read_state info.node_id info.address)
        (get_uint_front 4 code incarnation_part rest fits.state_bits)
    ∙ bind-some (read_incarnation info.node_id info.address code)
        (get_uint_front 8 info.incarnation time_part rest fits.incarnation_bits)
    ∙ bind-some (read_active info.node_id info.address code info.incarnation)
        (get_uint-put_uint 8 nano rest (unix_nano_bound info.last_active))
    ∙ rw (fits.named_state, fits.active, sym fits.not_sent) refl

length-put_uint : (k n : ℕ) → length (put_uint k n) ≡ k
unfolding put_uint
length-put_uint zero n = refl
length-put_uint (suc k) n = ap suc (length-put_uint k (n / 256))

-- Any member takes more than ten bytes.
length-encode_node_info : (info : NodeInfo) → 10 ≤ length (encode_node_info info)
unfolding encode_node_info
length-encode_node_info info =
    let time_part = put_uint 8 (unix_nano info.last_active) in
    let incarnation_part = put_uint 8 info.incarnation ++ time_part in
    let state_part = put_uint 4 (state_code info.state) ++ incarnation_part in
    omega (
      arith,
      length-append (encode_string info.node_id) (encode_string info.address ++ state_part),
      length-append (encode_string info.address) state_part,
      length-append (put_uint 4 (state_code info.state)) incarnation_part,
      length-append (put_uint 8 info.incarnation) time_part,
      length-put_uint 8 info.incarnation,
      length-put_uint 8 (unix_nano info.last_active),
    )

length-encode_cluster_sync :
    (msg : ClusterSyncMsg) (info : NodeInfo) (members : List NodeInfo)
    → msg.members ≡ info ∷ members
    → ltb (length (encode_cluster_sync msg)) 10 ≡ false
unfolding encode_cluster_sync encode_members
length-encode_cluster_sync msg info members some_one =
    let count = put_uint 4 (length msg.members) in
    let enough : 10 ≤ length (encode_members msg.members) = rw some_one (
      omega (
        arith,
        length-append (encode_node_info info) (encode_members members),
        length-encode_node_info info,
      )) in
    ground (
      arith,
      length-append (encode_string msg.from) (count ++ encode_members msg.members),
      length-append count (encode_members msg.members),
      enough,
    )

decode_members-step :
    (n : ℕ) (input rest : List ℕ) (info : NodeInfo) (members : List NodeInfo)
    → decode_node_info input ≡ some (info, rest)
    → valid_address info.address ≡ true
    → decode_members n rest ≡ some members
    → decode_members (suc n) input ≡ some (info ∷ members)
unfolding decode_members
decode_members-step n input rest info members first valid others =
    bind-some _ first ∙ bind-some _ (ap require valid) ∙ bind-some (λ ms. some (info ∷ ms)) others

decode_members-encode_members :
    (members : List NodeInfo)
    → All NodeFits members
    → decode_members (length members) (encode_members members) ≡ some members
unfolding decode_members encode_members
decode_members-encode_members [] fits = refl
decode_members-encode_members (info ∷ members) fits =
    decode_members-step (length members) (encode_node_info info ++ encode_members members)
      (encode_members members) info members
      (decode_node_info-encode_node_info info (encode_members members) fits.0) fits.0.valid
      (decode_members-encode_members members fits.1)

module _ (msg : ClusterSyncMsg) (short : length msg.from < 2 ^ 16)
    (few : leb (length msg.members) 1000 ≡ true) (fits : All NodeFits msg.members) where
  count_bytes :
      get_uint 4 (put_uint 4 (length msg.members) ++ encode_members msg.members)
      ≡ some (length msg.members, encode_members msg.members)
  count_bytes =
      get_uint-put_uint 4 (length msg.members) (encode_members msg.members) (ground (arith, few))

  decode_cluster_sync-encode_cluster_sync : decode_cluster_sync (encode_cluster_sync msg) ≡ some msg
  unfolding decode_cluster_sync encode_cluster_sync
  decode_cluster_sync-encode_cluster_sync =
      bind-some _ (
        decode_string-encode_string msg.from
          (put_uint 4 (length msg.members) ++ encode_members msg.members) short)
      ∙ bind-some (read_members msg.from) count_bytes
      ∙ bind-some _ (ap require few)
      ∙ bind-some (λ ms. some (record { from = msg.from; members = ms }))
          (decode_members-encode_members msg.members fits)

  looks_like_sync-encode_cluster_sync :
      ltb (length (encode_cluster_sync msg)) 10 ≡ false
      → looks_like_sync (encode_cluster_sync msg) ≡ true
  unfolding looks_like_sync encode_cluster_sync
  looks_like_sync-encode_cluster_sync long =
      let input = encode_cluster_sync msg in
      ap
        (λ (o : Option ℕ).
          not (ltb (length input) 10) && elim o [ none ↦ false | some n ↦ leb n 1000 ])
        (bind-some _ (
            decode_string-encode_string msg.from
              (put_uint 4 (length msg.members) ++ encode_members msg.members) short)
          ∙ bind-some (λ p. some p.0) count_bytes)
      ∙ rw (long, few) refl

not_empty : (xs : List ℕ) → ltb (length xs) 10 ≡ false → is_empty xs ≡ false
not_empty [] h = ground arith
not_empty (x ∷ xs) h = refl

decode_member_msg_sync :
    (input : List ℕ)
    → is_empty input ≡ false
    → looks_like_sync input ≡ true
    → decode_member_msg input 2 ≡ as_cluster_sync (decode_cluster_sync input)
unfolding decode_member_msg
decode_member_msg_sync input named looks = rw (decode_member_msg, named, looks) refl

-- A cluster-sync message with at least one and at most 1000 members reads back as it was written,
-- if the sender's ID is shorter than 65536 bytes and the members fit the wire.
pub decode_member_msg-cluster_sync :
    (msg : ClusterSyncMsg) (info : NodeInfo) (members : List NodeInfo)
    → length msg.from < 2 ^ 16
    → msg.members ≡ info ∷ members
    → leb (length msg.members) 1000 ≡ true
    → All NodeFits msg.members
    → decode_member_msg (encode_member_msg (Msg.cluster_sync msg)) 2 ≡ some (Msg.cluster_sync msg)
unfolding encode_member_msg
decode_member_msg-cluster_sync msg info members short some_one few fits =
    let input = encode_cluster_sync msg in
    let long = length-encode_cluster_sync msg info members some_one in
    decode_member_msg_sync input (not_empty input long)
      (looks_like_sync-encode_cluster_sync msg short few fits long)
    ∙ ap as_cluster_sync (decode_cluster_sync-encode_cluster_sync msg short few fits)

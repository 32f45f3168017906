-- ===== src/Member/Relay.antt =====
-- Indirect probes: a proxy asks a target on behalf of another node, and passes the answer on once.
use grid_kv.Base.{
  ℕ, ◌≡◌, ◌∙◌, ap, false, Option, none, some, [], ◌∷◌, Str, load, load-store, load-delete,
  str_eq_iff, is_empty, arith, inl, inr, Bool-cases,
}
use grid_kv.Member.Types.{NodeState, NodeInfo, Msg, AckMsg, IndirectProbeMsg}
use grid_kv.Member.Convergence.{view, view-update_node}
use grid_kv.Member.State.{
  MemberMgr, SendFunc, send_to, send_to_member, known_address, update_node, update_entry,
}
use grid_kv.Member.Handlers.{
  handle_message, handle_ack, handle_indirect_probe, refresh_sender, forward_ack,
}

-- The sends and the probes are not touched by `updateNode`.
pub update_entry-sent :
    (new : NodeInfo) (m : MemberMgr) (o : Option NodeInfo)
    → ((update_entry new m o).sent ≡ m.sent)
      × ((update_entry new m o).indirect_probes ≡ m.indirect_probes)
      × ((update_entry new m o).send_func ≡ m.send_func)
      × ((update_entry new m o).node_id ≡ m.node_id)
unfolding update_entry
update_entry-sent new m none = ground arith
update_entry-sent new m (some info) = ground arith

refresh_sender-sent :
    (now : ℕ) (msg : AckMsg) (m : MemberMgr)
    → ((refresh_sender now msg m).sent ≡ m.sent)
      × ((refresh_sender now msg m).indirect_probes ≡ m.indirect_probes)
      × ((refresh_sender now msg m).send_func ≡ m.send_func)
      × ((refresh_sender now msg m).node_id ≡ m.node_id)
unfolding refresh_sender update_node known_address
refresh_sender-sent now msg m = grind (arith, update_entry-sent)

-- A manager that can send, and has been asked to probe a target whose address it knows, pings the
-- target under its own name and remembers who asked.
pub indirect_probe_pings :
    (now : ℕ) (msg : IndirectProbeMsg) (m : MemberMgr) (f : SendFunc)
    → m.send_func ≡ some f
    → is_empty (known_address msg.target m) ≡ false
    → let m' = handle_message now (some (Msg.indirect_probe msg)) m in
      (m'.sent
        ≡ (
          known_address msg.target m,
          Msg.ping (record { from = m.node_id; to = msg.target; incarnation = msg.incarnation }),
        )
          ∷ m.sent)
      × (load msg.target m'.indirect_probes ≡ some msg.from)
      × (m'.members ≡ m.members)
unfolding handle_message handle_indirect_probe send_to
indirect_probe_pings now msg m f s a = ground (
  arith,
  load-store msg.target msg.target msg.from m.indirect_probes,
  str_eq_iff msg.target msg.target,
)

abbrev address_in : Option (Str × ℕ × ℕ) → Str
address_in none = []
address_in (some (a, _, _)) = a

known_address-view : (id : Str) (m : MemberMgr) → known_address id m ≡ address_in (view id m)
unfolding known_address
known_address-view id m = ground arith

-- To hear from a node under its known address changes no address.
known_address-refresh_sender :
    (now : ℕ) (msg : AckMsg) (m : MemberMgr) (j : Str)
    → known_address j (refresh_sender now msg m) ≡ known_address j m
unfolding refresh_sender
known_address-refresh_sender now msg m j = elim (Bool-cases (is_empty (known_address msg.from m))) [
  | inl e ↦ rw (e, refresh_sender)
  | inr n ↦
      rw (known_address-view j (refresh_sender now msg m), n, refresh_sender)
        (rw
          (view-update_node now msg.from (known_address msg.from m) msg.incarnation NodeState.alive
            m j n)
          (ground
            (arith, known_address-view j m, known_address-view msg.from m, str_eq_iff msg.from j)))
]

-- The second half of `handleAck`, for a probe of a member with an address.
forward_ack_sends :
    (msg : AckMsg) (sender : Str) (m : MemberMgr) (f : SendFunc)
    → m.send_func ≡ some f
    → load msg.from m.indirect_probes ≡ some sender
    → is_empty (known_address sender m) ≡ false
    → ((forward_ack msg m).sent
        ≡ (
          known_address sender m,
          Msg.indirect_ack (record {
            from = m.node_id;
            to = sender;
            target = msg.from;
            incarnation = msg.incarnation;
          }),
        )
          ∷ m.sent)
      × (load msg.from (forward_ack msg m).indirect_probes ≡ none)
unfolding forward_ack send_to_member
forward_ack_sends msg sender m f s p a =
    ground (arith, load-delete msg.from msg.from m.indirect_probes, str_eq_iff msg.from msg.from)

forward_ack_silent :
    (msg : AckMsg) (m : MemberMgr)
    → load msg.from m.indirect_probes ≡ none
    → (forward_ack msg m).sent ≡ m.sent
unfolding forward_ack
forward_ack_silent msg m p = rw (p, forward_ack)

-- An ack from a node that was probed for another member, whose address is known, is passed on to
-- that member, and the probe is forgotten: a second ack is not passed on.
pub ack_relayed_once :
    (now now' : ℕ) (msg msg' : AckMsg) (sender : Str) (m : MemberMgr) (f : SendFunc)
    → m.send_func ≡ some f
    → load msg.from m.indirect_probes ≡ some sender
    → is_empty (known_address sender m) ≡ false
    → msg'.from ≡ msg.from
    → let m' = handle_message now (some (Msg.ack msg)) m in
      (m'.sent
        ≡ (
          known_address sender m,
          Msg.indirect_ack (record {
            from = m.node_id;
            to = sender;
            target = msg.from;
            incarnation = msg.incarnation;
          }),
        )
          ∷ m.sent)
      × ((handle_message now' (some (Msg.ack msg')) m').sent ≡ m'.sent)
unfolding handle_message handle_ack
ack_relayed_once now now' msg msg' sender m f s p a e =
    let r = refresh_sender now msg m in
    let k = refresh_sender-sent now msg m in
    let q =
      forward_ack_sends msg sender r f (k.2 ∙ s) (ap (load msg.from) k.1 ∙ p)
        (rw (known_address-refresh_sender now msg m sender) a) in
    let m' = forward_ack msg r in
    let k' = refresh_sender-sent now' msg' m' in
    (
      q.0 ∙ simp (k.0, k.3, known_address-refresh_sender now msg m sender),
      forward_ack_silent msg' (refresh_sender now' msg' m')
            (ap (load msg'.from) k'.1 ∙ ap (λ a. load a m'.indirect_probes) e ∙ q.1)
          ∙ k'.0,
    )

-- ===== src/Member/Convergence.antt =====
-- `updateNode` of internal/cluster/member.go as a function on what the table says of each node.
use grid_kv.Base.{
  ℕ, ◌≡◌, refl, Bool, false, inl, inr, Option, none, some, [], ◌∷◌, Str, load, load-store, str_eq,
  str_eq_iff, is_empty, slt, Bool-cases, if◌then◌else◌, arith,
}
use grid_kv.Member.Types.{NodeState, NodeInfo, LeaveMsg, state_code, state_eq, Msg}
use grid_kv.Member.State.{MemberMgr, update_entry, update_node, fresh_info}
use grid_kv.Member.Handlers.{handle_leave, handle_message}

-- What an entry says of its node, without the times: its address, its state as the number on the
-- wire, and its incarnation.
abbrev pub facts : Option NodeInfo → Option (Str × ℕ × ℕ)
facts none = none
facts (some i) = some (i.address, state_code i.state, i.incarnation)

abbrev pub view : Str → MemberMgr → Option (Str × ℕ × ℕ)
view id m = facts (load id m.members)

-- The incarnation is older than the one that the table holds for the node.
abbrev pub is_stale : ℕ → Option (Str × ℕ × ℕ) → Bool
is_stale inc none = false
is_stale inc (some (_, _, known)) = slt inc known

view-update_entry_self :
    (new : NodeInfo) (m : MemberMgr) (old : Option NodeInfo)
    → load new.node_id m.members ≡ old
    → view new.node_id (update_entry new m old) ≡ (
        if is_stale new.incarnation (facts old)
        then facts old
        else some (new.address, state_code new.state, new.incarnation))
unfolding update_entry state_eq
view-update_entry_self new m none e =
    ground
      (arith, load-store new.node_id new.node_id new m.members, str_eq_iff new.node_id new.node_id)
view-update_entry_self new m (some info) e = ground (
  arith,
  load-store new.node_id new.node_id new m.members,
  str_eq_iff new.node_id new.node_id,
  str_eq_iff info.address new.address,
)

view-update_entry_ne :
    (new : NodeInfo) (m : MemberMgr) (old : Option NodeInfo) (j : Str)
    → str_eq new.node_id j ≡ false
    → view j (update_entry new m old) ≡ view j m
unfolding update_entry
view-update_entry_ne new m none j h = ground (arith, load-store new.node_id j new m.members)
view-update_entry_ne new m (some info) j h = ground (arith, load-store new.node_id j new m.members)

-- An update with an address changes what the table says of its own node only, and of that node
-- exactly when its incarnation is not older than the known one.
pub view-update_node :
    (now : ℕ) (id address : Str) (inc : ℕ) (s : NodeState) (m : MemberMgr) (j : Str)
    → is_empty address ≡ false
    → view j (update_node now id address inc s m) ≡ (
        if str_eq id j
        then (if is_stale inc (view id m) then view id m else some (address, state_code s, inc))
        else view j m)
unfolding update_node
view-update_node now id [] inc s m j a = cc
view-update_node now id (b ∷ address) inc s m j a = elim (Bool-cases (str_eq id j)) [
  | inl same ↦
      rw (same, ← (str_eq_iff id j).0 same)
        (view-update_entry_self (fresh_info now id (b ∷ address) inc s) m (load id m.members) refl)
  | inr other ↦
      rw other
        (view-update_entry_ne (fresh_info now id (b ∷ address) inc s) m (load id m.members) j other)
]

-- What an update with the facts `x` makes of the facts `v`.
abbrev merge : ℕ → Str × ℕ × ℕ → Option (Str × ℕ × ℕ) → Option (Str × ℕ × ℕ)
merge inc x v = if is_stale inc v then v else some x

-- A leave message changes nothing, whatever the table holds: the handler calls `updateNode` with an
-- empty address, on which `updateNode` returns at once.
pub handle_leave_ignored :
    (now : ℕ) (msg : LeaveMsg) (m : MemberMgr) → handle_message now (some (Msg.leave msg)) m ≡ m
unfolding handle_message handle_leave update_node
handle_leave_ignored now msg m = refl

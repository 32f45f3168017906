-- ===== src/Member/Induction/Writes.antt =====
-- One induction for every event of the manager: a relation between tables that holds across each
-- write of an entry, whether `updateNode` or one of the state changes makes it, holds across any run.
use grid_kv.Base.{
  ℕ, ◌≡◌, refl, ◌∙◌, false, inl, inr, Option, none, some, List, [], ◌∷◌, Str, Map, load, store, slt,
  is_empty, Option-cases, arith,
}
use grid_kv.Member.Types.{NodeState, NodeInfo, Msg, AckMsg, IndirectProbeMsg}
use grid_kv.Member.State.{
  MemberMgr, send_to, send_to_member, update_entry, update_node, mark_suspect, mark_dead,
  suspect_timer, update_last_active, fresh_info, with_state,
}
use grid_kv.Member.Handlers.{forward_ack, handle_indirect_probe}
use grid_kv.Member.Ping.{try_indirect_probe}
use grid_kv.Member.Run.{notify_leaving}

-- `b` is there if `a` is, and its incarnation is no older, as signed numbers.
abbrev pub NoOlder : Option NodeInfo → Option NodeInfo → Type 0
NoOlder none b = Unit
NoOlder (some i) none = ⊥
NoOlder (some i) (some j) = slt j.incarnation i.incarnation ≡ false

-- What a state change keeps of an entry.
pub record SameNode (i j : NodeInfo) : Type 0 where
  pub same_id : j.node_id ≡ i.node_id
  pub same_address : j.address ≡ i.address
  pub same_incarnation : j.incarnation ≡ i.incarnation

pub record Closed (R : Map NodeInfo → Map NodeInfo → Type 0) : Type 0 where
  pub reflexive : (t : Map NodeInfo) → R t t
  pub transitive : (t u v : Map NodeInfo) → R t u → R u v → R t v
  pub updates :
      (t : Map NodeInfo) (new : NodeInfo)
      → is_empty new.address ≡ false
      → NoOlder (load new.node_id t) (some new)
      → R t (store new.node_id new t)
  pub alters :
      (t : Map NodeInfo) (id : Str) (old new : NodeInfo)
      → load id t ≡ some old
      → SameNode old new
      → R t (store id new t)

pub members-send_to : (a : Str) (msg : Msg) (m : MemberMgr) → (send_to a msg m).members ≡ m.members
unfolding send_to
members-send_to a msg m = ground arith

pub members-send_to_member :
    (id : Str) (msg : Msg) (m : MemberMgr) → (send_to_member id msg m).members ≡ m.members
unfolding send_to_member
members-send_to_member id msg m = ground arith

pub members-forward_ack : (msg : AckMsg) (m : MemberMgr) → (forward_ack msg m).members ≡ m.members
unfolding forward_ack send_to_member
members-forward_ack msg m = ground arith

pub members-handle_indirect_probe :
    (msg : IndirectProbeMsg) (m : MemberMgr) → (handle_indirect_probe msg m).members ≡ m.members
unfolding handle_indirect_probe send_to
members-handle_indirect_probe msg m = ground arith

pub members-try_indirect_probe :
    (id : Str) (m : MemberMgr) → (try_indirect_probe id m).members ≡ m.members
unfolding try_indirect_probe send_to_member
members-try_indirect_probe id m = ground arith

pub members-notify_leaving :
    (l : List (Str × NodeInfo)) (m : MemberMgr) → (notify_leaving l m).members ≡ m.members
unfolding notify_leaving send_to
members-notify_leaving [] m = refl
members-notify_leaving ((id, info) ∷ l) m = members-notify_leaving l _ ∙ ground arith

module _ (R : Map NodeInfo → Map NodeInfo → Type 0) (c : Closed R) where
  update_entry-R :
      (new : NodeInfo) (m : MemberMgr) (old : Option NodeInfo)
      → R m.members m.members
      → (NoOlder old (some new) → R m.members (store new.node_id new m.members))
      → R m.members (update_entry new m old).members
  unfolding update_entry
  update_entry-R new m none same written = written tt
  update_entry-R new m (some info) same written = ground arith

  pub update_node-R :
      (now : ℕ) (id address : Str) (inc : ℕ) (s : NodeState) (m : MemberMgr)
      → R m.members (update_node now id address inc s m).members
  unfolding update_node
  update_node-R now id [] inc s m = c.reflexive m.members
  update_node-R now id (b ∷ address) inc s m =
      update_entry-R (fresh_info now id (b ∷ address) inc s) m (load id m.members)
        (c.reflexive m.members) (c.updates m.members _ refl)

  altered :
      (m : MemberMgr) (id : Str) (old new : NodeInfo)
      → load id m.members ≡ some old
      → new.node_id ≡ old.node_id
      → new.address ≡ old.address
      → new.incarnation ≡ old.incarnation
      → R m.members (store id new m.members)
  altered m id old new e p q r =
      c.alters m.members id old new e
        (record { same_id = p; same_address = q; same_incarnation = r })

  pub mark_suspect-R :
      (now : ℕ) (id : Str) (m : MemberMgr) → R m.members (mark_suspect now id m).members
  unfolding mark_suspect
  mark_suspect-R now id m = elim (Option-cases (load id m.members)) [
    | inl e ↦ rw (e, mark_suspect) (c.reflexive m.members)
    | inr (info, e) ↦ ground (
      arith,
      c.reflexive m.members,
      altered m id info (with_state NodeState.suspect info) e refl refl refl,
    )
  ]

  pub mark_dead-R : (id : Str) (m : MemberMgr) → R m.members (mark_dead id m).members
  unfolding mark_dead
  mark_dead-R id m = elim (Option-cases (load id m.members)) [
    | inl e ↦ rw (e, mark_dead) (c.reflexive m.members)
    | inr (info, e) ↦ ground (
      arith,
      c.reflexive m.members,
      altered m id info (with_state NodeState.dead info) e refl refl refl,
    )
  ]

  pub update_last_active-R :
      (now : ℕ) (id : Str) (m : MemberMgr) → R m.members (update_last_active now id m).members
  unfolding update_last_active
  update_last_active-R now id m = elim (Option-cases (load id m.members)) [
    | inl e ↦ ground (arith, c.reflexive m.members)
    | inr (info, e) ↦ ground (
      arith,
      c.reflexive m.members,
      altered m id info (record info { last_active = now }) e refl refl refl,
    )
  ]

  pub suspect_timer-R :
      (now : ℕ) (id : Str) (m : MemberMgr) → R m.members (suspect_timer now id m).members
  unfolding suspect_timer
  suspect_timer-R now id m = ground (arith, c.reflexive m.members, mark_dead-R id m)

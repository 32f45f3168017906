-- ===== src/Member/Detection.antt =====
-- What a ping round of `doPing` makes of the members that have been silent for too long.
use grid_kv.Base.{
  ℕ, ◌+◌, ◌≡◌, refl, ◌∙◌, Bool, false, inl, inr, Option, none, some, [], ◌∷◌, Str, Map, load,
  load-store, Distinct, str_eq, str_eq_iff, Option-cases, Bool-cases, ltb, not, ◌&&◌, ◌||◌, ◌==◌,
  ap, if◌then◌else◌, arith,
}
use grid_kv.Member.Types.{NodeState, NodeInfo, Msg, state_eq, state_code}
use grid_kv.Member.Convergence.{facts, view}
use grid_kv.Member.State.{
  MemberMgr, send_to_member, mark_suspect, mark_dead, update_last_active, with_state,
}
use grid_kv.Member.Ping.{
  try_indirect_probe, send_ping, ping_member, visit, visit_all, do_ping, keys,
}

-- The round leaves the node's own name and the timeout as they are, and what it makes of one
-- member it does not by way of another.
pub record Apart (id j : Str) (m m' : MemberMgr) : Type 0 where
  pub same_self : m'.node_id ≡ m.node_id
  pub same_timeout : m'.failure_timeout ≡ m.failure_timeout
  pub untouched : str_eq id j ≡ false → load j m'.members ≡ load j m.members

mark_suspect-Apart : (now : ℕ) (id j : Str) (m : MemberMgr) → Apart id j m (mark_suspect now id m)
unfolding mark_suspect
mark_suspect-Apart now id j m = elim (Option-cases (load id m.members)) [
  | inl e ↦ ground arith
  | inr (info, e) ↦ ground (arith, load-store id j (with_state NodeState.suspect info) m.members)
]

mark_dead-Apart : (id j : Str) (m : MemberMgr) → Apart id j m (mark_dead id m)
unfolding mark_dead
mark_dead-Apart id j m = elim (Option-cases (load id m.members)) [
  | inl e ↦ ground arith
  | inr (info, e) ↦ ground (arith, load-store id j (with_state NodeState.dead info) m.members)
]

update_last_active-Apart :
    (now : ℕ) (id j : Str) (m : MemberMgr) → Apart id j m (update_last_active now id m)
unfolding update_last_active
update_last_active-Apart now id j m = elim (Option-cases (load id m.members)) [
  | inl e ↦ ground arith
  | inr (info, e) ↦ ground (arith, load-store id j (record info { last_active = now }) m.members)
]

try_indirect_probe-Apart : (id j : Str) (m : MemberMgr) → Apart id j m (try_indirect_probe id m)
unfolding try_indirect_probe send_to_member
try_indirect_probe-Apart id j m = ground arith

send_ping-Apart :
    (now : ℕ) (id j : Str) (info : NodeInfo) (m : MemberMgr)
    → Apart id j m (send_ping now id info m)
unfolding send_ping
send_ping-Apart now id j info m = elim (Option-cases m.send_func) [
  | inl e ↦ ground arith
  | inr (f, e) ↦ ground (
    arith,
    update_last_active-Apart now id j (record m {
      sent =
          (
            info.address,
            Msg.ping (record { from = m.node_id; to = id; incarnation = m.incarnation }),
          )
          ∷ m.sent;
    }),
  )
]

ping_member-Apart :
    (now : ℕ) (id j : Str) (info : NodeInfo) (m : MemberMgr)
    → Apart id j m (ping_member now id info m)
unfolding ping_member
ping_member-Apart now id j info m = ground (
  arith,
  mark_dead-Apart id j m,
  mark_suspect-Apart now id j m,
  try_indirect_probe-Apart id j m,
  send_ping-Apart now id j info m,
)

pub visit-Apart : (now : ℕ) (id j : Str) (m : MemberMgr) → Apart id j m (visit now id m)
unfolding visit
visit-Apart now id j m = elim (Option-cases (load id m.members)) [
  | inl e ↦ ground arith
  | inr (info, e) ↦ rw (e, visit) (ping_member-Apart now id j info m)
]

-- A round over names that do not hold `j` leaves `j` alone.
visit_all-absent :
    (now : ℕ) (j : Str) (t : Map NodeInfo) (m : MemberMgr)
    → load j t ≡ none
    → load j (visit_all now (keys t) m).members ≡ load j m.members
unfolding visit_all keys load
visit_all-absent now j [] m e = refl
visit_all-absent now j ((id, info) ∷ t) m e =
    ground (arith, visit_all-absent now j t (visit now id m), visit-Apart now id j m)

-- A member has been silent for longer than the timeout, and is not the node itself.
abbrev pub is_overdue : ℕ → Str → NodeInfo → MemberMgr → Bool
is_overdue now id i m = not (str_eq id m.node_id) && ltb (i.last_active + m.failure_timeout) now

-- The state, by its number, to which silence takes a member: suspect (2), and from there dead (3).
abbrev pub silent_code : ℕ → ℕ
silent_code c = if (c == 2) || (c == 3) then 3 else 2

-- What a round has to say of a member for which the table holds `i`.
abbrev pub verdict : ℕ → Str → NodeInfo → MemberMgr → Option (Str × ℕ × ℕ)
verdict now id i m = some (
  i.address,
  (if is_overdue now id i m then silent_code (state_code i.state) else state_code i.state),
  i.incarnation,
)

view-update_last_active :
    (now : ℕ) (id : Str) (m : MemberMgr) → view id (update_last_active now id m) ≡ view id m
unfolding update_last_active
view-update_last_active now id m = elim (Option-cases (load id m.members)) [
  | inl e ↦ ground arith
  | inr (info, e) ↦
      ground
        (arith, load-store id id (record info { last_active = now }) m.members, str_eq_iff id id)
]

view-send_ping :
    (now : ℕ) (id : Str) (info : NodeInfo) (m : MemberMgr)
    → view id (send_ping now id info m) ≡ view id m
unfolding send_ping
view-send_ping now id info m = elim (Option-cases m.send_func) [
  | inl e ↦ rw (e, send_ping)
  | inr (f, e) ↦ ground (
    arith,
    view-update_last_active now id (record m {
      sent =
          (
            info.address,
            Msg.ping (record { from = m.node_id; to = id; incarnation = m.incarnation }),
          )
          ∷ m.sent;
    }),
  )
]

view-try_indirect_probe : (id : Str) (m : MemberMgr) → view id (try_indirect_probe id m) ≡ view id m
unfolding try_indirect_probe send_to_member
view-try_indirect_probe id m = ground arith

view-mark_suspect :
    (now : ℕ) (id : Str) (m : MemberMgr) (i : NodeInfo)
    → load id m.members ≡ some i
    → view id (mark_suspect now id m) ≡ some (i.address, 2, i.incarnation)
unfolding mark_suspect state_eq
view-mark_suspect now id m i e =
    ground (arith, load-store id id (with_state NodeState.suspect i) m.members, str_eq_iff id id)

view-mark_dead :
    (id : Str) (m : MemberMgr) (i : NodeInfo)
    → load id m.members ≡ some i
    → view id (mark_dead id m) ≡ some (i.address, 3, i.incarnation)
unfolding mark_dead state_eq
view-mark_dead id m i e =
    ground (arith, load-store id id (with_state NodeState.dead i) m.members, str_eq_iff id id)

view-visit :
    (now : ℕ) (id : Str) (m : MemberMgr) (i : NodeInfo)
    → load id m.members ≡ some i
    → view id (visit now id m) ≡ verdict now id i m
unfolding visit ping_member state_eq
view-visit now id m i e =
    rw (e, visit)
      (ground (
        arith,
        view-mark_dead id m i e,
        view-mark_suspect now id m i e,
        view-try_indirect_probe id m,
        view-send_ping now id i m,
      ))

-- A member is visited once: in a manager that agrees with the first one on what bears on it.
pub record VisitedOnce (now : ℕ) (j : Str) (m end : MemberMgr) : Type 0 where
  pub at : MemberMgr
  pub same_entry : load j at.members ≡ load j m.members
  pub same_self : at.node_id ≡ m.node_id
  pub same_timeout : at.failure_timeout ≡ m.failure_timeout
  pub result : load j end.members ≡ load j (visit now j at).members

visit_all-VisitedOnce :
    (now : ℕ) (j : Str) (t : Map NodeInfo) (m : MemberMgr) {x : NodeInfo}
    → Distinct t
    → load j t ≡ some x
    → VisitedOnce now j m (visit_all now (keys t) m)
unfolding visit_all keys load
visit_all-VisitedOnce now j [] m d e = cc
visit_all-VisitedOnce now j ((id, info) ∷ t) m d e = elim (Bool-cases (str_eq id j)) [
  | inl same ↦
      let p = (str_eq_iff id j).0 same in
      record {
        at = m;
        same_entry = refl;
        same_self = refl;
        same_timeout = refl;
        result = rw p (visit_all-absent now j t (visit now j m) (rw p at d.0));
      }
  | inr other ↦
      let a = visit-Apart now id j m in
      let r = visit_all-VisitedOnce now j t (visit now id m) d.1 (rw other at e) in
      record {
        at = r.at;
        same_entry = r.same_entry ∙ a.untouched other;
        same_self = r.same_self ∙ a.same_self;
        same_timeout = r.same_timeout ∙ a.same_timeout;
        result = r.result;
      }
]

pub do_ping-VisitedOnce :
    (now : ℕ) (m : MemberMgr) (j : Str) {i : NodeInfo}
    → Distinct m.members
    → load j m.members ≡ some i
    → VisitedOnce now j m (do_ping now m)
unfolding do_ping
do_ping-VisitedOnce now m j d h = visit_all-VisitedOnce now j m.members m d h

-- A ping round leaves the table's facts about every member as they are, but that a member other
-- than the node itself, silent for longer than the failure timeout, becomes suspect, and dead if it
-- was suspect or dead before.
pub do_ping-verdict :
    (now : ℕ) (m : MemberMgr) (j : Str) (i : NodeInfo)
    → Distinct m.members
    → load j m.members ≡ some i
    → view j (do_ping now m) ≡ verdict now j i m
do_ping-verdict now m j i d h =
    let v = do_ping-VisitedOnce now m j d h in
    ap facts v.result
    ∙ view-visit now j v.at i (v.same_entry ∙ h)
    ∙ rw (v.same_self, v.same_timeout)

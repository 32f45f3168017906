-- ===== src/Member/Induction/Rounds.antt =====
-- Ping rounds, departures and whole runs, in the induction over events.
use grid_kv.Base.{ℕ, add64, inl, inr, List, [], ◌∷◌, Str, Map, load, Option-cases, arith}
use grid_kv.Member.Types.{NodeInfo, Msg}
use grid_kv.Member.State.{MemberMgr}
use grid_kv.Member.Ping.{send_ping, ping_member, visit, visit_all, do_ping, keys}
use grid_kv.Member.Run.{Event, leave, step, run}
use grid_kv.Member.Induction.Writes.{
  Closed, mark_suspect-R, mark_dead-R, update_last_active-R, suspect_timer-R,
  members-try_indirect_probe, members-notify_leaving,
}
use grid_kv.Member.Induction.Messages.{handle_message-R}

module _ (R : Map NodeInfo → Map NodeInfo → Type 0) (c : Closed R) where
  send_ping-R :
      (now : ℕ) (id : Str) (info : NodeInfo) (m : MemberMgr)
      → R m.members (send_ping now id info m).members
  unfolding send_ping
  send_ping-R now id info m = elim (Option-cases m.send_func) [
    | inl e ↦ rw (e, send_ping) (c.reflexive m.members)
    | inr (f, e) ↦ ground (
      arith,
      c.reflexive m.members,
      update_last_active-R R c now id (record m {
        sent =
            (
              info.address,
              Msg.ping (record { from = m.node_id; to = id; incarnation = m.incarnation }),
            )
            ∷ m.sent;
      }),
    )
  ]

  ping_member-R :
      (now : ℕ) (id : Str) (info : NodeInfo) (m : MemberMgr)
      → R m.members (ping_member now id info m).members
  unfolding ping_member
  ping_member-R now id info m = ground (
    arith,
    c.reflexive m.members,
    mark_dead-R R c id m,
    mark_suspect-R R c now id m,
    members-try_indirect_probe id m,
    send_ping-R now id info m,
  )

  visit-R : (now : ℕ) (id : Str) (m : MemberMgr) → R m.members (visit now id m).members
  unfolding visit
  visit-R now id m = elim (Option-cases (load id m.members)) [
    | inl e ↦ rw (e, visit) (c.reflexive m.members)
    | inr (info, e) ↦ rw (e, visit) (ping_member-R now id info m)
  ]

  visit_all-R :
      (now : ℕ) (ids : List Str) (m : MemberMgr) → R m.members (visit_all now ids m).members
  unfolding visit_all
  visit_all-R now [] m = c.reflexive m.members
  visit_all-R now (id ∷ ids) m =
      c.transitive _ _ _ (visit-R now id m) (visit_all-R now ids (visit now id m))

  leave-R : (m : MemberMgr) → R m.members (leave m).members
  unfolding leave
  leave-R m =
      rw (members-notify_leaving _ _)
        (mark_dead-R R c m.node_id (record m { incarnation = add64 m.incarnation 1 }))

  pub step-R : (m : MemberMgr) (e : Event) → R m.members (step m e).members
  unfolding step do_ping
  step-R m (Event.receives now msg) = handle_message-R R c now msg m
  step-R m (Event.pings now) = visit_all-R now (keys m.members) m
  step-R m (Event.times_out now id) = suspect_timer-R R c now id m
  step-R m Event.leaves = leave-R m

  pub run-R : (m : MemberMgr) (es : List Event) → R m.members (run m es).members
  unfolding run
  run-R m [] = c.reflexive m.members
  run-R m (e ∷ es) = c.transitive _ _ _ (step-R m e) (run-R (step m e) es)

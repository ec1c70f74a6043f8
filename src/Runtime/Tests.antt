-- ===== src/Runtime/Tests.antt =====
-- Runs of the gate and of the connection table of app/runtime.py, and their theorems at concrete inputs.
use rapid_inbox.Base.{◌≤◌, ◌<◌, ◌≡◌, refl, ◌⊎◌, true, some, [], arith, codes}
use rapid_inbox.Base.Result.{ok, err}
use rapid_inbox.Throttle.Windows.{get_window, pop_window, trim}
use rapid_inbox.Runtime.Gate.{
  Gate, new_gate, begin_mail_maintenance, drain_mail_accepts, enter_mail_accept, leave_mail_accept,
  begins, drains, enters, leaves, Reach, created, and_then,
}
use rapid_inbox.Runtime.Exclusion.{Reach-IsExclusive}
use rapid_inbox.Runtime.Connections.{
  Connections, per_ip_limit, has_session, pop_ip, evict_stale_smtp_ip_windows, make_room,
  open_window, admit_or_refuse, count_by_ip, register_smtp_connection, ends_after_cutoff,
}
use rapid_inbox.Runtime.Limits.{IsWithin, Run, started, registers, Run-IsWithin}

-- A mail is accepted, maintenance begins, a second mail waits, the first one leaves, maintenance holds.
abbrev g1 : Gate
g1 = enter_mail_accept new_gate

abbrev g2 : Gate
g2 = begin_mail_maintenance g1

abbrev g3 : Gate
g3 = enter_mail_accept g2

abbrev g4 : Gate
g4 = record {
  mail_maintenance_active = true;
  active_mail_accepts = 0;
  draining = 1;
  holding = 0;
  accepting = 0;
}

abbrev g5 : Gate
g5 = drain_mail_accepts g4

g3_accepting : 0 < g3.accepting
unfolding enter_mail_accept begin_mail_maintenance
g3_accepting = omega arith

g3_leaves : leave_mail_accept g3 ≡ some g4
unfolding enter_mail_accept begin_mail_maintenance leave_mail_accept
g3_leaves = refl

g5_holds : g5.holding ≡ 1
unfolding drain_mail_accepts
g5_holds = refl

reach5 : Reach g5
reach5 =
    and_then
      (and_then (and_then (and_then (and_then created (enters new_gate)) (begins g1)) (enters g2))
        (leaves g3 g3_accepting g3_leaves))
      (drains g4 (omega arith))

Reach-IsExclusive_example :
    (g5.holding ≤ 1)
    × ((g5.holding ≡ 0) ⊎ (g5.accepting ≡ 0))
    × (g5.active_mail_accepts ≡ g5.accepting)
Reach-IsExclusive_example = Reach-IsExclusive g5 reach5

-- Three connections of one address, where two in 60 ticks are let in.
abbrev empty_connections : Connections
empty_connections = record { active = []; ip_windows = []; ip_expiry_order = [] }

abbrev c1 : Connections
c1 = (register_smtp_connection 10 2 60 100 (codes "a") (codes "192.0.2.1") empty_connections).0

abbrev c2 : Connections
c2 = (register_smtp_connection 10 2 60 110 (codes "b") (codes "192.0.2.1") c1).0

abbrev c3 : Connections
c3 = (register_smtp_connection 10 2 60 120 (codes "c") (codes "192.0.2.1") c2).0

third_refused :
    (register_smtp_connection 10 2 60 120 (codes "c") (codes "192.0.2.1") c2).1 ≡ err per_ip_limit
unfolding register_smtp_connection has_session count_by_ip evict_stale_smtp_ip_windows get_window
    pop_window ends_after_cutoff make_room open_window admit_or_refuse pop_ip trim
third_refused = refl

later_allowed : (register_smtp_connection 10 2 60 165 (codes "c") (codes "192.0.2.1") c3).1 ≡ ok tt
unfolding register_smtp_connection has_session count_by_ip evict_stale_smtp_ip_windows get_window
    pop_window ends_after_cutoff make_room open_window admit_or_refuse pop_ip trim
later_allowed = refl

run3 : Run 10 2 60 120 c3
run3 = registers 120 (codes "c") (codes "192.0.2.1") (omega arith) (
    registers 110 (codes "b") (codes "192.0.2.1") (omega arith)
      (registers 100 (codes "a") (codes "192.0.2.1") (omega arith) (started 100)))

Run-IsWithin_example : IsWithin 10 2 60 120 c3
Run-IsWithin_example = Run-IsWithin 10 2 60 120 c3 run3

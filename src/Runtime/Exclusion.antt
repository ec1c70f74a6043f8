-- ===== src/Runtime/Exclusion.antt =====
-- Maintenance and mail acceptance in app/runtime.py exclude each other.
use rapid_inbox.Base.{◌-◌, ◌+◌, ◌≤◌, ◌<◌, ◌≡◌, ◌⊎◌, true, false, some, arith}
use rapid_inbox.Runtime.Gate.{
  Gate, begin_mail_maintenance, drain_mail_accepts, abandon_mail_maintenance, end_mail_maintenance,
  enter_mail_accept, leave_mail_accept, Step, begins, drains, abandons, ends, enters, leaves, Reach,
  created, and_then,
}

record IsGuarded (g : Gate) : Type 0 where
  pub counted : g.active_mail_accepts ≡ g.accepting
  pub owned :
      (g.mail_maintenance_active ≡ false) × (g.draining + g.holding ≡ 0)
      ⊎ (g.mail_maintenance_active ≡ true) × (g.draining + g.holding ≡ 1)
  pub alone : (g.holding ≡ 0) ⊎ (g.accepting ≡ 0)

Step-IsGuarded : {g h : Gate} → Step g h → IsGuarded g → IsGuarded h
unfolding begin_mail_maintenance drain_mail_accepts abandon_mail_maintenance end_mail_maintenance
    enter_mail_accept leave_mail_accept
Step-IsGuarded (begins g) k = ground arith
Step-IsGuarded (drains g n) k = ground arith
Step-IsGuarded (abandons g n) k = ground arith
Step-IsGuarded (ends g n) k = ground arith
Step-IsGuarded (enters g) k = ground arith
Step-IsGuarded (leaves g n e) k = ground arith

Reach-IsGuarded : (g : Gate) → Reach g → IsGuarded g
Reach-IsGuarded g created = ground arith
Reach-IsGuarded g (and_then {before} r s) = Step-IsGuarded s (Reach-IsGuarded before r)

-- In every reachable state of the gate: at most one coroutine holds maintenance, while one holds
-- it no mail is being accepted, and the counter is the number of mails being accepted.
pub Reach-IsExclusive :
    (g : Gate)
    → Reach g
    → (g.holding ≤ 1)
      × ((g.holding ≡ 0) ⊎ (g.accepting ≡ 0))
      × (g.active_mail_accepts ≡ g.accepting)
Reach-IsExclusive g r = let k = Reach-IsGuarded g r in (ground (arith, k.owned), k.alone, k.counted)

-- Whoever has entered leaves without an underflow.
pub leave_mail_accept-returns :
    (g : Gate) → Reach g → 0 < g.accepting → (left : Gate) × (leave_mail_accept g ≡ some left)
unfolding leave_mail_accept
leave_mail_accept-returns g r n =
    let k = Reach-IsGuarded g r in
    (
      record g { active_mail_accepts = g.active_mail_accepts - 1; accepting = g.accepting - 1 },
      ground (arith, k.counted),
    )

-- ===== src/Runtime/Gate.antt =====
-- The gate between mail maintenance and mail acceptance of app/runtime.py, under its condition
-- variable. `draining`, `holding` and `accepting` count the coroutines that have set the flag and wait
-- for the accepts to leave, that have returned from `_begin_mail_maintenance`, and that have returned
-- from `_enter_mail_accept`. A coroutine that waits on the condition changes nothing.
use rapid_inbox.Base.{
  ℕ, suc, ◌-◌, ◌<◌, ◌≡◌, Bool, true, false, Option, none, some, leb, eqb, if◌then◌else◌,
}

pub record Gate : Type 0 where
  pub mail_maintenance_active : Bool
  pub active_mail_accepts : ℕ
  pub draining : ℕ
  pub holding : ℕ
  pub accepting : ℕ

abbrev pub new_gate : Gate
new_gate = record {
  mail_maintenance_active = false;
  active_mail_accepts = 0;
  draining = 0;
  holding = 0;
  accepting = 0;
}

-- the first loop of `_begin_mail_maintenance` and the flag
unfoldable pub begin_mail_maintenance : Gate → Gate
begin_mail_maintenance g =
    if g.mail_maintenance_active
    then g
    else record g { mail_maintenance_active = true; draining = suc g.draining }

-- its second loop, when it wakes up
unfoldable pub drain_mail_accepts : Gate → Gate
drain_mail_accepts g =
    if eqb g.active_mail_accepts 0
    then record g { draining = g.draining - 1; holding = suc g.holding }
    else g

-- its error path
unfoldable pub abandon_mail_maintenance : Gate → Gate
abandon_mail_maintenance g = record g { mail_maintenance_active = false; draining = g.draining - 1 }

unfoldable pub end_mail_maintenance : Gate → Gate
end_mail_maintenance g = record g { mail_maintenance_active = false; holding = g.holding - 1 }

unfoldable pub enter_mail_accept : Gate → Gate
enter_mail_accept g =
    if g.mail_maintenance_active
    then g
    else record g { active_mail_accepts = suc g.active_mail_accepts; accepting = suc g.accepting }

-- none is the exception on an underflow
unfoldable pub leave_mail_accept : Gate → Option Gate
leave_mail_accept g =
    if leb g.active_mail_accepts 0
    then none
    else some
        (record g { active_mail_accepts = g.active_mail_accepts - 1; accepting = g.accepting - 1 })

-- Any interleaving of maintenance and of accepts: each coroutine ends what it has begun.
pub data Step : Gate → Gate → Type 0 where
  begins : (g : Gate) → Step g (begin_mail_maintenance g)
  drains : (g : Gate) → 0 < g.draining → Step g (drain_mail_accepts g)
  abandons : (g : Gate) → 0 < g.draining → Step g (abandon_mail_maintenance g)
  ends : (g : Gate) → 0 < g.holding → Step g (end_mail_maintenance g)
  enters : (g : Gate) → Step g (enter_mail_accept g)
  leaves :
      (g : Gate) {left : Gate} → 0 < g.accepting → leave_mail_accept g ≡ some left → Step g left

pub data Reach : Gate → Type 0 where
  created : Reach new_gate
  and_then : {before after : Gate} → Reach before → Step before after → Reach after

-- ===== src/Pool/Lifecycle.antt =====
-- Admission, dispatch, maintenance and shutdown keep the invariant of the pool of
-- app/db/read_pool.py.
use rapid_inbox.Pool.Dispatch.{unfed}
use rapid_inbox.Pool.Enter.{opened-serves}
use rapid_inbox.Pool.Admit.{tell}
use rapid_inbox.Base.{◌≡◌, refl, ap, ◌⊎◌, inl, inr, true, false, arith, All}
use rapid_inbox.Writer.Admission.{waiting_count}
use rapid_inbox.Writer.Counts.{count_granted-reject_all}
use rapid_inbox.Pool.State.{
  Phase, new, starting, opened, pausing, paused, closing, closed, Pool, is_opened,
  advance_lifecycle,
}
use rapid_inbox.Pool.Actor.{
  begin_start, finish_start, reject_waiters, pause_and_drain, resume, close,
}
use rapid_inbox.Pool.Sums.{Serving, Drained, Parked, Winding, Orderly, All-map}
use rapid_inbox.Pool.Queues.{
  Winding-of_Serving, Winding-of_Drained, Winding-of_Parked, Serving-of_Parked, Orderly-of_Winding,
}
use rapid_inbox.Pool.Steps.{
  IsBalanced, Unended, Protocol, serving, drain, halted, winding, ending, IsHealthy,
}

begin_start-cases :
    (p : Pool)
    → ((begin_start p).0 ≡ p)
      ⊎ (p.state ≡ new) × ((begin_start p).0 ≡ record p { state = starting })
unfolding begin_start
begin_start-cases p = ground arith

start-Protocol :
    (s : Phase) (p : Pool)
    → (p.state ≡ new) × (s ≡ starting) ⊎ (p.state ≡ starting) × (s ≡ opened)
    → Protocol p
    → Protocol (record p { state = s })
start-Protocol s p next (serving a u c d) =
    serving (ground (arith, next))
      (record { unstopped = u.unstopped; unharmed = u.unharmed; controlled = u.controlled }) c d
start-Protocol s p next (drain a u c d e f) = ground (arith, next)
start-Protocol s p next (halted a u c d) = ground (arith, next)
start-Protocol s p next (winding a b c d) = ground (arith, next)
start-Protocol s p next (ending a b c) = ground (arith, next)

-- The state of a pool that serves nobody yet may go on to the next.
start-IsHealthy :
    (s : Phase) (p : Pool)
    → (p.state ≡ new) × (s ≡ starting) ⊎ (p.state ≡ starting) × (s ≡ opened)
    → IsHealthy p
    → IsHealthy (record p { state = s })
start-IsHealthy s p next h = record {
  balance = record {
    positive = h.balance.positive;
    manned = h.balance.manned;
    staffed = h.balance.staffed;
    next = h.balance.next;
    balanced = h.balance.balanced;
    bounded = h.balance.bounded;
    parked_bound = h.balance.parked_bound;
    in_range = h.balance.in_range;
  };
  fed = ground (arith, h.fed);
  protocol = start-Protocol s p next h.protocol;
  announced = ground (arith, h.announced);
}

pub begin_start-IsHealthy : (p : Pool) → IsHealthy p → IsHealthy (begin_start p).0
begin_start-IsHealthy p h = elim (begin_start-cases p) [
  | inl e ↦ rw e h
  | inr (n, e) ↦ rw e (start-IsHealthy starting p (inl (n, refl)) h)
]

pub finish_start-IsHealthy :
    (p : Pool) → p.state ≡ starting → IsHealthy p → IsHealthy (finish_start p)
unfolding finish_start
finish_start-IsHealthy p n h = start-IsHealthy opened p (inr (n, refl)) h

reject_waiters-IsBalanced :
    (s : Phase) (p : Pool) → IsBalanced p → IsBalanced (record (reject_waiters p) { state = s })
unfolding waiting_count
reject_waiters-IsBalanced s p b = record {
  positive = b.positive;
  manned = b.manned;
  staffed = b.staffed;
  next = b.next;
  balanced = omega (arith, b.balanced, count_granted-reject_all p.store p.admission_waiters);
  bounded = b.bounded;
  parked_bound = omega arith;
  in_range = tt;
}

pause_and_drain-cases :
    (p : Pool)
    → ((pause_and_drain p).0 ≡ p)
      ⊎ (p.state ≡ opened)
        × ((pause_and_drain p).0
            ≡ advance_lifecycle (record (reject_waiters p) { state = pausing }))
unfolding pause_and_drain
pause_and_drain-cases p = ground arith

pub pause_and_drain-IsHealthy : (p : Pool) → IsHealthy p → IsHealthy (pause_and_drain p).0
unfolding waiting_count
pause_and_drain-IsHealthy p h = elim (pause_and_drain-cases p) [
  | inl e ↦ rw e h
  | inr (o, e) ↦
      let (u, c, d) = opened-serves p h.protocol o in
      rw e (
        tell (record (reject_waiters p) { state = pausing })
          (reject_waiters-IsBalanced pausing p h.balance)
          (serving refl
            (record { unstopped = u.unstopped; unharmed = u.unharmed; controlled = u.controlled }) c
            d)
          (inr refl))
]

resume-cases :
    (p : Pool)
    → ((resume p).0 ≡ p)
      ⊎ (p.state ≡ paused)
        × ((resume p).0
            ≡ record p { pause_controls_enqueued = false; pause_ack_count = 0; state = opened })
unfolding resume
resume-cases p = ground arith

pub paused-rests :
    (p : Pool)
    → Protocol p
    → p.state ≡ paused
    → Unended p true × (p.outstanding ≡ 0) × All Parked p.workers
paused-rests p (serving a u c d) o = ground arith
paused-rests p (drain a u c d e f) o = ground arith
paused-rests p (halted a u c d) o = (u, c, d)
paused-rests p (winding a b c d) o = ground arith
paused-rests p (ending a b c) o = ground arith

pub resume-IsHealthy : (p : Pool) → IsHealthy p → IsHealthy (resume p).0
resume-IsHealthy p h = elim (resume-cases p) [
  | inl e ↦ rw e h
  | inr (o, e) ↦
      let (u, c, d) = paused-rests p h.protocol o in
      let b = h.balance in
      rw e (record {
        balance = record {
          positive = b.positive;
          manned = b.manned;
          staffed = b.staffed;
          next = b.next;
          balanced = b.balanced;
          bounded = b.bounded;
          parked_bound = b.parked_bound;
          in_range = b.in_range;
        };
        fed = inr (unfed p (ap is_opened o) h.fed);
        protocol =
            serving refl
              (record { unstopped = u.unstopped; unharmed = u.unharmed; controlled = refl }) refl
              (All-map Parked Serving Serving-of_Parked p.workers d);
        announced = inr (refl, refl);
      })
]

close-cases :
    (p : Pool)
    → (close p ≡ p)
      ⊎ (p.state ≡ new) × (close p ≡ record p { state = closed })
      ⊎ ((p.state ≡ starting) ⊎ (p.state ≡ opened) ⊎ (p.state ≡ pausing) ⊎ (p.state ≡ paused))
        × (close p ≡ advance_lifecycle (record (reject_waiters p) { state = closing }))
unfolding close
close-cases p = ground arith

-- Before it closes no worker has been told to stop.
pub unended_winds :
    (p : Pool)
    → Protocol p
    → (p.state ≡ starting) ⊎ (p.state ≡ opened) ⊎ (p.state ≡ pausing) ⊎ (p.state ≡ paused)
    → (p.stop_enqueued ≡ false) × (p.fatal ≡ false) × All Winding p.workers
unended_winds p (serving a u c d) o =
    (u.unstopped, u.unharmed, All-map Serving Winding Winding-of_Serving p.workers d)
unended_winds p (drain a u c d e f) o =
    (u.unstopped, u.unharmed, All-map Drained Winding Winding-of_Drained p.workers f)
unended_winds p (halted a u c d) o =
    (u.unstopped, u.unharmed, All-map Parked Winding Winding-of_Parked p.workers d)
unended_winds p (winding a b c d) o = ground arith
unended_winds p (ending a b c) o = ground arith

-- Every worker's queue is in order in every phase.
pub all_Orderly : (p : Pool) → Protocol p → All Orderly p.workers
all_Orderly p (serving a u c d) =
    All-map Serving Orderly (λ w h. Orderly-of_Winding w (Winding-of_Serving w h)) p.workers d
all_Orderly p (drain a u c d e f) =
    All-map Drained Orderly (λ w h. Orderly-of_Winding w (Winding-of_Drained w h)) p.workers f
all_Orderly p (halted a u c d) =
    All-map Parked Orderly (λ w h. Orderly-of_Winding w (Winding-of_Parked w h)) p.workers d
all_Orderly p (winding a b c d) = All-map Winding Orderly Orderly-of_Winding p.workers d
all_Orderly p (ending a b c) = c

close_new-IsHealthy :
    (p : Pool) → p.state ≡ new → IsHealthy p → IsHealthy (record p { state = closed })
close_new-IsHealthy p n h =
    let b = h.balance in
    record {
      balance = record {
        positive = b.positive;
        manned = b.manned;
        staffed = b.staffed;
        next = b.next;
        balanced = b.balanced;
        bounded = b.bounded;
        parked_bound = b.parked_bound;
        in_range = b.in_range;
      };
      fed = inr (unfed p (ap is_opened n) h.fed);
      protocol = ending (inr refl) (inr (inr refl)) (all_Orderly p h.protocol);
      announced = inr (refl, refl);
    }

pub close-IsHealthy : (p : Pool) → IsHealthy p → IsHealthy (close p)
unfolding waiting_count
close-IsHealthy p h = elim (close-cases p) [
  | inl e ↦ rw e h
  | inr (inl (n, e)) ↦ rw e (close_new-IsHealthy p n h)
  | inr (inr (o, e)) ↦
      let (s, f, d) = unended_winds p h.protocol o in
      rw e (
        tell (record (reject_waiters p) { state = closing })
          (reject_waiters-IsBalanced closing p h.balance) (winding refl s f d) (inr refl))
]

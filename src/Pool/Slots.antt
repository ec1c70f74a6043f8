-- ===== src/Pool/Slots.antt =====
-- Cancelling and delivering an admission keep the invariant of the pool of app/db/read_pool.py.
use rapid_inbox.Pool.Admit.{settle}
use rapid_inbox.Pool.State.{Pool, is_opened, cancel_state, cancel_admission, deliver_grant}
use rapid_inbox.Base.{
  ℕ, ◌-◌, ◌≡◌, refl, ◌⊎◌, inl, inr, Bool, true, false, Option, none, some, List, arith, get_elem?,
  set, length-set,
}
use rapid_inbox.Writer.Admission.{
  Admission, waiting, granted, consumed, cancelled, rejected, waiting_count,
}
use rapid_inbox.Writer.Counts.{count_granted-set, waiting_count-set}
use rapid_inbox.Pool.Steps.{
  IsBalanced, IsFed, Protocol, serving, drain, halted, winding, ending, IsHealthy,
}

cancel_state-IsBalanced :
    (i : ℕ) (p : Pool) (s : Option Admission)
    → get_elem? p.store i ≡ s
    → IsBalanced p
    → IsBalanced (cancel_state i s p)
unfolding cancel_state
cancel_state-IsBalanced i p none e b = b
cancel_state-IsBalanced i p (some waiting) e b = record {
  positive = b.positive;
  manned = b.manned;
  staffed = b.staffed;
  next = b.next;
  balanced = omega (arith, b.balanced, count_granted-set p.store i cancelled e);
  bounded = b.bounded;
  parked_bound =
      omega (arith, b.parked_bound, waiting_count-set p.store i cancelled p.admission_waiters refl);
  in_range = rw length-set b.in_range;
}
cancel_state-IsBalanced i p (some granted) e b = record {
  positive = b.positive;
  manned = b.manned;
  staffed = b.staffed;
  next = b.next;
  balanced = omega (arith, b.balanced, count_granted-set p.store i cancelled e);
  bounded = omega (arith, b.bounded);
  parked_bound =
      omega (arith, b.parked_bound, waiting_count-set p.store i cancelled p.admission_waiters refl);
  in_range = rw length-set b.in_range;
}
cancel_state-IsBalanced i p (some consumed) e b = b
cancel_state-IsBalanced i p (some cancelled) e b = b
cancel_state-IsBalanced i p (some rejected) e b = b

-- The protocol speaks of the slots only when none is out.
pub Protocol-slots :
    (p : Pool) (outstanding in_hand : ℕ) (store : List Admission) (waiters : List ℕ)
    → (p.outstanding ≡ 0 → outstanding ≡ 0)
    → Protocol p
    → Protocol (record p {
      outstanding = outstanding;
      in_hand = in_hand;
      store = store;
      admission_waiters = waiters;
    })
Protocol-slots p n k store waiters z (serving a u c d) =
    serving a (record { unstopped = u.unstopped; unharmed = u.unharmed; controlled = u.controlled })
      c d
Protocol-slots p n k store waiters z (drain a u c d e f) =
    drain a (record { unstopped = u.unstopped; unharmed = u.unharmed; controlled = u.controlled })
      (z c) d e f
Protocol-slots p n k store waiters z (halted a u c d) =
    halted a (record { unstopped = u.unstopped; unharmed = u.unharmed; controlled = u.controlled })
      (z c) d
Protocol-slots p n k store waiters z (winding a b c d) = winding a b c d
Protocol-slots p n k store waiters z (ending a (inl b) c) = ending a (inl b) c
Protocol-slots p n k store waiters z (ending a (inr (inl b)) c) = ending a (inr (inl (z b))) c
Protocol-slots p n k store waiters z (ending a (inr (inr b)) c) = ending a (inr (inr b)) c

cancel_state-Protocol :
    (i : ℕ) (p : Pool) (s : Option Admission) → Protocol p → Protocol (cancel_state i s p)
unfolding cancel_state
cancel_state-Protocol i p (some waiting) h =
    Protocol-slots p p.outstanding p.in_hand (set p.store i cancelled) p.admission_waiters (λ e. e)
      h
cancel_state-Protocol i p (some granted) h =
    Protocol-slots p (p.outstanding - 1) p.in_hand (set p.store i cancelled) p.admission_waiters
      (λ e. omega arith) h
cancel_state-Protocol i p _ h = h

cancel_state-fed :
    (i : ℕ) (p : Pool) (s : Option Admission)
    → IsFed p
    → (is_opened (cancel_state i s p).state ≡ true)
      ⊎ (waiting_count (cancel_state i s p).store (cancel_state i s p).admission_waiters ≡ 0)
unfolding cancel_state
cancel_state-fed i p (some waiting) h =
    ground (arith, waiting_count-set p.store i cancelled p.admission_waiters refl)
cancel_state-fed i p (some granted) h =
    ground (arith, waiting_count-set p.store i cancelled p.admission_waiters refl)
cancel_state-fed i p _ h = ground arith

pub cancel_admission-IsHealthy : (i : ℕ) (p : Pool) → IsHealthy p → IsHealthy (cancel_admission i p)
unfolding cancel_admission
cancel_admission-IsHealthy i p h =
    let s = get_elem? p.store i in
    settle (cancel_state i s p) (cancel_state-IsBalanced i p s refl h.balance)
      (cancel_state-Protocol i p s h.protocol) (cancel_state-fed i p s h.fed)

pub deliver_grant-IsHealthy :
    (done : Bool) (i : ℕ) (p : Pool) (s : Option Admission)
    → get_elem? p.store i ≡ s
    → IsHealthy p
    → IsHealthy (deliver_grant done i s p)
unfolding deliver_grant cancel_state
deliver_grant-IsHealthy true i p (some granted) e h =
    let s = some granted in
    settle (cancel_state i s p) (cancel_state-IsBalanced i p s e h.balance)
      (cancel_state-Protocol i p s h.protocol) (cancel_state-fed i p s h.fed)
deliver_grant-IsHealthy false i p s e h = h
deliver_grant-IsHealthy true i p s e h = h

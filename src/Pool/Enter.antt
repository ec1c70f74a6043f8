-- ===== src/Pool/Enter.antt =====
-- Admission keeps the invariant of the pool of app/db/read_pool.py.
use rapid_inbox.Pool.Slots.{Protocol-slots, cancel_admission-IsHealthy}
use rapid_inbox.Pool.Admit.{grant_waiters-IsBalanced, grant_waiters-IsFed, grant_waiters-Protocol}
use rapid_inbox.Base.{
  subst, ℕ, suc, ◌≤◌, ◌≡◌, refl, sym, ap, inl, inr, true, false, ◌&&◌, Option, some, [], ◌∷◌, ◌++◌,
  arith, length, get_elem?, set, All, length-append, length-set, ltb, leb, if◌then◌else◌,
  Bool-cases,
}
use rapid_inbox.Writer.Admission.{
  Admission, waiting, granted, consumed, is_empty, drop_inactive, waiting_count,
}
use rapid_inbox.Writer.Counts.{
  count_granted-set, count_granted-append, waiting_count-set, waiting_count-drop_inactive,
  waiting_count-append, InRange-append, InRange-drop_inactive,
}
use rapid_inbox.Pool.State.{Phase, opened, Pool, is_opened, grant_waiters}
use rapid_inbox.Pool.Actor.{refused, not_open, park, admit, acquire_capacity, resume_waiter}
use rapid_inbox.Pool.Sums.{Serving}
use rapid_inbox.Pool.Steps.{
  IsBalanced, Unended, Protocol, serving, drain, halted, winding, ending, IsAnnounced, IsHealthy,
}
use native.Mathlib.Numerals.{add-one}

-- A pool that is open serves.
pub opened-serves :
    (p : Pool)
    → Protocol p
    → p.state ≡ opened
    → Unended p false × (p.pause_ack_count ≡ 0) × All Serving p.workers
opened-serves p (serving a u c d) o = (u, c, d)
opened-serves p (drain a u c d e f) o = ground arith
opened-serves p (halted a u c d) o = ground arith
opened-serves p (winding a b c d) o = ground arith
opened-serves p (ending a b c) o = ground arith

is_opened-eq : (s : Phase) → is_opened s ≡ true → s ≡ opened
is_opened-eq s h = ground arith

IsAnnounced-opened : (p : Pool) → p.state ≡ opened → IsAnnounced p
IsAnnounced-opened p o = ground arith

grant_waiters-opened : (p : Pool) → p.state ≡ opened → (grant_waiters p).state ≡ opened
unfolding grant_waiters
grant_waiters-opened p o = ground arith

take_slot-IsHealthy :
    (p : Pool)
    → IsHealthy p
    → p.state ≡ opened
    → (ltb p.outstanding p.queue_capacity && is_empty p.admission_waiters) ≡ true
    → IsHealthy (record p { outstanding = suc p.outstanding; in_hand = suc p.in_hand })
take_slot-IsHealthy p h o free =
    let (u, c, d) = opened-serves p h.protocol o in
    let b = h.balance in
    record {
      balance = record {
        positive = b.positive;
        manned = b.manned;
        staffed = b.staffed;
        next = b.next;
        balanced = omega (arith, b.balanced);
        bounded = ground (arith, b.bounded);
        parked_bound = b.parked_bound;
        in_range = b.in_range;
      };
      fed = (unfold waiting_count in ground arith);
      protocol =
          serving (rw o refl)
            (record { unstopped = u.unstopped; unharmed = u.unharmed; controlled = u.controlled }) c
            d;
      announced = inl (omega arith);
    }

park-IsHealthy :
    (p : Pool)
    → IsBalanced p
    → Protocol p
    → p.state ≡ opened
    → suc (waiting_count p.store p.admission_waiters) ≤ p.max_waiters
    → IsHealthy (park p).0
park-IsHealthy p b h o room =
    let v : Pool = record p {
      store = p.store ++ waiting ∷ [];
      admission_waiters = p.admission_waiters ++ length p.store ∷ [];
    } in
    let bv : IsBalanced v = record {
      positive = b.positive;
      manned = b.manned;
      staffed = b.staffed;
      next = b.next;
      balanced = omega (arith, b.balanced, count_granted-append p.store waiting);
      bounded = b.bounded;
      parked_bound =
          omega
            (arith, waiting_count-append p.store (length p.store) p.admission_waiters b.in_range);
      in_range =
          rw (length-append, add-one)
            (InRange-append (length p.store) p.admission_waiters b.in_range);
    } in
    let hv : Protocol v =
      Protocol-slots p p.outstanding p.in_hand v.store v.admission_waiters (λ e. e) h in
    record {
      balance = grant_waiters-IsBalanced v bv;
      fed = grant_waiters-IsFed v (inl (ap is_opened o));
      protocol = grant_waiters-Protocol v hv;
      announced = IsAnnounced-opened (grant_waiters v) (grant_waiters-opened v o);
    }

admit-IsHealthy : (p : Pool) → IsHealthy p → p.state ≡ opened → IsHealthy (admit p).0
unfolding admit
admit-IsHealthy p h o =
    elim (Bool-cases (ltb p.outstanding p.queue_capacity && is_empty p.admission_waiters)) [
      | inl free ↦ rw free (take_slot-IsHealthy p h o free)
      | inr full ↦
          rw full
            (elim (Bool-cases (leb p.max_waiters (waiting_count p.store p.admission_waiters))) [
              | inl over ↦ rw over h
              | inr room ↦ rw room (park-IsHealthy p h.balance h.protocol o (ground arith))
            ])
    ]

discard-IsHealthy :
    (p : Pool)
    → IsHealthy p
    → IsHealthy (record p { admission_waiters = drop_inactive p.store p.admission_waiters })
discard-IsHealthy p h = record {
  balance = record {
    positive = h.balance.positive;
    manned = h.balance.manned;
    staffed = h.balance.staffed;
    next = h.balance.next;
    balanced = h.balance.balanced;
    bounded = h.balance.bounded;
    parked_bound = rw waiting_count-drop_inactive h.balance.parked_bound;
    in_range =
        InRange-drop_inactive (length p.store) p.store p.admission_waiters h.balance.in_range;
  };
  fed = rw waiting_count-drop_inactive h.fed;
  protocol =
      Protocol-slots p p.outstanding p.in_hand p.store (drop_inactive p.store p.admission_waiters)
        (λ e. e) h.protocol;
  announced = h.announced;
}

pub acquire_capacity-IsHealthy : (p : Pool) → IsHealthy p → IsHealthy (acquire_capacity p).0
unfolding acquire_capacity
acquire_capacity-IsHealthy p h = elim (Bool-cases (is_opened p.state)) [
  | inl o ↦
      let q : Pool = record p { admission_waiters = drop_inactive p.store p.admission_waiters } in
      subst (λ b. IsHealthy (if b then admit q else (p, refused (not_open p.state))).0) (sym o)
        (admit-IsHealthy q (discard-IsHealthy p h) (is_opened-eq p.state o))
  | inr o ↦ rw o h
]

pub resume_waiter-IsHealthy :
    (i : ℕ) (p : Pool) (s : Option Admission)
    → get_elem? p.store i ≡ s
    → IsHealthy p
    → IsHealthy (resume_waiter i s p).0
unfolding resume_waiter
resume_waiter-IsHealthy i p (some granted) e h =
    let drop = waiting_count-set p.store i consumed p.admission_waiters refl in
    record {
      balance = record {
        positive = h.balance.positive;
        manned = h.balance.manned;
        staffed = h.balance.staffed;
        next = h.balance.next;
        balanced = omega (arith, h.balance.balanced, count_granted-set p.store i consumed e);
        bounded = h.balance.bounded;
        parked_bound = omega (arith, h.balance.parked_bound, drop);
        in_range = rw length-set h.balance.in_range;
      };
      fed = ground (arith, drop, h.fed);
      protocol =
          Protocol-slots p p.outstanding (suc p.in_hand) (set p.store i consumed)
            p.admission_waiters (λ e. e) h.protocol;
      announced = h.announced;
    }
resume_waiter-IsHealthy i p _ e h = cancel_admission-IsHealthy i p h

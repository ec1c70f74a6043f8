-- ===== src/Writer/Submit.antt =====
-- The coroutines' and the worker's operations keep the writer's invariant.
use rapid_inbox.Base.{
  ℕ, suc, ◌-◌, ◌≤◌, ◌<◌, ◌≡◌, refl, ◌⊎◌, inl, inr, Bool, true, false, ◌&&◌, Option, some, [], ◌∷◌,
  ◌++◌, arith, length, get_elem?, length-append, length-set, ltb, leb, Bool-cases,
}
use rapid_inbox.Writer.Admission.{
  opened, Admission, waiting, granted, consumed, request, Writer, is_opened, is_empty,
  grant_waiters, drop_inactive, waiting_count,
}
use rapid_inbox.Writer.Actor.{
  admit_started, ensure_worker_started, admit, acquire_capacity, resume_waiter, submit,
}
use rapid_inbox.Writer.Counts.{
  requests, stops, count_granted-set, count_granted-append, requests-append, stops-append,
  length-queue, waiting_count-set, waiting_count-drop_inactive, waiting_count-append,
  InRange-append, InRange-drop_inactive,
}
use rapid_inbox.Writer.Steps.{is_started, IsBalanced, FollowsProtocol, IsSound}
use native.Mathlib.Numerals.{add-one}
use rapid_inbox.Writer.Ops.{
  cancel_admission-IsSound, grant_waiters-IsBalanced, grant_waiters-IsFed,
  grant_waiters-FollowsProtocol, prepare_stop-IsBalanced, prepare_stop-IsFed,
  prepare_stop-FollowsProtocol, prepare_stop-IsAnnounced,
}

-- Parking: the new waiter is in range, and the grant loop may serve it at once.
park-IsSound :
    (w : Writer)
    → IsBalanced w
    → FollowsProtocol w
    → w.state ≡ opened
    → is_started w.worker ≡ true
    → suc (waiting_count w.store w.admission_waiters) ≤ w.max_waiters
    → IsSound
        (grant_waiters (record w {
          store = w.store ++ waiting ∷ [];
          admission_waiters = w.admission_waiters ++ length w.store ∷ [];
        })).0
park-IsSound w b p o l room =
    let v : Writer = record w {
      store = w.store ++ waiting ∷ [];
      admission_waiters = w.admission_waiters ++ length w.store ∷ [];
    } in
    let bv : IsBalanced v = record {
      positive = b.positive;
      balanced = omega (arith, b.balanced, count_granted-append w.store waiting);
      bounded = b.bounded;
      parked_bound =
          omega
            (arith, waiting_count-append w.store (length w.store) w.admission_waiters b.in_range);
      in_range =
          rw (length-append, add-one)
            (InRange-append (length w.store) w.admission_waiters b.in_range);
    } in
    let pv : FollowsProtocol v = ground arith in
    let u = (grant_waiters v).0 in
    let uo : u.state ≡ opened = (unfold grant_waiters in ground arith) in
    record {
      balance = grant_waiters-IsBalanced v bv;
      fed = grant_waiters-IsFed v;
      protocol = grant_waiters-FollowsProtocol v pv;
      announced = ground arith;
    }

admit-IsSound :
    (w : Writer) → IsSound w → w.state ≡ opened → is_started w.worker ≡ true → IsSound (admit w).0
unfolding admit
admit-IsSound w h o l =
    elim (Bool-cases (ltb w.outstanding w.queue_capacity && is_empty w.admission_waiters)) [
      | inl free ↦ rw free (unfold waiting_count in ground arith)
      | inr full ↦
          rw full
            (elim (Bool-cases (leb w.max_waiters (waiting_count w.store w.admission_waiters))) [
              | inl over ↦ rw over h
              | inr room ↦ rw room (park-IsSound w h.balance h.protocol o l (ground arith))
            ])
    ]

discard-IsSound :
    (w : Writer)
    → IsSound w
    → IsSound (record w { admission_waiters = drop_inactive w.store w.admission_waiters })
discard-IsSound w h = record {
  balance = record {
    positive = h.balance.positive;
    balanced = h.balance.balanced;
    bounded = h.balance.bounded;
    parked_bound = rw waiting_count-drop_inactive h.balance.parked_bound;
    in_range =
        InRange-drop_inactive (length w.store) w.store w.admission_waiters h.balance.in_range;
  };
  fed = rw waiting_count-drop_inactive h.fed;
  protocol = rw waiting_count-drop_inactive h.protocol;
  announced = h.announced;
}

start-IsSound :
    (starts : Bool) (w : Writer)
    → IsSound w
    → w.state ≡ opened
    → IsSound (ensure_worker_started starts w w.worker).0
      × (((ensure_worker_started starts w w.worker).1 ≡ false)
          ⊎ ((ensure_worker_started starts w w.worker).0.state ≡ opened)
            × (is_started (ensure_worker_started starts w w.worker).0.worker ≡ true))
unfolding ensure_worker_started
start-IsSound starts w h o = (
  record {
    balance = ground arith;
    fed = ground arith;
    protocol = ground arith;
    announced = ground arith;
  },
  ground arith,
)

admit_started-IsSound :
    (w : Writer) (started : Bool)
    → IsSound w
    → (started ≡ false) ⊎ (w.state ≡ opened) × (is_started w.worker ≡ true)
    → IsSound (admit_started (w, started)).0
admit_started-IsSound w true h (inr (o, l)) =
    admit-IsSound (record w { admission_waiters = drop_inactive w.store w.admission_waiters })
      (discard-IsSound w h) o l
admit_started-IsSound w true h (inl e) = cc
admit_started-IsSound w false h d = h

pub acquire_capacity-IsSound :
    (starts : Bool) (w : Writer) → IsSound w → IsSound (acquire_capacity starts w).0
unfolding acquire_capacity
acquire_capacity-IsSound starts w h = elim (Bool-cases (is_opened w.state)) [
  | inl o ↦
      let (s, d) = start-IsSound starts w h (ground arith) in
      rw o (admit_started-IsSound _ (ensure_worker_started starts w w.worker).1 s d)
  | inr o ↦ rw o h
]

pub resume_waiter-IsSound :
    (i : ℕ) (w : Writer) (s : Option Admission)
    → get_elem? w.store i ≡ s
    → IsSound w
    → IsSound (resume_waiter i s w).0
unfolding resume_waiter
resume_waiter-IsSound i w (some granted) e h =
    let drop = waiting_count-set w.store i consumed w.admission_waiters refl in
    record {
      balance = record {
        positive = h.balance.positive;
        balanced = omega (arith, h.balance.balanced, count_granted-set w.store i consumed e);
        bounded = h.balance.bounded;
        parked_bound = omega (arith, h.balance.parked_bound, drop);
        in_range = rw length-set h.balance.in_range;
      };
      fed = ground (arith, drop);
      protocol = ground (arith, drop);
      announced = h.announced;
    }
resume_waiter-IsSound i w _ e h = cancel_admission-IsSound i w h

-- The queue has room for every coroutine that holds a slot.
pub queue_has_room :
    (w : Writer)
    → IsSound w
    → 0 < w.in_hand
    → is_opened w.state ≡ true
    → length w.queue < w.queue_capacity
queue_has_room w h n o = ground (arith, length-queue w.queue, h.protocol, h.balance)

submit-FollowsProtocol :
    (r : ℕ) (w : Writer)
    → is_opened w.state ≡ true
    → FollowsProtocol w
    → FollowsProtocol (record w { in_hand = w.in_hand - 1; queue = w.queue ++ request r ∷ [] })
unfolding stops
submit-FollowsProtocol r w o p = ground (arith, stops-append w.queue (request r))

pub submit-IsSound : (r : ℕ) (w : Writer) → IsSound w → 0 < w.in_hand → IsSound (submit r w).0
unfolding submit
submit-IsSound r w h n = elim (Bool-cases (is_opened w.state)) [
  | inl o ↦
      let room = queue_has_room w h n o in
      let full : leb w.queue_capacity (length w.queue) ≡ false = ground arith in
      rw (o, full)
        (record {
          balance = record {
            positive = h.balance.positive;
            balanced =
                (unfold requests in
                  omega (arith, h.balance.balanced, requests-append w.queue (request r)));
            bounded = h.balance.bounded;
            parked_bound = h.balance.parked_bound;
            in_range = h.balance.in_range;
          };
          fed = h.fed;
          protocol = submit-FollowsProtocol r w o h.protocol;
          announced = h.announced;
        })
  | inr o ↦
      let owned : leb w.outstanding 0 ≡ false = ground (arith, h.balance) in
      let v : Writer = record w { in_hand = w.in_hand - 1; outstanding = w.outstanding - 1 } in
      let b : IsBalanced v = ground (arith, h.balance) in
      let p : FollowsProtocol v = ground (arith, h.protocol, h.balance) in
      rw (o, owned)
        (record {
          balance = prepare_stop-IsBalanced v b;
          fed = prepare_stop-IsFed v (inl o);
          protocol = prepare_stop-FollowsProtocol v b p;
          announced = prepare_stop-IsAnnounced v;
        })
]

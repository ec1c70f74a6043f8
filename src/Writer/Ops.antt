-- ===== src/Writer/Ops.antt =====
-- The operations keep the writer's invariant. A slot is given up first and granted again in the
-- same locked section, so the parts of the invariant are restored one after the other.
use rapid_inbox.Base.{
  ℕ, ◌-◌, ◌<◌, ◌≡◌, refl, inl, inr, Bool, true, false, Option, none, some, List, arith, length,
  get_elem?, length-set, Bool-cases,
}
use rapid_inbox.Writer.Admission.{
  Admission, waiting, granted, consumed, cancelled, rejected, Writer, is_opened, Granting,
  grant_from, grant_waiters, waiting_count, prepare_stop, release_capacity, cancel_state,
  cancel_admission, deliver_grant,
}
use rapid_inbox.Writer.Counts.{
  count_granted-set, waiting_count-set, IsGranting, grant_from-IsGranting, grant_from-InRange,
}
use rapid_inbox.Writer.Steps.{IsBalanced, IsFed, FollowsProtocol, IsAnnounced, IsSound}

module _ (w : Writer) where
  abbrev granting : Granting
  granting = grant_from w.queue_capacity w.outstanding w.store w.admission_waiters

  granting-IsGranting :
      IsGranting w.queue_capacity w.outstanding w.store w.admission_waiters granting
  granting-IsGranting =
      grant_from-IsGranting w.queue_capacity w.outstanding w.store w.admission_waiters

  pub grant_waiters-IsBalanced : IsBalanced w → IsBalanced (grant_waiters w).0
  unfolding grant_waiters
  grant_waiters-IsBalanced b = elim (Bool-cases (is_opened w.state)) [
    | inl o ↦ rw o (record {
      positive = b.positive;
      balanced = omega (arith, granting-IsGranting.balanced);
      bounded = ground (arith, granting-IsGranting);
      parked_bound = ground (arith, granting-IsGranting);
      in_range = rw granting-IsGranting.sized (
          grant_from-InRange (length w.store) w.queue_capacity w.outstanding w.store
            w.admission_waiters b.in_range);
    })
    | inr o ↦ rw o b
  ]

  pub grant_waiters-IsFed : IsFed (grant_waiters w).0
  unfolding grant_waiters waiting_count
  grant_waiters-IsFed = ground (arith, granting-IsGranting)

  pub grant_waiters-FollowsProtocol : FollowsProtocol w → FollowsProtocol (grant_waiters w).0
  unfolding grant_waiters
  grant_waiters-FollowsProtocol p = ground (arith, granting-IsGranting)

  pub prepare_stop-IsBalanced : IsBalanced w → IsBalanced (prepare_stop w)
  unfolding prepare_stop
  prepare_stop-IsBalanced b = ground arith

  pub prepare_stop-IsFed : IsFed w → IsFed (prepare_stop w)
  unfolding prepare_stop
  prepare_stop-IsFed b = ground arith

  pub prepare_stop-FollowsProtocol :
      IsBalanced w → FollowsProtocol w → FollowsProtocol (prepare_stop w)
  unfolding prepare_stop
  prepare_stop-FollowsProtocol b p = ground arith

  pub prepare_stop-IsAnnounced : IsAnnounced (prepare_stop w)
  unfolding prepare_stop
  prepare_stop-IsAnnounced = ground arith

-- The end of every locked section that gives a slot up: grant, then announce the end.
pub settle :
    (w : Writer) → IsBalanced w → FollowsProtocol w → IsSound (prepare_stop (grant_waiters w).0)
settle w b p =
    let w' = (grant_waiters w).0 in
    let b' = grant_waiters-IsBalanced w b in
    record {
      balance = prepare_stop-IsBalanced w' b';
      fed = prepare_stop-IsFed w' (grant_waiters-IsFed w);
      protocol = prepare_stop-FollowsProtocol w' b' (grant_waiters-FollowsProtocol w p);
      announced = prepare_stop-IsAnnounced w';
    }

-- `_release_capacity` by the owner of a slot never underflows, and restores the invariant.
pub release-IsSound :
    (w : Writer)
    → 0 < w.outstanding
    → IsBalanced (record w { outstanding = w.outstanding - 1 })
    → FollowsProtocol (record w { outstanding = w.outstanding - 1 })
    → (g : List ℕ) × (u : Writer) × (release_capacity w ≡ some (u, g)) × IsSound u
unfolding release_capacity
release-IsSound w n b p =
    let v : Writer = record w { outstanding = w.outstanding - 1 } in
    ((grant_waiters v).1, prepare_stop (grant_waiters v).0, ground arith, settle v b p)

cancel_state-IsBalanced :
    (i : ℕ) (w : Writer) (s : Option Admission)
    → get_elem? w.store i ≡ s
    → IsBalanced w
    → IsBalanced (cancel_state i s w)
unfolding cancel_state
cancel_state-IsBalanced i w none e b = b
cancel_state-IsBalanced i w (some waiting) e b = record {
  positive = b.positive;
  balanced = omega (arith, count_granted-set w.store i cancelled e);
  bounded = b.bounded;
  parked_bound = omega (arith, waiting_count-set w.store i cancelled w.admission_waiters refl);
  in_range = rw length-set b.in_range;
}
cancel_state-IsBalanced i w (some granted) e b = record {
  positive = b.positive;
  balanced = omega (arith, count_granted-set w.store i cancelled e);
  bounded = omega arith;
  parked_bound = omega (arith, waiting_count-set w.store i cancelled w.admission_waiters refl);
  in_range = rw length-set b.in_range;
}
cancel_state-IsBalanced i w (some consumed) e b = b
cancel_state-IsBalanced i w (some cancelled) e b = b
cancel_state-IsBalanced i w (some rejected) e b = b

cancel_state-FollowsProtocol :
    (i : ℕ) (w : Writer) (s : Option Admission)
    → FollowsProtocol w
    → FollowsProtocol (cancel_state i s w)
unfolding cancel_state
cancel_state-FollowsProtocol i w (some waiting) p =
    ground (arith, waiting_count-set w.store i cancelled w.admission_waiters refl)
cancel_state-FollowsProtocol i w (some granted) p =
    ground (arith, waiting_count-set w.store i cancelled w.admission_waiters refl)
cancel_state-FollowsProtocol i w _ p = p

pub cancel_admission-IsSound : (i : ℕ) (w : Writer) → IsSound w → IsSound (cancel_admission i w).0
unfolding cancel_admission
cancel_admission-IsSound i w h =
    settle (cancel_state i (get_elem? w.store i) w)
      (cancel_state-IsBalanced i w (get_elem? w.store i) refl h.balance)
      (cancel_state-FollowsProtocol i w (get_elem? w.store i) h.protocol)

pub deliver_grant-IsSound :
    (done : Bool) (i : ℕ) (w : Writer) (s : Option Admission)
    → get_elem? w.store i ≡ s
    → IsSound w
    → IsSound (deliver_grant done i s w).0
unfolding deliver_grant cancel_state
deliver_grant-IsSound true i w (some granted) e h =
    settle (cancel_state i (some granted) w)
      (cancel_state-IsBalanced i w (some granted) e h.balance)
      (cancel_state-FollowsProtocol i w (some granted) h.protocol)
deliver_grant-IsSound false i w s e h = h
deliver_grant-IsSound true i w s e h = h

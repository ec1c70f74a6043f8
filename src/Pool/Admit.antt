-- ===== src/Pool/Admit.antt =====
-- The locked sections on the slots of app/db/read_pool.py keep the pool's invariant. A slot is given
-- up first and granted again in the same section, so the parts of the invariant are restored one
-- after the other.
use rapid_inbox.Pool.State.{
  put_item, Phase, pausing, closing, closed, Item, pause, stop, PoolWorker, Pool, is_opened,
  is_pausing, is_closing, put_all, advance_lifecycle, grant_waiters,
}
use rapid_inbox.Base.{
  ◌≡◌, refl, sym, ap, ◌∙◌, ◌⊎◌, inl, inr, Bool, true, false, not, ◌&&◌, [], ◌∷◌, arith, length, eqb,
  Bool-cases,
}
use rapid_inbox.Writer.Admission.{Granting, grant_from, waiting_count}
use rapid_inbox.Writer.Counts.{IsGranting, grant_from-IsGranting, grant_from-InRange}
use rapid_inbox.Pool.Sums.{Winding, Orderly, All-put_all, reads}
use rapid_inbox.Pool.Queues.{
  pause_all, Orderly-of_Winding, Orderly-put, loads-put_all, length-put_all,
}
use rapid_inbox.Pool.Steps.{
  IsBalanced, IsFed, Protocol, serving, drain, halted, winding, ending, IsAnnounced, IsHealthy,
}

ended-is_opened :
    {e : Bool} (s : Phase) → (s ≡ closing) × (e ≡ true) ⊎ (s ≡ closed) → is_opened s ≡ false
ended-is_opened s (inl (h, _)) = ap is_opened h
ended-is_opened s (inr h) = ap is_opened h

module _ (p : Pool) where
  abbrev granting : Granting
  granting = grant_from p.queue_capacity p.outstanding p.store p.admission_waiters

  granting-IsGranting :
      IsGranting p.queue_capacity p.outstanding p.store p.admission_waiters granting
  granting-IsGranting =
      grant_from-IsGranting p.queue_capacity p.outstanding p.store p.admission_waiters

  pub grant_waiters-IsBalanced : IsBalanced p → IsBalanced (grant_waiters p)
  unfolding grant_waiters
  grant_waiters-IsBalanced b = elim (Bool-cases (is_opened p.state)) [
    | inl o ↦ rw o (record {
      positive = b.positive;
      manned = b.manned;
      staffed = b.staffed;
      next = b.next;
      balanced = omega (arith, granting-IsGranting.balanced, b.balanced);
      bounded = ground (arith, granting-IsGranting, b.bounded);
      parked_bound = ground (arith, granting-IsGranting, b.parked_bound);
      in_range = rw granting-IsGranting.sized (
          grant_from-InRange (length p.store) p.queue_capacity p.outstanding p.store
            p.admission_waiters b.in_range);
    })
    | inr o ↦ rw o b
  ]

  pub grant_waiters-IsFed :
      (is_opened p.state ≡ true) ⊎ (waiting_count p.store p.admission_waiters ≡ 0)
      → IsFed (grant_waiters p)
  unfolding grant_waiters waiting_count
  grant_waiters-IsFed h = ground (arith, granting-IsGranting)

  grant_waiters-shut : is_opened p.state ≡ false → grant_waiters p ≡ p
  unfolding grant_waiters
  grant_waiters-shut h = rw h refl

  pub grant_waiters-Protocol : Protocol p → Protocol (grant_waiters p)
  unfolding grant_waiters
  grant_waiters-Protocol (serving a b c d) = elim (Bool-cases (is_opened p.state)) [
    | inl o ↦ rw o (
        serving a
          (record { unstopped = b.unstopped; unharmed = b.unharmed; controlled = b.controlled }) c
          d)
    | inr o ↦ rw o (serving a b c d)
  ]
  grant_waiters-Protocol (drain a b c d e f) =
      rw (grant_waiters-shut (ap is_opened a)) (drain a b c d e f)
  grant_waiters-Protocol (halted a b c d) =
      rw (grant_waiters-shut (ap is_opened a)) (halted a b c d)
  grant_waiters-Protocol (winding a b c d) =
      rw (grant_waiters-shut (ap is_opened a)) (winding a b c d)
  grant_waiters-Protocol (ending a b c) =
      rw (grant_waiters-shut (ended-is_opened p.state a)) (ending a b c)

abbrev told_pause : Pool → Pool
told_pause p = record p { pause_controls_enqueued = true; workers = put_all pause p.workers }

abbrev told_stop : Pool → Pool
told_stop p = record p { stop_enqueued = true; workers = put_all stop p.workers }

-- The three outcomes of `_advance_lifecycle_locked`.
data Advanced (p : Pool) : Pool → Type 0 where
  same : IsAnnounced p → Advanced p p
  pauses :
      p.outstanding ≡ 0
      → p.state ≡ pausing
      → p.pause_controls_enqueued ≡ false
      → Advanced p (told_pause p)
  stops : p.outstanding ≡ 0 → p.state ≡ closing → p.stop_enqueued ≡ false → Advanced p (told_stop p)

is_pausing-eq : (s : Phase) → is_pausing s ≡ true → s ≡ pausing
is_pausing-eq s h = ground arith

is_closing-eq : (s : Phase) → is_closing s ≡ true → s ≡ closing
is_closing-eq s h = ground arith

advance_lifecycle-Advanced : (p : Pool) → Advanced p (advance_lifecycle p)
unfolding advance_lifecycle
advance_lifecycle-Advanced p = elim (Bool-cases (eqb p.outstanding 0)) [
  | inr n ↦ rw n (same (ground arith))
  | inl z ↦ elim (Bool-cases (is_pausing p.state && not p.pause_controls_enqueued)) [
    | inl a ↦
        rw (z, a) (pauses (ground arith) (is_pausing-eq p.state (ground arith)) (ground arith))
    | inr a ↦ elim (Bool-cases (is_closing p.state && not p.stop_enqueued)) [
      | inl b ↦
          rw (z, a, b) (stops (ground arith) (is_closing-eq p.state (ground arith)) (ground arith))
      | inr b ↦ rw (z, a, b) (same (inr (a, b)))
    ]
  ]
]

told-IsBalanced :
    (p : Pool) (controls stop_told : Bool) (x : Item)
    → reads (x ∷ []) ≡ 0
    → IsBalanced p
    → IsBalanced (record p {
      pause_controls_enqueued = controls;
      stop_enqueued = stop_told;
      workers = put_all x p.workers;
    })
told-IsBalanced p controls stop_told x h b = record {
  positive = b.positive;
  manned = b.manned;
  staffed = length-put_all x p.workers ∙ b.staffed;
  next = b.next;
  balanced = omega (arith, b.balanced, loads-put_all x p.workers h);
  bounded = b.bounded;
  parked_bound = b.parked_bound;
  in_range = b.in_range;
}

told_pause-Protocol :
    (p : Pool)
    → IsBalanced p
    → Protocol p
    → p.outstanding ≡ 0
    → p.state ≡ pausing
    → p.pause_controls_enqueued ≡ false
    → Protocol (told_pause p)
told_pause-Protocol p b (serving a u k d) z s c =
    let (drained, none_acked) = pause_all p.workers d (omega (arith, b.balanced)) in
    drain s (record { unstopped = u.unstopped; unharmed = u.unharmed; controlled = refl }) z
      (k ∙ sym none_acked) (omega (arith, b.manned)) drained
told_pause-Protocol p b (drain a u k d e f) z s c = ground (arith, u)
told_pause-Protocol p b (halted a u k d) z s c = ground (arith, u)
told_pause-Protocol p b (winding a u k d) z s c = ground arith
told_pause-Protocol p b (ending a u k) z s c = ground arith

Orderly-told : (w : PoolWorker) → Winding w → Orderly (put_item stop w)
Orderly-told w h = Orderly-put w (Orderly-of_Winding w h)

told_stop-Protocol :
    (p : Pool)
    → Protocol p
    → p.outstanding ≡ 0
    → p.state ≡ closing
    → p.stop_enqueued ≡ false
    → Protocol (told_stop p)
told_stop-Protocol p (winding a u k d) z s c =
    ending (inl (s, refl)) (inr (inl z)) (All-put_all Winding Orderly stop Orderly-told p.workers d)
told_stop-Protocol p (serving a u k d) z s c = ground arith
told_stop-Protocol p (drain a u k d e f) z s c = ground arith
told_stop-Protocol p (halted a u k d) z s c = ground arith
told_stop-Protocol p (ending a u k) z s c = ground arith

told_pause-IsHealthy :
    (p : Pool)
    → IsBalanced p
    → Protocol p
    → IsFed p
    → p.outstanding ≡ 0
    → p.state ≡ pausing
    → p.pause_controls_enqueued ≡ false
    → IsHealthy (told_pause p)
unfolding reads
told_pause-IsHealthy p b h f z s c = record {
  balance = told-IsBalanced p true p.stop_enqueued pause refl b;
  fed = f;
  protocol = told_pause-Protocol p b h z s c;
  announced = inr (ground arith, ground arith);
}

told_stop-IsHealthy :
    (p : Pool)
    → IsBalanced p
    → Protocol p
    → IsFed p
    → p.outstanding ≡ 0
    → p.state ≡ closing
    → p.stop_enqueued ≡ false
    → IsHealthy (told_stop p)
unfolding reads
told_stop-IsHealthy p b h f z s c = record {
  balance = told-IsBalanced p p.pause_controls_enqueued true stop refl b;
  fed = f;
  protocol = told_stop-Protocol p h z s c;
  announced = inr (ground arith, ground arith);
}

Advanced-IsHealthy : {p q : Pool} → IsBalanced p → Protocol p → IsFed p → Advanced p q → IsHealthy q
Advanced-IsHealthy b h f (same a) = record { balance = b; fed = f; protocol = h; announced = a }
Advanced-IsHealthy {p} b h f (pauses z s c) = told_pause-IsHealthy p b h f z s c
Advanced-IsHealthy {p} b h f (stops z s c) = told_stop-IsHealthy p b h f z s c

-- The end of every locked section that gives a slot up: grant, then tell the workers.
pub settle :
    (p : Pool)
    → IsBalanced p
    → Protocol p
    → (is_opened p.state ≡ true) ⊎ (waiting_count p.store p.admission_waiters ≡ 0)
    → IsHealthy (advance_lifecycle (grant_waiters p))
settle p b h f =
    Advanced-IsHealthy (grant_waiters-IsBalanced p b) (grant_waiters-Protocol p h)
      (grant_waiters-IsFed p f) (advance_lifecycle-Advanced (grant_waiters p))

-- The end of a section that only tells the workers.
pub tell : (p : Pool) → IsBalanced p → Protocol p → IsFed p → IsHealthy (advance_lifecycle p)
tell p b h f = Advanced-IsHealthy b h f (advance_lifecycle-Advanced p)

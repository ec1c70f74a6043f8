-- ===== src/Pool/Dispatch.antt =====
-- Dispatch keeps the invariant of the pool of app/db/read_pool.py.
use rapid_inbox.Pool.Slots.{Protocol-slots}
use rapid_inbox.Pool.Admit.{tell}
use rapid_inbox.Base.{
  ℕ, zero, suc, ◌+◌, ◌-◌, ◌<◌, ◌≡◌, refl, ap, ◌∙◌, inl, inr, true, false, ◌||◌, some, List, [], ◌∷◌,
  arith, length, get_elem?, length-set, Bool-cases,
}
use rapid_inbox.Writer.Admission.{waiting_count}
use rapid_inbox.Pool.State.{
  read, PoolWorker, Pool, is_opened, is_closed, give_back, put_item, advance_lifecycle,
}
use rapid_inbox.Pool.Actor.{put_read, drop_hand, submit}
use rapid_inbox.Pool.Sums.{Serving, Winding, All-set, All-get, reads, loads-set}
use rapid_inbox.Pool.Queues.{Serving-put, Winding-put, reads-append}
use rapid_inbox.Pool.Steps.{IsFed, Protocol, serving, drain, halted, winding, ending, IsHealthy}
use native.Mathlib.Nat.{mod-lt}

-- A coroutine that fails to dispatch gives its slot up.
over-shut :
    (p : Pool) → (p.fatal || is_closed p.state) ≡ true → Protocol p → is_opened p.state ≡ false
over-shut p l (serving a u c d) = ground (arith, u)
over-shut p l (drain a u c d e f) = ap is_opened a
over-shut p l (halted a u c d) = ap is_opened a
over-shut p l (winding a b c d) = ap is_opened a
over-shut p l (ending a b c) = ground arith

pub unfed :
    (p : Pool) → is_opened p.state ≡ false → IsFed p → waiting_count p.store p.admission_waiters ≡ 0
unfed p o f = ground arith

refused-IsHealthy :
    (p : Pool)
    → (p.fatal || is_closed p.state) ≡ true
    → IsHealthy p
    → 0 < p.in_hand
    → IsHealthy (advance_lifecycle (give_back (drop_hand p)))
refused-IsHealthy p l h n =
    let b = h.balance in
    tell (give_back (drop_hand p))
      (record {
        positive = b.positive;
        manned = b.manned;
        staffed = b.staffed;
        next = b.next;
        balanced = omega (arith, b.balanced);
        bounded = omega (arith, b.bounded);
        parked_bound = b.parked_bound;
        in_range = b.in_range;
      })
      (Protocol-slots p (p.outstanding - 1) (p.in_hand - 1) p.store p.admission_waiters
        (λ e. omega arith) h.protocol)
      (inr (unfed p (over-shut p l h.protocol) h.fed))

dispatch-Protocol :
    (r : ℕ) (p : Pool) (w : PoolWorker)
    → get_elem? p.workers p.next_worker ≡ some w
    → (p.fatal || is_closed p.state) ≡ false
    → 0 < p.outstanding
    → Protocol p
    → Protocol (put_read r (some w) (drop_hand p))
dispatch-Protocol r p w e live n (serving a u c d) =
    serving a (record { unstopped = u.unstopped; unharmed = u.unharmed; controlled = u.controlled })
      c
      (All-set Serving p.workers p.next_worker d
        (Serving-put w r (All-get Serving p.workers p.next_worker d e)))
dispatch-Protocol r p w e live n (drain a u c d f g) = ground arith
dispatch-Protocol r p w e live n (halted a u c d) = ground arith
dispatch-Protocol r p w e live n (winding a b c d) = winding a b c (
    All-set Winding p.workers p.next_worker d
      (Winding-put w r (All-get Winding p.workers p.next_worker d e)))
dispatch-Protocol r p w e live n (ending a b c) = ground arith

dispatch-IsHealthy :
    (r : ℕ) (p : Pool) (w : PoolWorker)
    → get_elem? p.workers p.next_worker ≡ some w
    → (p.fatal || is_closed p.state) ≡ false
    → IsHealthy p
    → 0 < p.in_hand
    → IsHealthy (put_read r (some w) (drop_hand p))
unfolding reads
dispatch-IsHealthy r p w e live h n =
    let b = h.balance in
    let u : PoolWorker = put_item (read r) w in
    record {
      balance = record {
        positive = b.positive;
        manned = b.manned;
        staffed = length-set p.workers p.next_worker u ∙ b.staffed;
        next = mod-lt (p.next_worker + 1) b.manned;
        balanced = omega (
          arith,
          b.balanced,
          loads-set p.workers p.next_worker u e,
          reads-append w.queue (read r),
        );
        bounded = b.bounded;
        parked_bound = b.parked_bound;
        in_range = b.in_range;
      };
      fed = h.fed;
      protocol = dispatch-Protocol r p w e live (omega (arith, b.balanced)) h.protocol;
      announced = h.announced;
    }

staffed-get :
    (workers : List PoolWorker) (i : ℕ)
    → i < length workers
    → (w : PoolWorker) × (get_elem? workers i ≡ some w)
staffed-get [] i h = elim h [ ]
staffed-get (w ∷ workers) zero h = (w, refl)
staffed-get (w ∷ workers) (suc i) h = staffed-get workers i (omega arith)

pub submit-IsHealthy : (r : ℕ) (p : Pool) → IsHealthy p → 0 < p.in_hand → IsHealthy (submit r p).0
unfolding submit
submit-IsHealthy r p h n = elim (Bool-cases (p.fatal || is_closed p.state)) [
  | inl l ↦ rw l (refused-IsHealthy p l h n)
  | inr l ↦
      let (w, e) = staffed-get p.workers p.next_worker (rw h.balance.staffed h.balance.next) in
      rw (l, e) (dispatch-IsHealthy r p w e l h n)
]

-- ===== src/Pool/Exit.antt =====
-- The exit of a worker, after a sentinel or a failure, keeps the invariant of the pool of
-- app/db/read_pool.py.
use rapid_inbox.Pool.Workers.{
  Keeps, released-IsHealthy, set_worker-IsBalanced, set_worker-IsHealthy,
}
use rapid_inbox.Pool.Lifecycle.{all_Orderly}
use rapid_inbox.Pool.Dispatch.{unfed}
use rapid_inbox.Pool.Sums.{
  is_drained, reads, only_reads, no_stop, orderly, load, Serving, Drained, Parked, Winding, Orderly,
  All-set, All-get,
}
use rapid_inbox.Base.{
  subst, ℕ, suc, ◌≡◌, refl, ap, ◌⊎◌, inl, inr, Bool, true, false, not, ◌&&◌, some, List, [], ◌∷◌,
  arith, get_elem?, eqb, if◌then◌else◌,
}
use rapid_inbox.Pool.State.{
  Phase, closing, closed, Item, read, pause, stop, failing, draining, exited, PoolWorker, Pool,
  is_opened, is_pausing, is_closing,
}
use rapid_inbox.Pool.Actor.{exit_worker, fail_active, fail_queue}
use rapid_inbox.Pool.Steps.{Protocol, serving, drain, halted, winding, ending, IsHealthy}

-- A worker that fails: it is in no phase but the last.
pub ending_only :
    (i : ℕ) (w : PoolWorker) (p : Pool)
    → get_elem? p.workers i ≡ some w
    → (Serving w → ⊥) × (Drained w → ⊥) × (Parked w → ⊥) × (Winding w → ⊥)
    → Protocol p
    → ((p.state ≡ closing) × (p.stop_enqueued ≡ true) ⊎ (p.state ≡ closed)) × Orderly w
ending_only i w p e (s, d, r, v) (serving a h c f) = elim (s (All-get Serving p.workers i f e)) [ ]
ending_only i w p e (s, d, r, v) (drain a h c f g k) =
    elim (d (All-get Drained p.workers i k e)) [ ]
ending_only i w p e (s, d, r, v) (halted a h c f) = elim (r (All-get Parked p.workers i f e)) [ ]
ending_only i w p e (s, d, r, v) (winding a b c f) = elim (v (All-get Winding p.workers i f e)) [ ]
ending_only i w p e x (ending a b c) = (a, All-get Orderly p.workers i c e)

pub true-false : false ≡ true → ⊥
true-false h = cc

pub not-Serving :
    (w : PoolWorker)
    → ((q : List Item) × (w.queue ≡ stop ∷ q))
      ⊎ ((r : ℕ) × (w.job ≡ failing r))
      ⊎ (w.job ≡ draining)
    → (Serving w → ⊥) × (Drained w → ⊥) × (Parked w → ⊥) × (Winding w → ⊥)
unfolding only_reads no_stop
not-Serving w (inl (q, e)) = (
  (λ h. true-false (subst (λ l. only_reads l ≡ true) e h.queued)),
  (λ h. true-false (subst (λ l. is_drained l w.connection_open w.job ≡ true) e h.drained)),
  (λ h. ground (arith, h.emptied)),
  (λ h. true-false (subst (λ l. no_stop l ≡ true) e h.unstopped)),
)
not-Serving w (inr x) = (
  (λ h. ground (arith, h.serves)),
  (λ h. ground (arith, h.drained)),
  (λ h. ground (arith, h.resting)),
  (λ h. ground (arith, h.lives)),
)

failing-Keeps :
    (w u : PoolWorker)
    → ((r : ℕ) × (w.job ≡ failing r)) ⊎ (w.job ≡ draining)
    → (Orderly w → Orderly u)
    → Keeps w u
failing-Keeps w u j o = record {
  serves = λ h. ground (arith, h.serves);
  drains = λ h. ground (arith, h.drained);
  parks = λ h. ground (arith, h.resting);
  winds = λ h. ground (arith, h.lives);
  orders = o;
}

pub fail_active-IsHealthy :
    (r i : ℕ) (w : PoolWorker) (p : Pool)
    → get_elem? p.workers i ≡ some w
    → w.job ≡ failing r
    → IsHealthy p
    → IsHealthy (fail_active i w p)
unfolding fail_active
fail_active-IsHealthy r i w p e j h =
    let u : PoolWorker = record w { job = draining } in
    released-IsHealthy i w u p _ e (ground arith)
      (failing-Keeps w u (inl (r, j)) (λ o. record { ordered = o.ordered; left = ground arith })) h

orderly-of_no_reads : (q : List Item) → reads q ≡ 0 → orderly q ≡ true
unfolding orderly reads
orderly-of_no_reads [] h = refl
orderly-of_no_reads (read r ∷ q) h = ground arith
orderly-of_no_reads (pause ∷ q) h = orderly-of_no_reads q h
orderly-of_no_reads (stop ∷ q) h = rw h refl

abbrev Ending : Phase → Bool → Type 0
Ending s e = (s ≡ closing) × (e ≡ true) ⊎ (s ≡ closed)

Ending-if : (b e : Bool) (s : Phase) → Ending s e → Ending (if b then closed else s) e
Ending-if true e s h = inr refl
Ending-if false e s h = h

ended :
    (p : Pool)
    → Ending p.state p.stop_enqueued
    → Protocol p
    → (p.fatal ≡ true) ⊎ (p.outstanding ≡ 0) ⊎ (p.state ≡ closed)
ended p x (serving a h c d) = ground arith
ended p x (drain a h c d f g) = inr (inl c)
ended p x (halted a h c d) = inr (inl c)
ended p x (winding a b c d) = ground arith
ended p x (ending a b c) = b

closed-if :
    (b : Bool) (p : Pool)
    → (p.fatal ≡ true) ⊎ (p.outstanding ≡ 0) ⊎ (p.state ≡ closed)
    → (p.fatal ≡ true) ⊎ (p.outstanding ≡ 0) ⊎ ((if b then closed else p.state) ≡ closed)
closed-if true p h = inr (inr refl)
closed-if false p h = h

Ending-shut : (p : Pool) → Ending p.state p.stop_enqueued → is_opened p.state ≡ false
Ending-shut p (inl (a, b)) = ap is_opened a
Ending-shut p (inr a) = ap is_opened a

announced-Ending :
    (p : Pool) (s : Phase)
    → Ending s p.stop_enqueued
    → (is_pausing s && not p.pause_controls_enqueued ≡ false)
      × (is_closing s && not p.stop_enqueued ≡ false)
announced-Ending p s (inl (a, b)) = rw (a, b) (refl, refl)
announced-Ending p s (inr a) = rw a (refl, refl)

-- The exit of a worker that has nothing left to serve.
pub exit_worker-IsHealthy :
    (i : ℕ) (w u : PoolWorker) (p : Pool)
    → get_elem? p.workers i ≡ some w
    → load w ≡ 0
    → reads u.queue ≡ 0
    → Ending p.state p.stop_enqueued
    → IsHealthy p
    → IsHealthy (exit_worker i u p)
unfolding reads
exit_worker-IsHealthy i w u p e l z a h =
    let v : PoolWorker = record u { connection_open = false; job = exited } in
    let a' =
      Ending-if (eqb (suc p.stopped_worker_count) p.max_connections) p.stop_enqueued p.state a in
    let b =
      set_worker-IsBalanced i w v p p.outstanding e (omega arith) h.balance.bounded h.balance in
    let orderly_v : Orderly v = record { ordered = orderly-of_no_reads u.queue z; left = inr z } in
    record {
      balance = record {
        positive = b.positive;
        manned = b.manned;
        staffed = b.staffed;
        next = b.next;
        balanced = b.balanced;
        bounded = b.bounded;
        parked_bound = b.parked_bound;
        in_range = b.in_range;
      };
      fed = inr (unfed p (Ending-shut p a) h.fed);
      protocol =
          ending a'
            (closed-if (eqb (suc p.stopped_worker_count) p.max_connections) p
              (ended p a h.protocol))
            (All-set Orderly p.workers i (all_Orderly p h.protocol) orderly_v);
      announced = inr (announced-Ending p _ a');
    }

orderly-tail : (x : Item) (q : List Item) → orderly (x ∷ q) ≡ true → orderly q ≡ true
unfolding orderly
orderly-tail (read r) q h = h
orderly-tail pause q h = h
orderly-tail stop q h = orderly-of_no_reads q (ground arith)

Orderly-tail :
    (w : PoolWorker) (x : Item) (q : List Item)
    → w.queue ≡ x ∷ q
    → w.job ≡ draining
    → Orderly w
    → Orderly (record w { queue = q })
Orderly-tail w x q s j o = record {
  ordered = orderly-tail x q (subst (λ l. orderly l ≡ true) s o.ordered);
  left = inl (λ k. ground arith);
}

pub fail_queue-IsHealthy :
    (i : ℕ) (w : PoolWorker) (p : Pool) (q : List Item)
    → w.queue ≡ q
    → get_elem? p.workers i ≡ some w
    → w.job ≡ draining
    → IsHealthy p
    → IsHealthy (fail_queue i w q p)
unfolding fail_queue reads orderly
fail_queue-IsHealthy i w p [] q e j h =
    let (a, o) = ending_only i w p e (not-Serving w (inr (inr j))) h.protocol in
    exit_worker-IsHealthy i w w p e (rw (q, j) refl) (rw q refl) a h
fail_queue-IsHealthy i w p (read r ∷ q) s e j h =
    let u : PoolWorker = record w { queue = q } in
    released-IsHealthy i w u p _ e (rw s (omega arith))
      (failing-Keeps w u (inr j) (λ o. Orderly-tail w (read r) q s j o)) h
fail_queue-IsHealthy i w p (pause ∷ q) s e j h =
    let u : PoolWorker = record w { queue = q } in
    set_worker-IsHealthy i w u p e (rw s refl)
      (failing-Keeps w u (inr j) (λ o. Orderly-tail w pause q s j o)) h
fail_queue-IsHealthy i w p (stop ∷ q) s e j h =
    let u : PoolWorker = record w { queue = q } in
    set_worker-IsHealthy i w u p e (rw s refl)
      (failing-Keeps w u (inr j) (λ o. Orderly-tail w stop q s j o)) h

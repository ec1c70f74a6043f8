-- ===== src/Pool/Take.antt =====
-- What a worker takes from its queue keeps the invariant of the pool of app/db/read_pool.py.
use rapid_inbox.Pool.Exit.{ending_only, exit_worker-IsHealthy, not-Serving, true-false}
use rapid_inbox.Pool.Workers.{Keeps, set_worker-IsHealthy}
use rapid_inbox.Pool.Sums.{is_drained, reads, only_reads, no_stop, orderly}
use rapid_inbox.Base.{
  subst, ℕ, ◌≡◌, refl, inl, Bool, true, false, some, List, [], ◌∷◌, arith, get_elem?,
}
use rapid_inbox.Pool.State.{Item, read, pause, stop, Job, idle, running, acking, PoolWorker, Pool}
use rapid_inbox.Pool.Actor.{take_item}
use rapid_inbox.Pool.Steps.{IsHealthy}

-- A worker takes a request while it serves or winds down, and a pause control while it is drained.
take_read-Keeps :
    (w : PoolWorker) (r : ℕ) (q : List Item)
    → w.queue ≡ read r ∷ q
    → w.job ≡ idle
    → Keeps w (record w { queue = q; job = running r })
unfolding only_reads no_stop orderly
take_read-Keeps w r q s j = record {
  serves = λ h. record { queued = subst (λ l. only_reads l ≡ true) s h.queued; serves = refl };
  drains = λ h.
      elim (true-false (subst (λ l. is_drained l w.connection_open w.job ≡ true) s h.drained)) [ ];
  parks = λ h. ground (arith, h.emptied);
  winds = λ h. record { unstopped = subst (λ l. no_stop l ≡ true) s h.unstopped; lives = refl };
  orders = λ h. record {
    ordered = subst (λ l. orderly l ≡ true) s h.ordered;
    left = inl (λ k. ground arith);
  };
}

drained-pause : (c : Bool) (j : Job) (q : List Item) → is_drained (pause ∷ q) c j ≡ true → q ≡ []
drained-pause c j q h = ground arith

take_pause-Keeps :
    (w : PoolWorker) (q : List Item)
    → w.queue ≡ pause ∷ q
    → w.job ≡ idle
    → Keeps w (record w { queue = q; connection_open = false; job = acking })
unfolding only_reads no_stop orderly
take_pause-Keeps w q s j = record {
  serves = λ h. elim (true-false (subst (λ l. only_reads l ≡ true) s h.queued)) [ ];
  drains = λ h.
      let e =
        drained-pause w.connection_open w.job q
          (subst (λ l. is_drained l w.connection_open w.job ≡ true) s h.drained) in
      (record { drained = rw e refl }, rw (s, e) refl);
  parks = λ h. ground (arith, h.emptied);
  winds = λ h. record { unstopped = subst (λ l. no_stop l ≡ true) s h.unstopped; lives = refl };
  orders = λ h. record {
    ordered = subst (λ l. orderly l ≡ true) s h.ordered;
    left = inl (λ k. ground arith);
  };
}

reads-behind_stop : (q : List Item) → orderly (stop ∷ q) ≡ true → reads q ≡ 0
unfolding orderly
reads-behind_stop q h = ground arith

pub take_item-IsHealthy :
    (i : ℕ) (w : PoolWorker) (p : Pool) (q : List Item)
    → w.queue ≡ q
    → get_elem? p.workers i ≡ some w
    → w.job ≡ idle
    → IsHealthy p
    → IsHealthy (take_item i w q p)
unfolding take_item reads orderly
take_item-IsHealthy i w p [] s e j h = h
take_item-IsHealthy i w p (read r ∷ q) s e j h =
    let u : PoolWorker = record w { queue = q; job = running r } in
    set_worker-IsHealthy i w u p e (rw (s, j) (omega arith)) (take_read-Keeps w r q s j) h
take_item-IsHealthy i w p (pause ∷ q) s e j h =
    let u : PoolWorker = record w { queue = q; connection_open = false; job = acking } in
    set_worker-IsHealthy i w u p e (rw (s, j) refl) (take_pause-Keeps w q s j) h
take_item-IsHealthy i w p (stop ∷ q) s e j h =
    let (a, o) = ending_only i w p e (not-Serving w (inl (q, s))) h.protocol in
    let z : reads q ≡ 0 = reads-behind_stop q (subst (λ l. orderly l ≡ true) s o.ordered) in
    exit_worker-IsHealthy i w (record w { queue = q }) p e (rw (s, j) (omega arith)) z a h

-- ===== src/Pool/Failure.antt =====
-- The failure of a worker keeps the invariant of the pool of app/db/read_pool.py.
use rapid_inbox.Pool.Workers.{set_worker-IsBalanced}
use rapid_inbox.Pool.Lifecycle.{all_Orderly}
use rapid_inbox.Pool.Actor.{
  first_failure, put_others, failing_job, set_worker, begin_worker_failure,
}
use rapid_inbox.Base.{
  subst, ℕ, ◌≡◌, refl, sym, ◌∙◌, ◌≢◌, inl, inr, Bool, true, false, some, List, arith, length,
  get_elem?, set, All, if◌then◌else◌, Bool-cases,
}
use rapid_inbox.Pool.Queues.{Orderly-put, length-put_others, loads-put_others}
use rapid_inbox.Pool.Sums.{All-put_others, is_live, reads, busy, loads, Orderly, All-set, All-get}
use rapid_inbox.Writer.Admission.{waiting_count}
use rapid_inbox.Writer.Counts.{count_granted-reject_all}
use rapid_inbox.Pool.State.{stop, Job, exited, PoolWorker, Pool}
use rapid_inbox.Pool.Steps.{
  IsBalanced, Protocol, serving, drain, halted, winding, ending, IsHealthy,
}

failing_job-exited : (j : Job) → failing_job j ≢ exited
failing_job-exited j h = ground arith

failing_job-busy : (j : Job) → is_live j ≡ true → busy (failing_job j) ≡ busy j
failing_job-busy j h = ground arith

failed-Orderly : (w : PoolWorker) → Orderly w → Orderly (record w { job = failing_job w.job })
failed-Orderly w h = record { ordered = h.ordered; left = inl (failing_job-exited w.job) }

-- A second failure changes nothing but its own worker.
again-Protocol :
    (i : ℕ) (w : PoolWorker) (p : Pool)
    → get_elem? p.workers i ≡ some w
    → p.fatal ≡ true
    → Protocol p
    → Protocol (set_worker i (record w { job = failing_job w.job }) p)
again-Protocol i w p e f (ending a c d) =
    ending a c (All-set Orderly p.workers i d (failed-Orderly w (All-get Orderly p.workers i d e)))
again-Protocol i w p e f (serving a h c d) = ground (arith, h)
again-Protocol i w p e f (drain a h c d g k) = ground (arith, h)
again-Protocol i w p e f (halted a h c d) = ground (arith, h)
again-Protocol i w p e f (winding a c d g) = ground arith

others-Orderly :
    (b : Bool) (i : ℕ) (workers : List PoolWorker)
    → All Orderly workers
    → All Orderly (if b then workers else put_others i stop workers)
others-Orderly true i workers h = h
others-Orderly false i workers h = All-put_others Orderly stop Orderly-put i workers h

others-loads :
    (b : Bool) (i : ℕ) (workers : List PoolWorker)
    → loads (if b then workers else put_others i stop workers) ≡ loads workers
unfolding reads
others-loads true i workers = refl
others-loads false i workers = loads-put_others i stop workers refl

others-length :
    (b : Bool) (i : ℕ) (workers : List PoolWorker)
    → length (if b then workers else put_others i stop workers) ≡ length workers
others-length true i workers = refl
others-length false i workers = length-put_others i stop workers

-- The first failure tells the others, and rejects whoever waits.
first-IsBalanced :
    (i : ℕ) (w : PoolWorker) (p : Pool)
    → get_elem? p.workers i ≡ some w
    → is_live w.job ≡ true
    → IsBalanced p
    → IsBalanced (first_failure i (set_worker i (record w { job = failing_job w.job }) p))
unfolding waiting_count
first-IsBalanced i w p e l h =
    let u : PoolWorker = record w { job = failing_job w.job } in
    let b =
      set_worker-IsBalanced i w u p p.outstanding e (omega (arith, failing_job-busy w.job l))
        h.bounded h in
    record {
      positive = b.positive;
      manned = b.manned;
      staffed = others-length p.stop_enqueued i (set p.workers i u) ∙ b.staffed;
      next = b.next;
      balanced = omega (
        arith,
        b.balanced,
        others-loads p.stop_enqueued i (set p.workers i u),
        count_granted-reject_all p.store p.admission_waiters,
      );
      bounded = b.bounded;
      parked_bound = omega arith;
      in_range = tt;
    }

pub begin_worker_failure-IsHealthy :
    (i : ℕ) (w : PoolWorker) (p : Pool)
    → get_elem? p.workers i ≡ some w
    → is_live w.job ≡ true
    → IsHealthy p
    → IsHealthy (begin_worker_failure i w p)
unfolding begin_worker_failure waiting_count
begin_worker_failure-IsHealthy i w p e l h =
    let u : PoolWorker = record w { job = failing_job w.job } in
    let orderly_all = all_Orderly p h.protocol in
    let q = set_worker i u p in
    elim (Bool-cases p.fatal) [
      | inl f ↦
          subst (λ b. IsHealthy (if b then q else first_failure i q)) (sym f)
            (record {
              balance =
                  set_worker-IsBalanced i w u p p.outstanding e
                    (omega (arith, failing_job-busy w.job l)) h.balance.bounded h.balance;
              fed = h.fed;
              protocol = again-Protocol i w p e f h.protocol;
              announced = h.announced;
            })
      | inr f ↦
          subst (λ b. IsHealthy (if b then q else first_failure i q)) (sym f)
            (record {
              balance = first-IsBalanced i w p e l h.balance;
              fed = inr refl;
              protocol = ending (inl (refl, refl)) (inl refl) (
                  others-Orderly p.stop_enqueued i (set p.workers i u) (
                    All-set Orderly p.workers i orderly_all
                      (failed-Orderly w (All-get Orderly p.workers i orderly_all e))));
              announced = inr (refl, refl);
            })
    ]

-- ===== src/Pool/Reach.antt =====
-- What holds in every state that the read pool of app/db/read_pool.py can reach.
use rapid_inbox.Base.{
  inl, true, ℕ, zero, suc, ◌<◌, ◌≡◌, refl, ap, inr, Bool, some, arith, length, get_elem?, All,
}
use rapid_inbox.Pool.Failure.{begin_worker_failure-IsHealthy}
use rapid_inbox.Pool.Controls.{acknowledge_pause-IsHealthy}
use rapid_inbox.Pool.Take.{take_item-IsHealthy}
use rapid_inbox.Pool.Exit.{fail_active-IsHealthy, fail_queue-IsHealthy}
use rapid_inbox.Pool.Workers.{finish-Keeps, finish_request-IsHealthy, release-IsHealthy}
use rapid_inbox.Pool.Lifecycle.{
  all_Orderly, close-IsHealthy, pause_and_drain-IsHealthy, paused-rests, resume-IsHealthy,
  begin_start-IsHealthy, finish_start-IsHealthy,
}
use rapid_inbox.Pool.Dispatch.{submit-IsHealthy, unfed}
use rapid_inbox.Pool.Enter.{acquire_capacity-IsHealthy, resume_waiter-IsHealthy}
use rapid_inbox.Pool.Slots.{cancel_admission-IsHealthy, deliver_grant-IsHealthy}
use rapid_inbox.Pool.State.{
  is_opened, idle, Pool, PoolWorker, new_pool, idle_workers, paused, running, exited,
  release_capacity,
}
use rapid_inbox.Writer.Admission.{waiting_count}
use rapid_inbox.Writer.Counts.{count_granted}
use rapid_inbox.Pool.Actor.{set_worker}
use rapid_inbox.Pool.Sums.{loads, reads, only_reads, Serving, Parked, Orderly, All-get}
use rapid_inbox.Pool.Steps.{
  Step, begins_start, finishes_start, acquires, resumes_waiter, cancels, delivers, submits, pauses,
  resumes, closes, takes, acknowledges, finishes, fails, fails_active, fails_queue, Reach, created,
  and_then, IsHealthy, serving,
}

Step-IsHealthy : {p q : Pool} → Step true p q → IsHealthy p → IsHealthy q
Step-IsHealthy (begins_start p) h = begin_start-IsHealthy p h
Step-IsHealthy (finishes_start p (inl e)) h = finish_start-IsHealthy p e h
Step-IsHealthy (finishes_start p (inr e)) h = cc
Step-IsHealthy (acquires p) h = acquire_capacity-IsHealthy p h
Step-IsHealthy (resumes_waiter i p) h = resume_waiter-IsHealthy i p (get_elem? p.store i) refl h
Step-IsHealthy (cancels i p) h = cancel_admission-IsHealthy i p h
Step-IsHealthy (delivers done i p) h = deliver_grant-IsHealthy done i p (get_elem? p.store i) refl h
Step-IsHealthy (submits r p n) h = submit-IsHealthy r p h n
Step-IsHealthy (pauses p) h = pause_and_drain-IsHealthy p h
Step-IsHealthy (resumes p) h = resume-IsHealthy p h
Step-IsHealthy (closes p) h = close-IsHealthy p h
Step-IsHealthy (takes i w p e j) h = take_item-IsHealthy i w p w.queue refl e j h
Step-IsHealthy (acknowledges i w p e j) h = acknowledge_pause-IsHealthy i w p e j h
Step-IsHealthy (finishes stays_open r i w p e j) h =
    finish_request-IsHealthy stays_open r i w p e j h
Step-IsHealthy (fails i w p e j) h = begin_worker_failure-IsHealthy i w p e j h
Step-IsHealthy (fails_active r i w p e j) h = fail_active-IsHealthy r i w p e j h
Step-IsHealthy (fails_queue i w p e j) h = fail_queue-IsHealthy i w p w.queue refl e j h

idle-loads : (n : ℕ) → loads (idle_workers n) ≡ 0
unfolding loads reads
idle-loads zero = refl
idle-loads (suc n) = omega (arith, idle-loads n)

idle-length : (n : ℕ) → length (idle_workers n) ≡ n
idle-length zero = refl
idle-length (suc n) = omega (arith, idle-length n)

idle-Serving : (n : ℕ) → All Serving (idle_workers n)
unfolding only_reads
idle-Serving zero = tt
idle-Serving (suc n) = (record { queued = refl; serves = refl }, idle-Serving n)

new_pool-IsHealthy :
    (connections capacity waiters : ℕ)
    → 0 < connections
    → 0 < capacity
    → IsHealthy (new_pool connections capacity waiters)
unfolding count_granted waiting_count
new_pool-IsHealthy connections capacity waiters n c = record {
  balance = record {
    positive = c;
    manned = n;
    staffed = idle-length connections;
    next = n;
    balanced = omega (arith, idle-loads connections);
    bounded = omega arith;
    parked_bound = omega arith;
    in_range = tt;
  };
  fed = inr refl;
  protocol =
      serving refl (record { unstopped = refl; unharmed = refl; controlled = refl }) refl
        (idle-Serving connections);
  announced = inr (refl, refl);
}

-- In every reachable state of a read pool with at least one connection and a positive capacity,
-- whatever the interleaving, as long as no close and no failing worker comes between the two
-- sections of start: each slot that is out belongs to exactly one granted waiter, coroutine,
-- queued request or running request; the capacity and the bound on waiting callers hold; nobody
-- waits for a free slot; the workers, their queues and the flags are as the phase of maintenance
-- or shutdown wants them; and a pool with nothing left to drain has told its workers.
pub Reach-IsHealthy :
    (connections capacity waiters : ℕ) (p : Pool)
    → 0 < connections
    → 0 < capacity
    → Reach true (new_pool connections capacity waiters) p
    → IsHealthy p
Reach-IsHealthy connections capacity waiters p n c created =
    new_pool-IsHealthy connections capacity waiters n c
Reach-IsHealthy connections capacity waiters p n c (and_then {before} r s) =
    Step-IsHealthy s (Reach-IsHealthy connections capacity waiters before n c r)

-- In every reachable state of a read pool with at least one connection and a positive capacity
-- that is paused for maintenance, where no close and no failing worker came between the two
-- sections of start: no coroutine and no waiter holds a slot, nobody waits, and every worker is
-- idle with an empty queue and a closed connection.
pub paused-IsExclusive :
    (connections capacity waiters : ℕ) (p : Pool)
    → 0 < connections
    → 0 < capacity
    → Reach true (new_pool connections capacity waiters) p
    → p.state ≡ paused
    → (p.in_hand ≡ 0)
      × (count_granted p.store ≡ 0)
      × (waiting_count p.store p.admission_waiters ≡ 0)
      × All Parked p.workers
paused-IsExclusive connections capacity waiters p n c r s =
    let h = Reach-IsHealthy connections capacity waiters p n c r in
    let (u, z, d) = paused-rests p h.protocol s in
    (
      omega (arith, h.balance.balanced),
      omega (arith, h.balance.balanced),
      unfed p (ap is_opened s) h.fed,
      d,
    )

-- The slot of a running request is released without an underflow.
pub release-never_underflows :
    (connections capacity waiters : ℕ) (p : Pool) (stays_open : Bool) (r i : ℕ) (w : PoolWorker)
    → 0 < connections
    → 0 < capacity
    → Reach true (new_pool connections capacity waiters) p
    → get_elem? p.workers i ≡ some w
    → w.job ≡ running r
    → (q : Pool) × (release_capacity
          (set_worker i (record w { connection_open = stays_open; job = idle }) p)
        ≡ some q)
unfolding reads
release-never_underflows connections capacity waiters p stays_open r i w n c x e j =
    let (q, f, s) =
      release-IsHealthy i w (record w { connection_open = stays_open; job = idle }) p e
        (ground arith) (finish-Keeps stays_open r w j)
        (Reach-IsHealthy connections capacity waiters p n c x) in
    (q, f)

-- In every reachable state of a read pool with at least one connection and a positive capacity,
-- also after a worker has failed, as long as no close and no failing worker comes between the two
-- sections of start: a worker that has exited has no request left in its queue.
pub exited-leaves_nothing :
    (connections capacity waiters : ℕ) (p : Pool) (i : ℕ) (w : PoolWorker)
    → 0 < connections
    → 0 < capacity
    → Reach true (new_pool connections capacity waiters) p
    → get_elem? p.workers i ≡ some w
    → w.job ≡ exited
    → reads w.queue ≡ 0
exited-leaves_nothing connections capacity waiters p i w n c x e j =
    let h =
      All-get Orderly p.workers i
        (all_Orderly p (Reach-IsHealthy connections capacity waiters p n c x).protocol) e in
    ground (arith, h.left)

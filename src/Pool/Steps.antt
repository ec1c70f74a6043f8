-- ===== src/Pool/Steps.antt =====
-- The step relation of the read pool of app/db/read_pool.py: any interleaving of its callers'
-- coroutines, of the event loops' callbacks, of the worker threads, of maintenance and of shutdown;
-- and the invariant of its states.
use rapid_inbox.Base.{
  ℕ, ◌+◌, ◌≤◌, ◌<◌, ◌≡◌, ◌⊎◌, Bool, true, false, not, ◌&&◌, some, length, get_elem?, All,
}
use rapid_inbox.Writer.Admission.{waiting_count}
use rapid_inbox.Writer.Counts.{count_granted, InRange}
use rapid_inbox.Pool.State.{
  Phase, new, starting, opened, pausing, paused, closing, closed, idle, running, acking, failing,
  draining, PoolWorker, Pool, is_opened, is_pausing, is_closing, cancel_admission, deliver_grant,
}
use rapid_inbox.Pool.Actor.{
  begin_start, finish_start, acquire_capacity, resume_waiter, submit, pause_and_drain, resume,
  close, take_item, acknowledge_pause, begin_worker_failure, finish_request, fail_active,
  fail_queue,
}
use rapid_inbox.Pool.Sums.{is_live, Serving, Drained, Parked, Winding, Orderly, loads, acks}

-- A waiter may resume, be cancelled, or be reached by its callback at any time: the relation
-- has at least the steps of the program. Where the steps are `uninterrupted`, the second section of
-- `start` finds the pool as the first has left it: no `close` and no failing worker came between.
pub data Step (uninterrupted : Bool) : Pool → Pool → Type 0 where
  begins_start : (p : Pool) → Step uninterrupted p (begin_start p).0
  finishes_start :
      (p : Pool)
      → (p.state ≡ starting) ⊎ (uninterrupted ≡ false)
      → Step uninterrupted p (finish_start p)
  acquires : (p : Pool) → Step uninterrupted p (acquire_capacity p).0
  resumes_waiter :
      (i : ℕ) (p : Pool) → Step uninterrupted p (resume_waiter i (get_elem? p.store i) p).0
  cancels : (i : ℕ) (p : Pool) → Step uninterrupted p (cancel_admission i p)
  delivers :
      (done : Bool) (i : ℕ) (p : Pool)
      → Step uninterrupted p (deliver_grant done i (get_elem? p.store i) p)
  submits : (r : ℕ) (p : Pool) → 0 < p.in_hand → Step uninterrupted p (submit r p).0
  pauses : (p : Pool) → Step uninterrupted p (pause_and_drain p).0
  resumes : (p : Pool) → Step uninterrupted p (resume p).0
  closes : (p : Pool) → Step uninterrupted p (close p)
  takes :
      (i : ℕ) (w : PoolWorker) (p : Pool)
      → get_elem? p.workers i ≡ some w
      → w.job ≡ idle
      → Step uninterrupted p (take_item i w w.queue p)
  acknowledges :
      (i : ℕ) (w : PoolWorker) (p : Pool)
      → get_elem? p.workers i ≡ some w
      → w.job ≡ acking
      → Step uninterrupted p (acknowledge_pause i w p)
  finishes :
      (stays_open : Bool) (r i : ℕ) (w : PoolWorker) (p : Pool)
      → get_elem? p.workers i ≡ some w
      → w.job ≡ running r
      → Step uninterrupted p (finish_request stays_open i w p)
  fails :
      (i : ℕ) (w : PoolWorker) (p : Pool)
      → get_elem? p.workers i ≡ some w
      → is_live w.job ≡ true
      → Step uninterrupted p (begin_worker_failure i w p)
  fails_active :
      (r i : ℕ) (w : PoolWorker) (p : Pool)
      → get_elem? p.workers i ≡ some w
      → w.job ≡ failing r
      → Step uninterrupted p (fail_active i w p)
  fails_queue :
      (i : ℕ) (w : PoolWorker) (p : Pool)
      → get_elem? p.workers i ≡ some w
      → w.job ≡ draining
      → Step uninterrupted p (fail_queue i w w.queue p)

pub data Reach (uninterrupted : Bool) (initial : Pool) : Pool → Type 0 where
  created : Reach uninterrupted initial initial
  and_then :
      {before after : Pool}
      → Reach uninterrupted initial before
      → Step uninterrupted before after
      → Reach uninterrupted initial after

-- Every slot has one owner: a granted waiter, a coroutine, or a worker.
pub record IsBalanced (p : Pool) : Type 0 where
  pub positive : 0 < p.queue_capacity
  pub manned : 0 < p.max_connections
  pub staffed : length p.workers ≡ p.max_connections
  pub next : p.next_worker < p.max_connections
  pub balanced : p.outstanding ≡ count_granted p.store + p.in_hand + loads p.workers
  pub bounded : p.outstanding ≤ p.queue_capacity
  pub parked_bound : waiting_count p.store p.admission_waiters ≤ p.max_waiters
  pub in_range : InRange (length p.store) p.admission_waiters

-- Nobody waits for a free slot, and nobody waits in a pool that is not open.
abbrev pub IsFed : Pool → Type 0
IsFed p =
    (is_opened p.state ≡ true) × (p.queue_capacity ≤ p.outstanding)
    ⊎ (waiting_count p.store p.admission_waiters ≡ 0)

abbrev pub is_working : Phase → Bool
is_working new = true
is_working starting = true
is_working opened = true
is_working pausing = true
is_working _ = false

-- The flags of a pool that is neither closing nor closed.
pub record Unended (p : Pool) (controls : Bool) : Type 0 where
  pub unstopped : p.stop_enqueued ≡ false
  pub unharmed : p.fatal ≡ false
  pub controlled : p.pause_controls_enqueued ≡ controls

-- What the workers and their queues look like in each phase of maintenance and of shutdown.
pub data Protocol (p : Pool) : Type 0 where
  serving :
      is_working p.state ≡ true
      → Unended p false
      → p.pause_ack_count ≡ 0
      → All Serving p.workers
      → Protocol p
  drain :
      p.state ≡ pausing
      → Unended p true
      → p.outstanding ≡ 0
      → p.pause_ack_count ≡ acks p.workers
      → p.pause_ack_count < p.max_connections
      → All Drained p.workers
      → Protocol p
  halted : p.state ≡ paused → Unended p true → p.outstanding ≡ 0 → All Parked p.workers → Protocol p
  winding :
      p.state ≡ closing
      → p.stop_enqueued ≡ false
      → p.fatal ≡ false
      → All Winding p.workers
      → Protocol p
  ending :
      (p.state ≡ closing) × (p.stop_enqueued ≡ true) ⊎ (p.state ≡ closed)
      → (p.fatal ≡ true) ⊎ (p.outstanding ≡ 0) ⊎ (p.state ≡ closed)
      → All Orderly p.workers
      → Protocol p

-- A pool with nothing left to drain has told its workers.
abbrev pub IsAnnounced : Pool → Type 0
IsAnnounced p =
    (0 < p.outstanding)
    ⊎ (is_pausing p.state && not p.pause_controls_enqueued ≡ false)
      × (is_closing p.state && not p.stop_enqueued ≡ false)

pub record IsHealthy (p : Pool) : Type 0 where
  pub balance : IsBalanced p
  pub fed : IsFed p
  pub protocol : Protocol p
  pub announced : IsAnnounced p

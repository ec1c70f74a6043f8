-- ===== src/Pool/Actor.antt =====
-- The operations of SQLiteReadPool in app/db/read_pool.py: each runs one locked section, or the part
-- of a coroutine or of a worker thread between two suspensions. The check of the owning process is
-- left out: no fork is modelled.
use rapid_inbox.Base.{
  ℕ, zero, suc, ◌+◌, ◌-◌, ◌%◌, Bool, true, false, ◌&&◌, ◌||◌, Option, none, some, List, [], ◌∷◌,
  ◌++◌, length, get_elem?, set, ltb, leb, eqb, if◌then◌else◌,
}
use rapid_inbox.Writer.Admission.{
  Admission, waiting, granted, consumed, is_empty, drop_inactive, waiting_count, reject_all,
}
use rapid_inbox.Pool.State.{
  Phase, new, starting, opened, pausing, paused, closing, closed, Item, read, pause, stop, Job,
  idle, running, acking, failing, draining, exited, PoolWorker, Pool, PoolError, closed_error,
  paused_error, overloaded, unavailable, is_opened, is_pausing, is_closed, put_item, put_all,
  advance_lifecycle, grant_waiters, give_back, release_capacity, set_state, cancel_admission,
}

pub data Outcome : Type 0 where
  admitted : Outcome
  parked : ℕ → Outcome
  refused : PoolError → Outcome

-- the first locked section of `start`, and whether it raises
unfoldable pub begin_start : Pool → Pool × Option PoolError
begin_start p = elim p.state [
  | new ↦ (record p { state = starting }, none)
  | opened ↦ (p, none)
  | _ ↦ (p, some closed_error)
]

-- the second locked section of `start`, when every thread has started: it does not look at the state
unfoldable pub finish_start : Pool → Pool
finish_start p = record p { state = opened }

abbrev pub park : Pool → Pool × Outcome
park p = (
  grant_waiters (record p {
    store = p.store ++ waiting ∷ [];
    admission_waiters = p.admission_waiters ++ length p.store ∷ [];
  }),
  parked (length p.store),
)

-- what follows the discard in the lock of `_acquire_capacity`
unfoldable pub admit : Pool → Pool × Outcome
unfolding grant_waiters
admit p =
    if ltb p.outstanding p.queue_capacity && is_empty p.admission_waiters
    then (record p { outstanding = suc p.outstanding; in_hand = suc p.in_hand }, admitted)
    else if leb p.max_waiters (waiting_count p.store p.admission_waiters)
    then (p, refused overloaded)
    else park p

-- `_raise_if_not_open_locked`
abbrev pub not_open : Phase → PoolError
not_open pausing = paused_error
not_open paused = paused_error
not_open _ = closed_error

-- `_acquire_capacity` up to its `await`
unfoldable pub acquire_capacity : Pool → Pool × Outcome
unfolding admit
acquire_capacity p =
    if is_opened p.state
    then admit (record p { admission_waiters = drop_inactive p.store p.admission_waiters })
    else (p, refused (not_open p.state))

-- `_acquire_capacity` after `await`: consumed, or the error path (also that of a timeout)
unfoldable pub resume_waiter : ℕ → Option Admission → Pool → Pool × Outcome
unfolding cancel_admission
resume_waiter i (some granted) p =
    (record (set_state i consumed p) { in_hand = suc p.in_hand }, admitted)
resume_waiter i _ p = (cancel_admission i p, refused unavailable)

abbrev pub drop_hand : Pool → Pool
drop_hand p = record p { in_hand = p.in_hand - 1 }

abbrev pub put_read : ℕ → Option PoolWorker → Pool → Pool
put_read r none p = p
put_read r (some w) p = record p {
  workers = set p.workers p.next_worker (put_item (read r) w);
  next_worker = (p.next_worker + 1) % p.max_connections;
}

-- the locked section of `_submit`
unfoldable pub submit : ℕ → Pool → Pool × Option PoolError
unfolding advance_lifecycle
submit r p =
    if p.fatal || is_closed p.state
    then (advance_lifecycle (give_back (drop_hand p)), some closed_error)
    else (put_read r (get_elem? p.workers p.next_worker) (drop_hand p), none)

abbrev pub reject_waiters : Pool → Pool
reject_waiters p = record p {
  store = reject_all p.store p.admission_waiters;
  admission_waiters = [];
}

-- the locked section of `pause_and_drain`, and whether it raises
unfoldable pub pause_and_drain : Pool → Pool × Option PoolError
unfolding advance_lifecycle
pause_and_drain p = elim p.state [
  | paused ↦ (p, none)
  | opened ↦ (advance_lifecycle (record (reject_waiters p) { state = pausing }), none)
  | pausing ↦ (p, none)
  | _ ↦ (p, some closed_error)
]

-- `resume`, and whether it raises
unfoldable pub resume : Pool → Pool × Bool
resume p = elim p.state [
  | paused ↦
      (record p { pause_controls_enqueued = false; pause_ack_count = 0; state = opened }, false)
  | closing ↦ (p, false)
  | closed ↦ (p, false)
  | opened ↦ (p, false)
  | _ ↦ (p, true)
]

-- the locked section of `close`
unfoldable pub close : Pool → Pool
unfolding advance_lifecycle
close p = elim p.state [
  | new ↦ record p { state = closed }
  | closing ↦ p
  | closed ↦ p
  | _ ↦ advance_lifecycle (record (reject_waiters p) { state = closing })
]

abbrev pub set_worker : ℕ → PoolWorker → Pool → Pool
set_worker i w p = record p { workers = set p.workers i w }

-- the `finally` of `_worker_main`: `_close_connection` and `_worker_stopped`
abbrev pub exit_worker : ℕ → PoolWorker → Pool → Pool
exit_worker i w p =
    let p' = set_worker i (record w { connection_open = false; job = exited }) p in
    record p' {
      stopped_worker_count = suc p.stopped_worker_count;
      state = if eqb (suc p.stopped_worker_count) p.max_connections then closed else p.state;
    }

-- `item = worker.queue.get()`
unfoldable pub take_item : ℕ → PoolWorker → List Item → Pool → Pool
take_item i w [] p = p
take_item i w (read r ∷ rest) p = set_worker i (record w { queue = rest; job = running r }) p
take_item i w (pause ∷ rest) p =
    set_worker i (record w { queue = rest; connection_open = false; job = acking }) p
take_item i w (stop ∷ rest) p = exit_worker i (record w { queue = rest }) p

-- `_acknowledge_pause`
unfoldable pub acknowledge_pause : ℕ → PoolWorker → Pool → Pool
acknowledge_pause i w p =
    let p' = record (set_worker i (record w { job = idle }) p) {
      pause_ack_count = suc p.pause_ack_count;
    } in
    if eqb (suc p.pause_ack_count) p.max_connections && is_pausing p.state
    then record p' { state = paused }
    else p'

-- `_begin_worker_failure`: a sentinel for each other worker
unfoldable pub put_others : ℕ → Item → List PoolWorker → List PoolWorker
put_others i x [] = []
put_others zero x (w ∷ workers) = w ∷ put_all x workers
put_others (suc i) x (w ∷ workers) = put_item x w ∷ put_others i x workers

abbrev pub failing_job : Job → Job
failing_job (running r) = failing r
failing_job _ = draining

-- what the first failure does to the pool
abbrev pub first_failure : ℕ → Pool → Pool
first_failure i p = record (reject_waiters p) {
  fatal = true;
  state = closing;
  stop_enqueued = true;
  workers = if p.stop_enqueued then p.workers else put_others i stop p.workers;
}

unfoldable pub begin_worker_failure : ℕ → PoolWorker → Pool → Pool
unfolding put_others put_all
begin_worker_failure i w p =
    let p' = set_worker i (record w { job = failing_job w.job }) p in
    if p.fatal then p' else first_failure i p'

abbrev pub released_or : Option Pool → Pool → Pool
released_or none p = p
released_or (some p) _ = p

-- `_run_request` and the release of its slot; `stays_open` says whether it leaves the connection open. A
-- release that raises is a failure of the worker.
unfoldable pub finish_request : Bool → ℕ → PoolWorker → Pool → Pool
unfolding release_capacity begin_worker_failure
finish_request stays_open i w p =
    released_or
      (release_capacity (set_worker i (record w { connection_open = stays_open; job = idle }) p))
      (begin_worker_failure i w p)

-- the release of the active request's slot after a failure
unfoldable pub fail_active : ℕ → PoolWorker → Pool → Pool
unfolding release_capacity
fail_active i w p =
    let p' = set_worker i (record w { job = draining }) p in released_or (release_capacity p') p'

-- one round of `_fail_worker_queue`, and the `finally` when the queue is empty
unfoldable pub fail_queue : ℕ → PoolWorker → List Item → Pool → Pool
unfolding release_capacity
fail_queue i w [] p = exit_worker i w p
fail_queue i w (read r ∷ rest) p =
    let p' = set_worker i (record w { queue = rest }) p in released_or (release_capacity p') p'
fail_queue i w (pause ∷ rest) p = set_worker i (record w { queue = rest }) p
fail_queue i w (stop ∷ rest) p = set_worker i (record w { queue = rest }) p

-- ===== src/Writer/Actor.antt =====
-- The operations of `DatabaseWriter` in app/db/writer.py: each runs one locked section, or the
-- part of a coroutine or of the worker thread between two suspensions.
use rapid_inbox.Writer.Admission.{
  escaped, Phase, closing, closed, Admission, waiting, granted, consumed, Item, request, stop,
  Worker, absent, idle, running, failing, draining, exited, WriterError, closed_error, overloaded,
  underflow, queue_full, start_failed, Writer, is_opened, is_empty, grant_waiters, drop_inactive,
  waiting_count, reject_all, prepare_stop, set_state, release_capacity, cancel_admission,
}
use rapid_inbox.Base.{
  ℕ, suc, ◌-◌, Bool, true, false, not, ◌&&◌, Option, none, some, List, [], ◌∷◌, ◌++◌, length, ltb,
  leb, eqb, if◌then◌else◌,
}

pub data Outcome : Type 0 where
  admitted : Outcome
  parked : ℕ → List ℕ → Outcome
  refused : WriterError → Outcome

-- `_raise_if_not_open_locked` and `_ensure_worker_started_locked`; the flag says whether
-- `thread.start()` succeeds.
unfoldable pub ensure_worker_started : Bool → Writer → Worker → Writer × Bool
ensure_worker_started true w absent = (record w { worker = idle }, true)
ensure_worker_started false w absent = (record w { state = closed }, false)
ensure_worker_started starts w _ = (w, true)

abbrev pub park : Writer → Writer × Outcome
park w =
    let i = length w.store in
    let (w', grants) = grant_waiters (record w {
      store = w.store ++ waiting ∷ [];
      admission_waiters = w.admission_waiters ++ i ∷ [];
    }) in
    (w', parked i grants)

-- what follows the discard in the lock of `_acquire_capacity`
unfoldable pub admit : Writer → Writer × Outcome
admit w =
    if ltb w.outstanding w.queue_capacity && is_empty w.admission_waiters
    then (record w { outstanding = suc w.outstanding; in_hand = suc w.in_hand }, admitted)
    else if leb w.max_waiters (waiting_count w.store w.admission_waiters)
    then (w, refused overloaded)
    else park w

abbrev pub discard_inactive : Writer → Writer
discard_inactive w = record w { admission_waiters = drop_inactive w.store w.admission_waiters }

abbrev pub admit_started : Writer × Bool → Writer × Outcome
admit_started (w, true) = admit (discard_inactive w)
admit_started (w, false) = (w, refused start_failed)

-- `_acquire_capacity` up to its `await`
unfoldable pub acquire_capacity : Bool → Writer → Writer × Outcome
acquire_capacity starts w =
    if is_opened w.state
    then admit_started (ensure_worker_started starts w w.worker)
    else (w, refused closed_error)

-- `_acquire_capacity` after `await waiter.future` has returned: consumed, or the error path
unfoldable pub resume_waiter : ℕ → Option Admission → Writer → Writer × Outcome
resume_waiter i (some granted) w =
    (record (set_state i consumed w) { in_hand = suc w.in_hand }, admitted)
resume_waiter i _ w = ((cancel_admission i w).0, refused closed_error)

abbrev pub drop_hand : Writer → Writer
drop_hand w = record w { in_hand = w.in_hand - 1 }

abbrev pub refuse : WriterError → Option (Writer × List ℕ) → Writer → Writer × Option WriterError
refuse e (some (w, _)) _ = (w, some e)
refuse e none w = (w, some underflow)

-- The second locked section of `_submit`, with the handler that releases on an exception.
unfoldable pub submit : ℕ → Writer → Writer × Option WriterError
submit r w =
    if is_opened w.state
    then (if leb w.queue_capacity (length w.queue)
        then refuse queue_full (release_capacity (drop_hand w)) (drop_hand w)
        else (record (drop_hand w) { queue = w.queue ++ request r ∷ [] }, none))
    else if leb w.outstanding 0
    then refuse underflow (release_capacity (drop_hand w)) (drop_hand w)
    else (
      prepare_stop (record (drop_hand w) { outstanding = w.outstanding - 1 }),
      some closed_error,
    )

-- `self._queue.put_nowait(_STOP)` outside the lock
unfoldable pub put_stop : Writer → Writer
put_stop w = record w { stop_in_flight = w.stop_in_flight - 1; queue = w.queue ++ stop ∷ [] }

abbrev pub start_close : Worker → Writer → Writer
start_close absent w = record w { state = closed }
start_close _ w = record w { stop_enqueued = true; stop_in_flight = suc w.stop_in_flight }

-- the locked section of `close`
unfoldable pub close : Writer → Writer
close w =
    let w' = record w {
      state = closing;
      store = reject_all w.store w.admission_waiters;
      admission_waiters = [];
    } in
    if is_opened w.state
    then (if eqb w.outstanding 0 && not w.stop_enqueued then start_close w.worker w' else w')
    else w

-- `item = self._queue.get()` in the worker's loop: a request starts to run, the sentinel ends
-- the thread, and its `finally` closes the writer.
unfoldable pub take_item : Writer → List Item → Writer
take_item w [] = w
take_item w (request r ∷ rest) = record w { queue = rest; worker = running r }
take_item w (stop ∷ rest) = record w { queue = rest; worker = exited; state = closed }

-- the state after a release, or else the worker that the underflow's exception makes
abbrev pub released_or : Worker → Option (Writer × List ℕ) → Writer → Writer
released_or k (some (w, _)) _ = w
released_or k none w = record w { worker = k }

abbrev pub escaping : Bool → Worker → Worker
escaping done (running r) = escaped done r
escaping done _ = escaped done 0

-- `_run_request` when it returns, or a failing `_open_connection`: either way the request's result is
-- set and its slot released. The underflow of a release is an exception with the result done.
unfoldable pub finish_request : Writer → Writer
finish_request w =
    let w' = record w { worker = idle } in
    released_or (escaping true w.worker) (release_capacity w') w'

-- `_run_request` when an exception leaves it: its `finally` releases the slot all the same. The
-- result is done if it was set before, and not done if `rollback` or `close` has raised an error
-- that is not SQLite's.
unfoldable pub escape_request : Bool → Writer → Writer
escape_request done w =
    let w' = record w { worker = escaping done w.worker } in
    released_or w'.worker (release_capacity w') w'

-- the active request whose result is not done, with its slot or without
abbrev pub failing_worker : Worker → Worker
failing_worker (running r) = failing r
failing_worker (escaped false r) = failing r
failing_worker _ = draining

abbrev pub closing_unless_closed : Phase → Phase
closing_unless_closed closed = closed
closing_unless_closed _ = closing

-- `_begin_fatal_shutdown`
unfoldable pub begin_fatal_shutdown : Writer → Writer
begin_fatal_shutdown w = record w {
  state = closing_unless_closed w.state;
  stop_enqueued = true;
  store = reject_all w.store w.admission_waiters;
  admission_waiters = [];
  worker = failing_worker w.worker;
}

-- An exception inside the fatal handler: only the last `finally` is left.
abbrev pub stop_thread : Option (Writer × List ℕ) → Writer → Writer
stop_thread (some (w, _)) _ = w
stop_thread none w = record w { worker = exited; state = closed }

-- The handler's release of an active request whose result is not done, also if `_run_request` has
-- released its slot before.
unfoldable pub fail_active : Writer → Writer
fail_active w = let w' = record w { worker = draining } in stop_thread (release_capacity w') w'

-- one round of `_fail_owned_requests`, and the `finally` when the queue is empty
unfoldable pub fail_owned : Writer → List Item → Writer
fail_owned w [] = record w { worker = exited; state = closed }
fail_owned w (request r ∷ rest) =
    let w' = record w { queue = rest } in stop_thread (release_capacity w') w'
fail_owned w (stop ∷ rest) = record w { queue = rest }

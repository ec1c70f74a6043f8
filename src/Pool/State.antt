-- ===== src/Pool/State.antt =====
-- The state of SQLiteReadPool in app/db/read_pool.py and the locked sections on its slots. The loops
-- over the admission queue are the writer's, word for word. `in_hand` counts the coroutines that
-- have left `_acquire_capacity` and have not reached a worker's queue.
use rapid_inbox.Base.{
  ℕ, zero, suc, ◌-◌, Bool, true, false, not, ◌&&◌, ◌||◌, Option, none, some, List, [], ◌∷◌, ◌++◌,
  get_elem?, set, ltb, leb, eqb, if◌then◌else◌,
}
use rapid_inbox.Writer.Admission.{Admission, waiting, granted, cancelled, Granting, grant_from}

pub data Phase : Type 0 where
  new starting opened pausing paused closing closed : Phase

-- what a worker's queue holds
pub data Item : Type 0 where
  read : ℕ → Item
  pause stop : Item

-- `acking` has closed its connection for a pause; `failing` owns its request, `draining` does not
pub data Job : Type 0 where
  idle : Job
  running : ℕ → Job
  acking : Job
  failing : ℕ → Job
  draining exited : Job

pub record PoolWorker : Type 0 where
  pub queue : List Item
  pub connection_open : Bool
  pub job : Job

pub record Pool : Type 0 where
  pub max_connections : ℕ
  pub queue_capacity : ℕ
  pub max_waiters : ℕ
  pub state : Phase
  pub outstanding : ℕ
  pub next_worker : ℕ
  pub store : List Admission
  pub admission_waiters : List ℕ
  pub workers : List PoolWorker
  pub pause_controls_enqueued : Bool
  pub pause_ack_count : ℕ
  pub stop_enqueued : Bool
  pub stopped_worker_count : ℕ
  pub fatal : Bool
  pub in_hand : ℕ

pub data PoolError : Type 0 where
  closed_error paused_error overloaded underflow unavailable : PoolError

abbrev pub is_opened : Phase → Bool
is_opened opened = true
is_opened _ = false

abbrev pub is_pausing : Phase → Bool
is_pausing pausing = true
is_pausing _ = false

abbrev pub is_paused : Phase → Bool
is_paused paused = true
is_paused _ = false

abbrev pub is_closing : Phase → Bool
is_closing closing = true
is_closing _ = false

abbrev pub is_closed : Phase → Bool
is_closed closed = true
is_closed _ = false

abbrev pub idle_worker : PoolWorker
idle_worker = record { queue = []; connection_open = false; job = idle }

abbrev pub idle_workers : ℕ → List PoolWorker
idle_workers zero = []
idle_workers (suc n) = idle_worker ∷ idle_workers n

-- `__init__` after its validation
abbrev pub new_pool : (connections capacity waiters : ℕ) → Pool
new_pool connections capacity waiters = record {
  max_connections = connections;
  queue_capacity = capacity;
  max_waiters = waiters;
  state = new;
  outstanding = 0;
  next_worker = 0;
  store = [];
  admission_waiters = [];
  workers = idle_workers connections;
  pause_controls_enqueued = false;
  pause_ack_count = 0;
  stop_enqueued = false;
  stopped_worker_count = 0;
  fatal = false;
  in_hand = 0;
}

-- the validation of `__init__`
unfoldable pub make_pool : (connections capacity waiters timeout : ℕ) → Option Pool
make_pool connections capacity waiters timeout =
    if eqb connections 0
      || eqb capacity 0
      || eqb waiters 0
      || ltb capacity connections
      || eqb timeout 0
    then none
    else some (new_pool connections capacity waiters)

abbrev pub put_item : Item → PoolWorker → PoolWorker
put_item x w = record w { queue = w.queue ++ x ∷ [] }

-- one sentinel for each worker
unfoldable pub put_all : Item → List PoolWorker → List PoolWorker
put_all x [] = []
put_all x (w ∷ workers) = put_item x w ∷ put_all x workers

-- `_advance_lifecycle_locked`
unfoldable pub advance_lifecycle : Pool → Pool
unfolding put_all
advance_lifecycle p =
    if not (eqb p.outstanding 0)
    then p
    else if is_pausing p.state && not p.pause_controls_enqueued
    then record p { pause_controls_enqueued = true; workers = put_all pause p.workers }
    else if is_closing p.state && not p.stop_enqueued
    then record p { stop_enqueued = true; workers = put_all stop p.workers }
    else p

abbrev pub granted_into : Pool → Granting → Pool
granted_into p g = record p {
  admission_waiters = g.waiters;
  outstanding = g.count;
  store = g.states;
}

-- `_grant_waiters_locked`, without the list of the grants, whose delivery is `deliver_grant`
unfoldable pub grant_waiters : Pool → Pool
grant_waiters p =
    if is_opened p.state
    then granted_into p (grant_from p.queue_capacity p.outstanding p.store p.admission_waiters)
    else p

abbrev pub give_back : Pool → Pool
give_back p = record p { outstanding = p.outstanding - 1 }

-- `_release_capacity`
unfoldable pub release_capacity : Pool → Option Pool
unfolding grant_waiters advance_lifecycle
release_capacity p =
    if leb p.outstanding 0 then none else some (advance_lifecycle (grant_waiters (give_back p)))

abbrev pub set_state : ℕ → Admission → Pool → Pool
set_state i s p = record p { store = set p.store i s }

-- the two tests on `waiter.state` in `_cancel_admission`
unfoldable pub cancel_state : ℕ → Option Admission → Pool → Pool
cancel_state i (some waiting) p = set_state i cancelled p
cancel_state i (some granted) p = give_back (set_state i cancelled p)
cancel_state i _ p = p

-- `_cancel_admission`
unfoldable pub cancel_admission : ℕ → Pool → Pool
unfolding grant_waiters advance_lifecycle cancel_state
cancel_admission i p = advance_lifecycle (grant_waiters (cancel_state i (get_elem? p.store i) p))

-- `_deliver_admission_grant`; the flag is `waiter.future.done()`
unfoldable pub deliver_grant : Bool → ℕ → Option Admission → Pool → Pool
unfolding grant_waiters advance_lifecycle
deliver_grant true i (some granted) p =
    advance_lifecycle (grant_waiters (give_back (set_state i cancelled p)))
deliver_grant future_done i _ p = p

-- ===== src/Writer/Admission.antt =====
-- The state of `DatabaseWriter` in app/db/writer.py and its locked sections. Every waiter object
-- that was ever made lies in `store`; the deque and the coroutines share it by its index.
-- `in_hand` counts the coroutines that have left `_acquire_capacity` and have not reached the
-- queue; `stop_in_flight` counts the sentinels between the lock and `put_nowait`. Scheduled
-- callbacks are the lists of waiters that an operation returns.
use rapid_inbox.Base.{
  ℕ, suc, ◌+◌, ◌-◌, Bool, true, false, not, ◌&&◌, Option, none, some, List, [], ◌∷◌, get_elem?, set,
  ltb, leb, eqb, if◌then◌else◌,
}

pub data Phase : Type 0 where
  opened closing closed : Phase

-- `_AdmissionWaiter.state`
pub data Admission : Type 0 where
  waiting granted consumed cancelled rejected : Admission

pub data Item : Type 0 where
  request : ℕ → Item
  stop : Item

-- `absent` is `_thread is None`. An exception that leaves `_run_request` has passed the release of
-- its `finally`: `escaped`, with whether the request's result is done. In the fatal handler the
-- thread is `failing` while it has the active request to fail, then `draining`.
pub data Worker : Type 0 where
  absent idle : Worker
  running : ℕ → Worker
  escaped : Bool → ℕ → Worker
  failing : ℕ → Worker
  draining exited : Worker

pub data WriterError : Type 0 where
  closed_error overloaded underflow queue_full start_failed : WriterError

pub record Writer : Type 0 where
  pub queue_capacity : ℕ
  pub max_waiters : ℕ
  pub state : Phase
  pub outstanding : ℕ
  pub store : List Admission
  pub admission_waiters : List ℕ
  pub stop_enqueued : Bool
  pub stop_in_flight : ℕ
  pub queue : List Item
  pub in_hand : ℕ
  pub worker : Worker

abbrev pub is_opened : Phase → Bool
is_opened opened = true
is_opened _ = false

abbrev pub is_closing : Phase → Bool
is_closing closing = true
is_closing _ = false

abbrev pub is_waiting : Option Admission → Bool
is_waiting (some waiting) = true
is_waiting _ = false

abbrev pub is_empty : List ℕ → Bool
is_empty [] = true
is_empty (_ ∷ _) = false

-- `__init__` after its validation
abbrev pub new_writer : ℕ → ℕ → Writer
new_writer capacity waiters = record {
  queue_capacity = capacity;
  max_waiters = waiters;
  state = opened;
  outstanding = 0;
  store = [];
  admission_waiters = [];
  stop_enqueued = false;
  stop_in_flight = 0;
  queue = [];
  in_hand = 0;
  worker = absent;
}

-- The loop of `_grant_waiters_locked`.
pub record Granting : Type 0 where
  pub waiters : List ℕ
  pub count : ℕ
  pub states : List Admission
  pub grants : List ℕ

unfoldable pub grant_from : ℕ → ℕ → List Admission → List ℕ → Granting
grant_from capacity count states [] = record {
  waiters = [];
  count = count;
  states = states;
  grants = [];
}
grant_from capacity count states (i ∷ rest) =
    let skip = grant_from capacity count states rest in
    let given = grant_from capacity (suc count) (set states i granted) rest in
    if ltb count capacity
    then (if is_waiting (get_elem? states i)
        then record given { grants = i ∷ given.grants }
        else skip)
    else record { waiters = i ∷ rest; count = count; states = states; grants = [] }

abbrev pub granted_into : Writer → Granting → Writer
granted_into w g = record w {
  admission_waiters = g.waiters;
  outstanding = g.count;
  store = g.states;
}

unfoldable pub grant_waiters : Writer → Writer × List ℕ
grant_waiters w =
    let g = grant_from w.queue_capacity w.outstanding w.store w.admission_waiters in
    if is_opened w.state then (granted_into w g, g.grants) else (w, [])

-- `_discard_inactive_waiters_locked`
unfoldable pub drop_inactive : List Admission → List ℕ → List ℕ
drop_inactive states [] = []
drop_inactive states (i ∷ rest) =
    let dropped = drop_inactive states rest in
    if is_waiting (get_elem? states i) then i ∷ rest else dropped

-- the sum over the deque in `_acquire_capacity`
unfoldable pub waiting_count : List Admission → List ℕ → ℕ
waiting_count states [] = 0
waiting_count states (i ∷ rest) =
    (if is_waiting (get_elem? states i) then 1 else 0) + waiting_count states rest

-- the loop of `close` and of `_begin_fatal_shutdown` that empties the deque
unfoldable pub reject_all : List Admission → List ℕ → List Admission
reject_all states [] = states
reject_all states (i ∷ rest) =
    reject_all (if is_waiting (get_elem? states i) then set states i rejected else states) rest

-- `_prepare_stop_locked`; a caller puts the sentinel after it has left the lock
unfoldable pub prepare_stop : Writer → Writer
prepare_stop w =
    if is_closing w.state && eqb w.outstanding 0 && not w.stop_enqueued
    then record w { stop_enqueued = true; stop_in_flight = suc w.stop_in_flight }
    else w

abbrev pub then_prepare_stop : Writer × List ℕ → Writer × List ℕ
then_prepare_stop (w, grants) = (prepare_stop w, grants)

abbrev pub set_state : ℕ → Admission → Writer → Writer
set_state i s w = record w { store = set w.store i s }

-- `_release_capacity`
unfoldable pub release_capacity : Writer → Option (Writer × List ℕ)
release_capacity w =
    if leb w.outstanding 0
    then none
    else some (then_prepare_stop (grant_waiters (record w { outstanding = w.outstanding - 1 })))

-- the two tests on `waiter.state` in `_cancel_admission`
unfoldable pub cancel_state : ℕ → Option Admission → Writer → Writer
cancel_state i (some waiting) w = set_state i cancelled w
cancel_state i (some granted) w = record (set_state i cancelled w) {
  outstanding = w.outstanding - 1;
}
cancel_state i _ w = w

-- `_cancel_admission`
unfoldable pub cancel_admission : ℕ → Writer → Writer × List ℕ
cancel_admission i w = then_prepare_stop (grant_waiters (cancel_state i (get_elem? w.store i) w))

-- `_deliver_admission_grant`; the flag is `waiter.future.done()`
unfoldable pub deliver_grant : Bool → ℕ → Option Admission → Writer → Writer × List ℕ
deliver_grant true i (some granted) w =
    then_prepare_stop
      (grant_waiters (record (set_state i cancelled w) { outstanding = w.outstanding - 1 }))
deliver_grant future_done i _ w = (w, [])

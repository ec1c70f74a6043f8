-- ===== src/ParseQueue/Defs.antt =====
-- `ParseQueue` of app/ingest/queue.py. `queue` holds tasks and stop sentinels (`None`), `active`
-- the tasks that the worker coroutines have taken and not finished. Counters are natural numbers:
-- where Python would go below zero it raises, and so does the model, in the same place.
use rapid_inbox.Base.{
  ℕ, ◌+◌, ◌-◌, Bool, true, false, ◌&&◌, ◌||◌, Option, none, some, List, [], ◌∷◌, ◌++◌, length, any,
  ltb, leb, if◌then◌else◌, String, ◌==◌,
}
use rapid_inbox.Base.Result.{Result, ok, err, ◌>>=◌, ◌>>◌}

pub record ParseTask : Type 0 where
  pub message_id : String
  pub raw_size_bytes : ℕ

pub data QueueError : Type 0 where
  reservation_missing reservation_underflow empty_message_id byte_budget : QueueError

pub record ParseQueue : Type 0 where
  pub max_messages : ℕ
  pub max_bytes : ℕ
  pub queue : List (Option ParseTask)
  pub active : List ParseTask
  pub active_message_ids : List String
  pub reserved_message_ids : List String
  pub reserved_messages : ℕ
  pub reserved_bytes : ℕ
  pub active_changed : Bool
  pub capacity_changed : Bool

-- `__init__` after its validation
abbrev pub new_queue : ℕ → ℕ → ParseQueue
new_queue messages bytes = record {
  max_messages = messages;
  max_bytes = bytes;
  queue = [];
  active = [];
  active_message_ids = [];
  reserved_message_ids = [];
  reserved_messages = 0;
  reserved_bytes = 0;
  active_changed = true;
  capacity_changed = true;
}

-- Python's sets of message ids: membership, `add`, and `remove` or `discard`
unfoldable pub contains_id : String → List String → Bool
contains_id k [] = false
contains_id k (j ∷ ids) = j == k || contains_id k ids

unfoldable pub add_id : String → List String → List String
unfolding contains_id
add_id k ids = if contains_id k ids then ids else k ∷ ids

unfoldable pub remove_id : String → List String → List String
remove_id k [] = []
remove_id k (j ∷ ids) = if j == k then ids else j ∷ remove_id k ids

-- `_validate_task`; the type checks are the model's types
unfoldable pub validate_task : ParseTask → Result QueueError (Unit {0})
validate_task task = if task.message_id == "" then err empty_message_id else ok tt

-- `_has_capacity`
unfoldable pub has_capacity : ParseTask → ParseQueue → Bool
has_capacity task q =
    ltb q.reserved_messages q.max_messages
    && leb (q.reserved_bytes + task.raw_size_bytes) q.max_bytes

abbrev pub reserve : ParseTask → ParseQueue → ParseQueue
reserve task q = record q {
  reserved_message_ids = add_id task.message_id q.reserved_message_ids;
  reserved_messages = q.reserved_messages + 1;
  reserved_bytes = q.reserved_bytes + task.raw_size_bytes;
  queue = q.queue ++ some task ∷ [];
}

unfoldable pub try_enqueue : ParseTask → ParseQueue → Result QueueError (ParseQueue × Bool)
unfolding validate_task has_capacity contains_id
try_enqueue task q =
    validate_task task
    >> (if ltb q.max_bytes task.raw_size_bytes
        then ok (q, false)
        else if contains_id task.message_id q.reserved_message_ids
        then ok (q, false)
        else if has_capacity task q
        then ok (reserve task q, true)
        else ok (q, false))

-- One round of the loop in `enqueue`, up to its `await`: the result, a retry, or a wait.
pub data Round : Type 0 where
  returns : Bool → Round
  retries waits : Round

abbrev pub after_try : ParseTask → ParseQueue × Bool → Result QueueError (ParseQueue × Round)
after_try task (q, true) = ok (q, returns true)
after_try task (q, false) =
    let q' = record q { capacity_changed = false } in
    if contains_id task.message_id q.reserved_message_ids
    then ok (q', returns false)
    else if has_capacity task q
    then ok (q', retries)
    else ok (q', waits)

unfoldable pub enqueue_round : ParseTask → ParseQueue → Result QueueError (ParseQueue × Round)
unfolding validate_task has_capacity contains_id try_enqueue
enqueue_round task q =
    validate_task task
    >> (if ltb q.max_bytes task.raw_size_bytes
        then err byte_budget
        else if contains_id task.message_id q.reserved_message_ids
        then ok (q, returns false)
        else (try_enqueue task q >>= after_try task))

-- `_release`
unfoldable pub release : ParseTask → ParseQueue → Result QueueError ParseQueue
unfolding contains_id remove_id
release task q =
    if contains_id task.message_id q.reserved_message_ids
    then (if ltb q.reserved_messages 1 || ltb q.reserved_bytes task.raw_size_bytes
        then err reservation_underflow
        else ok (record q {
          reserved_message_ids = remove_id task.message_id q.reserved_message_ids;
          reserved_messages = q.reserved_messages - 1;
          reserved_bytes = q.reserved_bytes - task.raw_size_bytes;
          capacity_changed = true;
        }))
    else err reservation_missing

-- The loop of `remove_pending`: `pending` is what `get_nowait` has still to give.
unfoldable pub remove_loop :
    (ParseTask → Bool)
    → List (Option ParseTask)
    → List (Option ParseTask)
    → ℕ
    → ParseQueue
    → Result QueueError (ParseQueue × ℕ)
unfolding release
remove_loop predicate [] retained cleared q = ok (record q { queue = retained }, cleared)
remove_loop predicate (none ∷ pending) retained cleared q =
    remove_loop predicate pending (retained ++ none ∷ []) cleared q
remove_loop predicate (some task ∷ pending) retained cleared q =
    let kept = remove_loop predicate pending (retained ++ some task ∷ []) cleared q in
    let dropped = release task (record q { queue = pending }) >>= λ q'.
    remove_loop predicate pending retained (cleared + 1) q' in
    if predicate task then dropped else kept

unfoldable pub remove_pending : (ParseTask → Bool) → ParseQueue → Result QueueError (ParseQueue × ℕ)
unfolding remove_loop
remove_pending predicate q = remove_loop predicate q.queue [] 0 q

unfoldable pub clear_pending : ParseQueue → Result QueueError (ParseQueue × ℕ)
unfolding remove_pending
clear_pending = remove_pending (λ _. true)

-- `_discard_queue_contents`
unfoldable pub discard_contents :
    List (Option ParseTask) → ParseQueue → Result QueueError ParseQueue
unfolding release
discard_contents [] q = ok (record q { queue = [] })
discard_contents (none ∷ pending) q = discard_contents pending (record q { queue = pending })
discard_contents (some task ∷ pending) q =
    release task (record q { queue = pending }) >>= λ q'. discard_contents pending q'

-- `_run` up to the call of the worker: take an item; a sentinel ends this worker.
unfoldable pub run_take : ParseQueue → List (Option ParseTask) → ParseQueue
unfolding add_id
run_take q [] = q
run_take q (none ∷ pending) = record q { queue = pending }
run_take q (some task ∷ pending) = record q {
  queue = pending;
  active = task ∷ q.active;
  active_message_ids = add_id task.message_id q.active_message_ids;
}

-- the `finally` of `_run`, reached whether the worker returned, raised or was cancelled
unfoldable pub run_finish : ParseTask → List ParseTask → ParseQueue → Result QueueError ParseQueue
unfolding release remove_id
run_finish task others q = release task (record q {
  active = others;
  active_message_ids = remove_id task.message_id q.active_message_ids;
  active_changed = true;
})

-- the sentinel that `stop` puts for each worker
unfoldable pub put_sentinel : ParseQueue → ParseQueue
put_sentinel q = record q { queue = q.queue ++ none ∷ [] }

abbrev pub queued_messages : ParseQueue → ℕ
queued_messages q = q.reserved_messages - length q.active_message_ids

-- One round of `wait_until_not_active`: true when it returns, false when it waits.
unfoldable pub wait_round : (String → Bool) → ParseQueue → ParseQueue × Bool
wait_round predicate q =
    if any predicate q.active_message_ids
    then (record q { active_changed = false }, false)
    else (q, true)

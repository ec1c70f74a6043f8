-- ===== src/ParseQueue/Reach.antt =====
-- What holds in every state that the queue of app/ingest/queue.py can reach.
use rapid_inbox.ParseQueue.Keeps.{Accounts, IsConsistent}
use rapid_inbox.Base.{
  ◌⊎◌, ℕ, ◌+◌, ◌≤◌, ◌<◌, ◌≡◌, refl, inl, inr, Bool, true, false, not, ◌||◌, some, List, [], ◌∷◌,
  ◌++◌, arith, length, ltb, Bool-cases, String, ◌==◌,
}
use rapid_inbox.Base.Result.{ok}
use rapid_inbox.ParseQueue.Defs.{
  ParseTask, ParseQueue, new_queue, contains_id, validate_task, has_capacity, reserve, try_enqueue,
  Round, enqueue_round, remove_pending, discard_contents, run_take, run_finish, put_sentinel,
  wait_round,
}
use rapid_inbox.ParseQueue.Counting.{count, tasks, count_task, total_bytes, contains_id_iff}
use rapid_inbox.ParseQueue.Removal.{remove_pending-kept}
use rapid_inbox.ParseQueue.Steps.{
  try_enqueue-IsConsistent, run_take-IsConsistent, discard-IsConsistent, finish-IsConsistent,
  enqueue_round-IsConsistent, wait_round-IsConsistent, put_sentinel-IsConsistent,
}

-- Callers, workers and shutdown in any interleaving; an exception of a caller leaves the state.
pub data Step : ParseQueue → ParseQueue → Type 0 where
  tries :
      (task : ParseTask) (q r : ParseQueue) (b : Bool) → try_enqueue task q ≡ ok (r, b) → Step q r
  rounds :
      (task : ParseTask) (q r : ParseQueue) (o : Round)
      → enqueue_round task q ≡ ok (r, o)
      → Step q r
  removes :
      (predicate : ParseTask → Bool) (q r : ParseQueue) (n : ℕ)
      → remove_pending predicate q ≡ ok (r, n)
      → Step q r
  takes : (q : ParseQueue) → Step q (run_take q q.queue)
  finishes :
      (xs : List ParseTask) (task : ParseTask) (ys : List ParseTask) (q r : ParseQueue)
      → q.active ≡ xs ++ task ∷ ys
      → run_finish task (xs ++ ys) q ≡ ok r
      → Step q r
  discards : (q r : ParseQueue) → discard_contents q.queue q ≡ ok r → Step q r
  sentinels : (q : ParseQueue) → Step q (put_sentinel q)
  watches : (predicate : String → Bool) (q : ParseQueue) → Step q (wait_round predicate q).0

pub data Reach (initial : ParseQueue) : ParseQueue → Type 0 where
  created : Reach initial initial
  and_then :
      {before after : ParseQueue} → Reach initial before → Step before after → Reach initial after

Step-IsConsistent : {q r : ParseQueue} → Step q r → IsConsistent q → IsConsistent r
Step-IsConsistent (tries task q r b e) c = try_enqueue-IsConsistent task q r b c e
Step-IsConsistent (rounds task q r o e) c = enqueue_round-IsConsistent task q r o c e
Step-IsConsistent (removes predicate q r n e) c =
    let (r', ran, _, _, c') = remove_pending-kept predicate q c in
    let same : r ≡ r' = cc in rw same c'
Step-IsConsistent (takes q) c = run_take-IsConsistent q q.queue refl c
Step-IsConsistent (finishes xs task ys q r a e) c =
    let (r', ran, c') = finish-IsConsistent xs task ys q a c in let same : r ≡ r' = cc in rw same c'
Step-IsConsistent (discards q r e) c =
    let (r', ran, a, none_left, sa, si) = discard-IsConsistent q.queue q c.accounts in
    let same : r ≡ r' = cc in
    rw same
      (record { accounts = (unfold tasks in rw none_left a); actives = rw (sa, si) c.actives })
Step-IsConsistent (sentinels q) c = put_sentinel-IsConsistent q c
Step-IsConsistent (watches predicate q) c = wait_round-IsConsistent predicate q c

new_queue-IsConsistent : (messages bytes : ℕ) → IsConsistent (new_queue messages bytes)
unfolding tasks count count_task total_bytes
new_queue-IsConsistent messages bytes = record {
  accounts = record {
    owned = λ k. refl;
    unique = λ k. omega arith;
    counted = refl;
    bytes = refl;
    messages_bound = omega arith;
    bytes_bound = omega arith;
  };
  actives = λ k. refl;
}

-- In every reachable state, whatever the interleaving: a message id is reserved exactly when its
-- task is queued or active, and then once; the counters are the number and the bytes of those
-- tasks; both budgets hold; and the set of active ids is that of the active tasks.
pub Reach-IsConsistent :
    (messages bytes : ℕ) (q : ParseQueue) → Reach (new_queue messages bytes) q → IsConsistent q
Reach-IsConsistent messages bytes q created = new_queue-IsConsistent messages bytes
Reach-IsConsistent messages bytes q (and_then {before} r s) =
    Step-IsConsistent s (Reach-IsConsistent messages bytes before r)

-- In a reachable state a worker can finish any of its tasks: the release does not raise, and the
-- queue is consistent again.
pub run_finish_succeeds :
    (messages bytes : ℕ) (q : ParseQueue) (xs : List ParseTask) (task : ParseTask)
    (ys : List ParseTask)
    → Reach (new_queue messages bytes) q
    → q.active ≡ xs ++ task ∷ ys
    → (r : ParseQueue) × (run_finish task (xs ++ ys) q ≡ ok r) × IsConsistent r
run_finish_succeeds messages bytes q xs task ys reach e =
    finish-IsConsistent xs task ys q e (Reach-IsConsistent messages bytes q reach)

-- In a reachable state a shutdown can discard the queue: no release raises, nothing stays queued,
-- and what remains reserved is what the workers have taken.
pub discard_contents_succeeds :
    (messages bytes : ℕ) (q : ParseQueue)
    → Reach (new_queue messages bytes) q
    → (r : ParseQueue) × (discard_contents q.queue q ≡ ok r) × Accounts r q.active × (r.queue ≡ [])
discard_contents_succeeds messages bytes q reach =
    let (r, ran, a, none_left, sa, _) =
      discard-IsConsistent q.queue q (Reach-IsConsistent messages bytes q reach).accounts in
    (r, ran, rw sa at a, none_left)

-- There is room for the task: no queued or active task has its id, and both budgets hold with it.
abbrev pub HasRoom : ParseTask → ParseQueue → Type 0
HasRoom task q =
    (count_task task.message_id (tasks q.queue ++ q.active) ≡ 0)
    × (length (tasks q.queue ++ q.active) < q.max_messages)
    × (total_bytes (tasks q.queue ++ q.active) + task.raw_size_bytes ≤ q.max_bytes)

-- From a consistent queue a task with an id is admitted exactly when no queued or active task has
-- its id and both budgets have room for it; a refusal changes nothing, and an admitted task goes
-- to the end.
pub try_enqueue_exact :
    (task : ParseTask) (q : ParseQueue)
    → IsConsistent q
    → (task.message_id == "") ≡ false
    → (r : ParseQueue) × (b : Bool) × (try_enqueue task q ≡ ok (r, b))
      × ((b ≡ true) × HasRoom task q × (r.queue ≡ q.queue ++ some task ∷ [])
          ⊎ (b ≡ false) × ¬ HasRoom task q × (r ≡ q))
unfolding try_enqueue validate_task has_capacity
try_enqueue_exact task q c named =
    let k = task.message_id in
    let a = c.accounts in
    let known = contains_id_iff k q.reserved_message_ids in
    elim (Bool-cases (
      ltb q.max_bytes task.raw_size_bytes
      || contains_id k q.reserved_message_ids
      || not (has_capacity task q))) [
        | inl refused ↦ (
          q,
          false,
          ground arith,
          inr (refl, (λ room. ground (arith, known, a.owned k, a.counted, a.bytes)), refl),
        )
        | inr admitted ↦ (
          reserve task q,
          true,
          ground arith,
          inl (refl, ground (arith, known, a.owned k, a.counted, a.bytes), refl),
        )
      ]

-- ===== src/ParseQueue/Keeps.antt =====
-- Every operation of the queue of app/ingest/queue.py keeps the account of its reservations.
use rapid_inbox.Base.{
  ◌-◌, ◌≤◌, ◌<◌, ◌≡◌, refl, Bool, true, false, ◌||◌, Option, some, List, [], ◌∷◌, ◌++◌, arith,
  length, length-append, ltb, String, ◌==◌, eq_iff,
}
use rapid_inbox.Base.Result.{ok}
use rapid_inbox.ParseQueue.Defs.{
  ParseTask, ParseQueue, contains_id, remove_id, has_capacity, reserve, release,
}
use rapid_inbox.ParseQueue.Counting.{
  count, tasks, count_task, total_bytes, contains_id_iff, count-add_id, count-remove_id,
  tasks-append, count_task-append, total_bytes-append,
}

-- The reservations are those of the listed tasks, each once, within both budgets.
pub record Accounts (q : ParseQueue) (held : List ParseTask) : Type 0 where
  pub owned : (k : String) → count k q.reserved_message_ids ≡ count_task k held
  pub unique : (k : String) → count k q.reserved_message_ids ≤ 1
  pub counted : q.reserved_messages ≡ length held
  pub bytes : q.reserved_bytes ≡ total_bytes held
  pub messages_bound : q.reserved_messages ≤ q.max_messages
  pub bytes_bound : q.reserved_bytes ≤ q.max_bytes

-- The account does not look at the queue or at the workers' tasks.
pub Accounts-elsewhere :
    {q : ParseQueue} {held : List ParseTask} (items : List (Option ParseTask))
    (running : List ParseTask) (ids : List String) (changed capacity : Bool)
    → Accounts q held
    → Accounts
        (record q {
          queue = items;
          active = running;
          active_message_ids = ids;
          active_changed = changed;
          capacity_changed = capacity;
        })
        held
Accounts-elsewhere items running ids changed capacity a = record {
  owned = a.owned;
  unique = a.unique;
  counted = a.counted;
  bytes = a.bytes;
  messages_bound = a.messages_bound;
  bytes_bound = a.bytes_bound;
}

-- The reservations are those of the queued and the active tasks, and the set of active ids is
-- that of the active tasks.
pub record IsConsistent (q : ParseQueue) : Type 0 where
  pub accounts : Accounts q (tasks q.queue ++ q.active)
  pub actives : (k : String) → count k q.active_message_ids ≡ count_task k q.active

-- A held task can be released: no exception, and the account is right without it.
pub release-Accounts :
    (q : ParseQueue) (xs : List ParseTask) (task : ParseTask) (ys : List ParseTask)
    → Accounts q (xs ++ task ∷ ys)
    → (r : ParseQueue) × (release task q ≡ ok r)
      × Accounts r (xs ++ ys)
      × (r.queue ≡ q.queue)
      × (r.active ≡ q.active)
      × (r.active_message_ids ≡ q.active_message_ids)
unfolding release count_task total_bytes
release-Accounts q xs task ys a =
    let k = task.message_id in
    let self : (k == k) ≡ true = (eq_iff k k).1 refl in
    let split = λ (j : String). count_task-append j xs (task ∷ ys) in
    let weight = total_bytes-append xs (task ∷ ys) in
    let long = length-append xs (task ∷ ys) in
    let found : contains_id k q.reserved_message_ids ≡ true =
      (contains_id_iff k q.reserved_message_ids).1 (ground (arith, a.owned k, split k, self)) in
    let enough : (ltb q.reserved_messages 1 || ltb q.reserved_bytes task.raw_size_bytes) ≡ false =
      ground (arith, a.counted, a.bytes, weight, long) in
    (
      record q {
        reserved_message_ids = remove_id k q.reserved_message_ids;
        reserved_messages = q.reserved_messages - 1;
        reserved_bytes = q.reserved_bytes - task.raw_size_bytes;
        capacity_changed = true;
      },
      rw (found, enough),
      record {
        owned = λ j. ground (
          arith,
          count-remove_id k j q.reserved_message_ids,
          a.owned j,
          split j,
          count_task-append j xs ys,
        );
        unique = λ j. ground (arith, count-remove_id k j q.reserved_message_ids, a.unique j);
        counted = omega (arith, a.counted, long, length-append xs ys);
        bytes = omega (arith, a.bytes, weight, total_bytes-append xs ys);
        messages_bound = omega (arith, a.messages_bound);
        bytes_bound = omega (arith, a.bytes_bound);
      },
      refl,
      refl,
      refl,
    )

pub reserve-Accounts :
    (q : ParseQueue) (task : ParseTask)
    → IsConsistent q
    → contains_id task.message_id q.reserved_message_ids ≡ false
    → has_capacity task q ≡ true
    → Accounts (reserve task q) (tasks (reserve task q).queue ++ q.active)
unfolding count_task total_bytes tasks has_capacity
reserve-Accounts q task c fresh room =
    let k = task.message_id in
    let a = c.accounts in
    let old = tasks q.queue in
    let e = tasks-append q.queue (some task) in
    let none_yet : ¬ (0 < count k q.reserved_message_ids) =
      λ p. cc ((contains_id_iff k q.reserved_message_ids).1 p) in
    rw e (record {
      owned = λ j. ground (
        arith,
        count-add_id k j q.reserved_message_ids fresh,
        a.owned j,
        count_task-append j old q.active,
        count_task-append j (old ++ task ∷ []) q.active,
        count_task-append j old (task ∷ []),
      );
      unique = λ j.
          ground (arith, count-add_id k j q.reserved_message_ids fresh, a.unique j, eq_iff k j);
      counted = omega (
        arith,
        a.counted,
        length-append old q.active,
        length-append (old ++ task ∷ []) q.active,
        length-append old (task ∷ []),
      );
      bytes = omega (
        arith,
        a.bytes,
        total_bytes-append old q.active,
        total_bytes-append (old ++ task ∷ []) q.active,
        total_bytes-append old (task ∷ []),
      );
      messages_bound = ground arith;
      bytes_bound = ground arith;
    })

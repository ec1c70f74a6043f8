-- ===== src/ParseQueue/Steps.antt =====
-- The operations of the queue of app/ingest/queue.py keep its state consistent.
use rapid_inbox.Base.{
  ◌≡◌, refl, ap, subst, ◌∙◌, ◌⊎◌, inl, inr, Bool, true, false, Option, none, some, List, [], ◌∷◌,
  ◌++◌, append_assoc, append-nil, arith, any, length-append, Bool-cases, String, eq_iff,
}
use rapid_inbox.Base.Result.{ok}
use rapid_inbox.ParseQueue.Defs.{
  ParseTask, ParseQueue, contains_id, add_id, remove_id, validate_task, has_capacity, reserve,
  try_enqueue, Round, enqueue_round, discard_contents, run_take, run_finish, put_sentinel,
  wait_round,
}
use rapid_inbox.ParseQueue.Counting.{
  count, tasks, count_task, total_bytes, contains_id_iff, count-add_id, count-remove_id,
  tasks-append, count_task-append, total_bytes-append,
}
use rapid_inbox.ParseQueue.Keeps.{
  Accounts, Accounts-elsewhere, IsConsistent, release-Accounts, reserve-Accounts,
}

try_enqueue-cases :
    (task : ParseTask) (q r : ParseQueue) (b : Bool)
    → try_enqueue task q ≡ ok (r, b)
    → (r ≡ q) × (b ≡ false)
      ⊎ (r ≡ reserve task q)
        × (b ≡ true)
        × (contains_id task.message_id q.reserved_message_ids ≡ false)
        × (has_capacity task q ≡ true)
unfolding try_enqueue validate_task
try_enqueue-cases task q r b h = ground arith

pub try_enqueue-IsConsistent :
    (task : ParseTask) (q r : ParseQueue) (b : Bool)
    → IsConsistent q
    → try_enqueue task q ≡ ok (r, b)
    → IsConsistent r
try_enqueue-IsConsistent task q r b c e = elim (try_enqueue-cases task q r b e) [
  | inl (same, _) ↦ rw same c
  | inr (grown, _, fresh, room) ↦
      rw grown (record { accounts = reserve-Accounts q task c fresh room; actives = c.actives })
]

pub flag-IsConsistent :
    (q : ParseQueue) (changed capacity : Bool)
    → IsConsistent q
    → IsConsistent (record q { active_changed = changed; capacity_changed = capacity })
flag-IsConsistent q changed capacity c = record {
  accounts = Accounts-elsewhere q.queue q.active q.active_message_ids changed capacity c.accounts;
  actives = c.actives;
}

enqueue_round-cases :
    (task : ParseTask) (q r : ParseQueue) (o : Round)
    → enqueue_round task q ≡ ok (r, o)
    → (r ≡ q) ⊎ (r ≡ record q { capacity_changed = false }) ⊎ (try_enqueue task q ≡ ok (r, true))
unfolding enqueue_round try_enqueue validate_task
enqueue_round-cases task q r o h = ground arith

-- Moving a task from the queue to the worker keeps the account.
move-Accounts :
    (q : ParseQueue) (task : ParseTask) (pending : List ParseTask)
    → Accounts q ((task ∷ pending) ++ q.active)
    → Accounts q (pending ++ task ∷ q.active)
unfolding count_task total_bytes
move-Accounts q task pending a = record {
  owned = λ j. omega (
    arith,
    a.owned j,
    count_task-append j pending q.active,
    count_task-append j pending (task ∷ q.active),
  );
  unique = a.unique;
  counted =
      omega
        (arith, a.counted, length-append pending q.active, length-append pending (task ∷ q.active));
  bytes = omega (
    arith,
    a.bytes,
    total_bytes-append pending q.active,
    total_bytes-append pending (task ∷ q.active),
  );
  messages_bound = a.messages_bound;
  bytes_bound = a.bytes_bound;
}

not_active :
    (q : ParseQueue) (task : ParseTask) (pending : List ParseTask)
    → Accounts q ((task ∷ pending) ++ q.active)
    → ((k : String) → count k q.active_message_ids ≡ count_task k q.active)
    → contains_id task.message_id q.active_message_ids ≡ false
unfolding count_task
not_active q task pending a actives =
    let k = task.message_id in
    ground (
      arith,
      contains_id_iff k q.active_message_ids,
      actives k,
      a.owned k,
      a.unique k,
      count_task-append k pending q.active,
      eq_iff k k,
    )

pub run_take-IsConsistent :
    (q : ParseQueue) (items : List (Option ParseTask))
    → q.queue ≡ items
    → IsConsistent q
    → IsConsistent (run_take q items)
unfolding run_take
run_take-IsConsistent q [] e c = c
run_take-IsConsistent q (none ∷ pending) e c =
    let a : Accounts q (tasks pending ++ q.active) =
      (unfold tasks in subst (λ items. Accounts q (tasks items ++ q.active)) e c.accounts) in
    record {
      accounts =
          Accounts-elsewhere pending q.active q.active_message_ids q.active_changed
            q.capacity_changed a;
      actives = c.actives;
    }
run_take-IsConsistent q (some task ∷ pending) e c =
    let a : Accounts q ((task ∷ tasks pending) ++ q.active) =
      (unfold tasks in subst (λ items. Accounts q (tasks items ++ q.active)) e c.accounts) in
    let fresh = not_active q task (tasks pending) a c.actives in
    record {
      accounts =
          Accounts-elsewhere pending (task ∷ q.active) (add_id task.message_id q.active_message_ids)
            q.active_changed q.capacity_changed (move-Accounts q task (tasks pending) a);
      actives = λ j.
          unfold count_task in
          omega (arith, count-add_id task.message_id j q.active_message_ids fresh, c.actives j);
    }

pub discard-IsConsistent :
    (items : List (Option ParseTask)) (q : ParseQueue)
    → Accounts q (tasks items ++ q.active)
    → (r : ParseQueue) × (discard_contents items q ≡ ok r)
      × Accounts r r.active
      × (r.queue ≡ [])
      × (r.active ≡ q.active)
      × (r.active_message_ids ≡ q.active_message_ids)
unfolding discard_contents tasks
discard-IsConsistent [] q a = (
  record q { queue = [] },
  refl,
  Accounts-elsewhere [] q.active q.active_message_ids q.active_changed q.capacity_changed a,
  refl,
  refl,
  refl,
)
discard-IsConsistent (none ∷ pending) q a =
    discard-IsConsistent pending (record q { queue = pending })
      (Accounts-elsewhere pending q.active q.active_message_ids q.active_changed q.capacity_changed
        a)
discard-IsConsistent (some task ∷ pending) q a =
    let (q', freed, b, _, sa, si) =
      release-Accounts (record q { queue = pending }) [] task (tasks pending ++ q.active)
        (Accounts-elsewhere pending q.active q.active_message_ids q.active_changed
          q.capacity_changed a) in
    let (r, ran, d, e, ra, ri) = discard-IsConsistent pending q' (rw sa b) in
    (r, rw freed ran, d, e, ra ∙ sa, ri ∙ si)

pub finish-IsConsistent :
    (xs : List ParseTask) (task : ParseTask) (ys : List ParseTask) (q : ParseQueue)
    → q.active ≡ xs ++ task ∷ ys
    → IsConsistent q
    → (r : ParseQueue) × (run_finish task (xs ++ ys) q ≡ ok r) × IsConsistent r
unfolding run_finish
finish-IsConsistent xs task ys q e c =
    let v : ParseQueue = record q {
      active = xs ++ ys;
      active_message_ids = remove_id task.message_id q.active_message_ids;
      active_changed = true;
    } in
    let split : Accounts q ((tasks q.queue ++ xs) ++ task ∷ ys) =
      rw (append_assoc (tasks q.queue) xs (task ∷ ys), ← e) c.accounts in
    let (r, freed, a, same, sa, si) = release-Accounts v (tasks q.queue ++ xs) task ys (
      Accounts-elsewhere q.queue (xs ++ ys) (remove_id task.message_id q.active_message_ids) true
        q.capacity_changed split) in
    (
      r,
      freed,
      record {
        accounts = rw (same, sa, ← append_assoc (tasks q.queue) xs ys) a;
        actives = λ j.
            rw (sa, si)
              (unfold count_task in
                omega (
                  arith,
                  count-remove_id task.message_id j q.active_message_ids,
                  c.actives j,
                  ap (count_task j) e,
                  count_task-append j xs (task ∷ ys),
                  count_task-append j xs ys,
                ));
      },
    )

pub enqueue_round-IsConsistent :
    (task : ParseTask) (q r : ParseQueue) (o : Round)
    → IsConsistent q
    → enqueue_round task q ≡ ok (r, o)
    → IsConsistent r
enqueue_round-IsConsistent task q r o c e = elim (enqueue_round-cases task q r o e) [
  | inl same ↦ rw same c
  | inr (inl cleared) ↦ rw cleared (flag-IsConsistent q q.active_changed false c)
  | inr (inr tried) ↦ try_enqueue-IsConsistent task q r true c tried
]

pub wait_round-IsConsistent :
    (predicate : String → Bool) (q : ParseQueue)
    → IsConsistent q
    → IsConsistent (wait_round predicate q).0
unfolding wait_round
wait_round-IsConsistent predicate q c = elim (Bool-cases (any predicate q.active_message_ids)) [
  | inl busy ↦ rw busy (flag-IsConsistent q false q.capacity_changed c)
  | inr calm ↦ rw calm c
]

pub put_sentinel-IsConsistent : (q : ParseQueue) → IsConsistent q → IsConsistent (put_sentinel q)
unfolding put_sentinel tasks
put_sentinel-IsConsistent q c = record {
  accounts =
      rw (tasks-append, append-nil)
        (Accounts-elsewhere (q.queue ++ none ∷ []) q.active q.active_message_ids q.active_changed
          q.capacity_changed c.accounts);
  actives = c.actives;
}

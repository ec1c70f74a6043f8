-- ===== src/ParseQueue/Removal.antt =====
-- `remove_pending` of app/ingest/queue.py keeps exactly what the predicate does not select.
use rapid_inbox.Base.{
  ℕ, ◌+◌, ◌≡◌, refl, sym, ap, ◌∙◌, inl, inr, Bool, true, Option, none, some, List, [], ◌∷◌, ◌++◌,
  append_assoc, append-nil, arith, if◌then◌else◌, Bool-cases,
}
use rapid_inbox.Base.Result.{ok}
use rapid_inbox.ParseQueue.Defs.{ParseTask, ParseQueue, release, remove_loop, remove_pending}
use rapid_inbox.ParseQueue.Counting.{tasks, tasks-append}
use rapid_inbox.ParseQueue.Keeps.{Accounts-elsewhere, Accounts, IsConsistent, release-Accounts}

-- What the predicate leaves of a queue, sentinels included, in order.
unfoldable pub kept : (ParseTask → Bool) → List (Option ParseTask) → List (Option ParseTask)
kept predicate [] = []
kept predicate (none ∷ items) = none ∷ kept predicate items
kept predicate (some task ∷ items) =
    if predicate task then kept predicate items else some task ∷ kept predicate items

unfoldable pub selected : (ParseTask → Bool) → List (Option ParseTask) → ℕ
selected predicate [] = 0
selected predicate (none ∷ items) = selected predicate items
selected predicate (some task ∷ items) =
    (if predicate task then 1 else 0) + selected predicate items

-- The result of the loop: what it has retained and will retain, and what it has cleared.
pub record Removed (predicate : ParseTask → Bool) (pending retained : List (Option ParseTask))
    (cleared : ℕ) (q : ParseQueue) (r : ParseQueue) (n : ℕ) : Type 0 where
  pub ran : remove_loop predicate pending retained cleared q ≡ ok (r, n)
  pub queue_left : r.queue ≡ retained ++ kept predicate pending
  pub number : n ≡ cleared + selected predicate pending
  pub accounts : Accounts r (tasks (retained ++ kept predicate pending) ++ q.active)
  pub same_active : (r.active ≡ q.active) × (r.active_message_ids ≡ q.active_message_ids)

tasks-append_lists : (xs ys : List (Option ParseTask)) → tasks (xs ++ ys) ≡ tasks xs ++ tasks ys
unfolding tasks
tasks-append_lists [] ys = refl
tasks-append_lists (none ∷ xs) ys = tasks-append_lists xs ys
tasks-append_lists (some task ∷ xs) ys = ap (λ ts. task ∷ ts) (tasks-append_lists xs ys)

-- The three ways of one round.
end-Removed :
    (predicate : ParseTask → Bool) (retained : List (Option ParseTask)) (cleared : ℕ)
    (q : ParseQueue)
    → Accounts q (tasks retained ++ q.active)
    → Removed predicate [] retained cleared q (record q { queue = retained }) cleared
unfolding remove_loop kept selected
end-Removed predicate retained cleared q a = record {
  ran = refl;
  queue_left = sym (append-nil retained);
  number = omega arith;
  accounts = rw append-nil (
      Accounts-elsewhere retained q.active q.active_message_ids q.active_changed q.capacity_changed
        a);
  same_active = (refl, refl);
}

keep-Removed :
    (predicate : ParseTask → Bool) (x : Option ParseTask)
    (pending retained : List (Option ParseTask)) (cleared : ℕ) (q r : ParseQueue) (n : ℕ)
    → (remove_loop predicate (x ∷ pending) retained cleared q
        ≡ remove_loop predicate pending (retained ++ x ∷ []) cleared q)
    → (kept predicate (x ∷ pending) ≡ x ∷ kept predicate pending)
    → (selected predicate (x ∷ pending) ≡ selected predicate pending)
    → Removed predicate pending (retained ++ x ∷ []) cleared q r n
    → Removed predicate (x ∷ pending) retained cleared q r n
keep-Removed predicate x pending retained cleared q r n step k s d =
    let e : (retained ++ x ∷ []) ++ kept predicate pending
        ≡ retained ++ kept predicate (x ∷ pending) =
      rw k (append_assoc retained (x ∷ []) (kept predicate pending)) in
    record {
      ran = step ∙ d.ran;
      queue_left = d.queue_left ∙ e;
      number = omega (arith, d.number, s);
      accounts = rw e at d.accounts;
      same_active = d.same_active;
    }

drop-Removed :
    (predicate : ParseTask → Bool) (task : ParseTask) (pending retained : List (Option ParseTask))
    (cleared : ℕ) (q q' r : ParseQueue) (n : ℕ)
    → predicate task ≡ true
    → release task (record q { queue = pending }) ≡ ok q'
    → (q'.active ≡ q.active) × (q'.active_message_ids ≡ q.active_message_ids)
    → Removed predicate pending retained (cleared + 1) q' r n
    → Removed predicate (some task ∷ pending) retained cleared q r n
unfolding remove_loop kept selected
drop-Removed predicate task pending retained cleared q q' r n chosen freed (sa, si) d = record {
  ran = rw (chosen, freed) d.ran;
  queue_left = rw chosen d.queue_left;
  number = rw chosen (omega (arith, d.number));
  accounts = rw (chosen, ← sa) d.accounts;
  same_active = (d.same_active.0 ∙ sa, d.same_active.1 ∙ si);
}

tasks-keep :
    (x : Option ParseTask) (pending retained : List (Option ParseTask)) (rest : List ParseTask)
    → tasks (retained ++ x ∷ []) ++ (tasks pending ++ rest)
      ≡ tasks retained ++ (tasks (x ∷ pending) ++ rest)
unfolding tasks
tasks-keep none pending retained rest = simp (tasks-append, append-nil)
tasks-keep (some task) pending retained rest = simp (tasks-append, append_assoc)

pub remove_loop-Removed :
    (predicate : ParseTask → Bool) (pending retained : List (Option ParseTask)) (cleared : ℕ)
    (q : ParseQueue)
    → Accounts q (tasks retained ++ (tasks pending ++ q.active))
    → (r : ParseQueue) × (n : ℕ) × Removed predicate pending retained cleared q r n
unfolding tasks
remove_loop-Removed predicate [] retained cleared q a =
    (record q { queue = retained }, cleared, end-Removed predicate retained cleared q a)
remove_loop-Removed predicate (none ∷ pending) retained cleared q a =
    let (r, n, d) =
      remove_loop-Removed predicate pending (retained ++ none ∷ []) cleared q
        (rw (tasks-keep none pending retained q.active) a) in
    (
      r,
      n,
      keep-Removed predicate none pending retained cleared q r n (unfold remove_loop in refl)
          (unfold kept in refl) (unfold selected in refl) d,
    )
remove_loop-Removed predicate (some task ∷ pending) retained cleared q a =
    elim (Bool-cases (predicate task)) [
      | inl chosen ↦
          let v : ParseQueue = record q { queue = pending } in
          let (q', freed, b, _, sa, si) =
            release-Accounts v (tasks retained) task (tasks pending ++ q.active) (
              Accounts-elsewhere pending q.active q.active_message_ids q.active_changed
                q.capacity_changed a) in
          let (r, n, d) =
            remove_loop-Removed predicate pending retained (cleared + 1) q' (rw sa b) in
          (
            r,
            n,
            drop-Removed predicate task pending retained cleared q q' r n chosen freed (sa, si) d,
          )
      | inr other ↦
          let (r, n, d) =
            remove_loop-Removed predicate pending (retained ++ some task ∷ []) cleared q
              (rw (tasks-keep (some task) pending retained q.active) a) in
          (
            r,
            n,
            keep-Removed predicate (some task) pending retained cleared q r n
                (unfold remove_loop in rw other) (unfold kept in rw other)
                (unfold selected in rw other (omega arith)) d,
          )
    ]

-- From a consistent queue remove_pending never raises: it leaves exactly the tasks that the
-- predicate does not select and the stop sentinels, in order, returns how many it removed, and
-- the reservations are consistent again.
pub remove_pending-kept :
    (predicate : ParseTask → Bool) (q : ParseQueue)
    → IsConsistent q
    → (r : ParseQueue) × (remove_pending predicate q ≡ ok (r, selected predicate q.queue))
      × (r.queue ≡ kept predicate q.queue)
      × (r.active ≡ q.active)
      × IsConsistent r
unfolding remove_pending tasks
remove_pending-kept predicate q c =
    let (r, n, d) = remove_loop-Removed predicate q.queue [] 0 q c.accounts in
    let e : n ≡ selected predicate q.queue = omega (arith, d.number) in
    (
      r,
      rw (← e) d.ran,
      d.queue_left,
      d.same_active.0,
      record {
        accounts = rw (d.queue_left, d.same_active.0) d.accounts;
        actives = rw (d.same_active.0, d.same_active.1) c.actives;
      },
    )

-- ===== src/ParseQueue/Counting.antt =====
-- Counting ids and bytes in the queue of app/ingest/queue.py.
use rapid_inbox.Base.{
  ℕ, ◌+◌, ◌-◌, ◌<◌, ◌≡◌, refl, ap, ◌↔◌, true, false, Option, none, some, List, [], ◌∷◌, ◌++◌, arith,
  if◌then◌else◌, String, ◌==◌, eq_iff,
}
use rapid_inbox.ParseQueue.Defs.{ParseTask, contains_id, add_id, remove_id}

-- How often an id stands in a list of ids.
unfoldable pub count : String → List String → ℕ
count k [] = 0
count k (j ∷ ids) = (if j == k then 1 else 0) + count k ids

-- What lies in the queue, sentinels aside.
unfoldable pub tasks : List (Option ParseTask) → List ParseTask
tasks [] = []
tasks (none ∷ items) = tasks items
tasks (some task ∷ items) = task ∷ tasks items

unfoldable pub count_task : String → List ParseTask → ℕ
count_task k [] = 0
count_task k (task ∷ rest) = (if task.message_id == k then 1 else 0) + count_task k rest

unfoldable pub total_bytes : List ParseTask → ℕ
total_bytes [] = 0
total_bytes (task ∷ rest) = task.raw_size_bytes + total_bytes rest

pub contains_id_iff :
    (k : String) (ids : List String) → (contains_id k ids ≡ true) ↔ (0 < count k ids)
unfolding contains_id count
contains_id_iff k [] = ground arith
contains_id_iff k (j ∷ ids) = ground (arith, contains_id_iff k ids)

pub count-add_id :
    (k j : String) (ids : List String)
    → contains_id k ids ≡ false
    → count j (add_id k ids) ≡ (if k == j then 1 else 0) + count j ids
unfolding add_id count
count-add_id k j ids h = ground arith

pub count-remove_id :
    (k j : String) (ids : List String)
    → count j (remove_id k ids) ≡ count j ids - (if k == j then 1 else 0)
unfolding remove_id count
count-remove_id k j [] = ground arith
count-remove_id k j (i ∷ ids) =
    ground (arith, count-remove_id k j ids, eq_iff i k, eq_iff i j, eq_iff k j)

pub tasks-append :
    (items : List (Option ParseTask)) (x : Option ParseTask)
    → tasks (items ++ x ∷ []) ≡ tasks items ++ tasks (x ∷ [])
unfolding tasks
tasks-append [] x = refl
tasks-append (none ∷ items) x = tasks-append items x
tasks-append (some task ∷ items) x = ap (λ ts. task ∷ ts) (tasks-append items x)

pub count_task-append :
    (k : String) (xs ys : List ParseTask)
    → count_task k (xs ++ ys) ≡ count_task k xs + count_task k ys
unfolding count_task
count_task-append k [] ys = omega arith
count_task-append k (x ∷ xs) ys = omega (arith, count_task-append k xs ys)

pub total_bytes-append :
    (xs ys : List ParseTask) → total_bytes (xs ++ ys) ≡ total_bytes xs + total_bytes ys
unfolding total_bytes
total_bytes-append [] ys = omega arith
total_bytes-append (x ∷ xs) ys = omega (arith, total_bytes-append xs ys)

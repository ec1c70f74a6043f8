-- ===== src/ParseQueue/Tests.antt =====
-- Runs of the parse queue's model, and its theorems at concrete inputs.
use rapid_inbox.Base.{◌⊎◌, ℕ, ◌≡◌, refl, Bool, true, false, some, [], ◌∷◌, ◌++◌, ltb, String, ◌==◌}
use rapid_inbox.Base.Result.{ok}
use rapid_inbox.ParseQueue.Defs.{
  ParseTask, ParseQueue, new_queue, contains_id, add_id, remove_id, validate_task, has_capacity,
  reserve, try_enqueue, waits, enqueue_round, release, remove_loop, remove_pending,
  discard_contents, run_take, run_finish, put_sentinel,
}
use rapid_inbox.ParseQueue.Counting.{count, tasks, count_task, total_bytes}
use rapid_inbox.ParseQueue.Keeps.{Accounts, IsConsistent}
use rapid_inbox.ParseQueue.Removal.{kept, selected, remove_pending-kept}
use rapid_inbox.ParseQueue.Reach.{
  tries, takes, Reach, created, and_then, Reach-IsConsistent, run_finish_succeeds,
  discard_contents_succeeds, HasRoom, try_enqueue_exact,
}

machine : Unit {0}
unfolding try_enqueue enqueue_round validate_task has_capacity contains_id add_id remove_id release
    remove_pending remove_loop discard_contents run_take run_finish put_sentinel count tasks
    count_task total_bytes kept selected
machine = tt

abbrev task : String → ℕ → ParseTask
task k n = record { message_id = k; raw_size_bytes = n }

abbrev first_task : ParseTask
first_task = task "m1" 10

abbrev second_task : ParseTask
second_task = task "m2" 5

abbrev q0 : ParseQueue
q0 = new_queue 2 20

abbrev q1 : ParseQueue
q1 = reserve first_task q0

abbrev q2 : ParseQueue
q2 = reserve second_task q1

tried : (try_enqueue first_task q0 ≡ ok (q1, true)) × (try_enqueue second_task q1 ≡ ok (q2, true))
unfolding machine
tried = (refl, refl)

-- A duplicate, and a third message, are refused.
refusals :
    (try_enqueue (task "m1" 1) q2 ≡ ok (q2, false))
    × (try_enqueue (task "m3" 1) q2 ≡ ok (q2, false))
unfolding machine
refusals = (refl, refl)

waits_full : enqueue_round (task "m3" 1) q2 ≡ ok (record q2 { capacity_changed = false }, waits)
unfolding machine
waits_full = refl

abbrev q3 : ParseQueue
q3 = run_take q2 q2.queue

reach2 : Reach q0 q2
reach2 =
    and_then (and_then created (tries first_task q0 q1 true tried.0))
      (tries second_task q1 q2 true tried.1)

reach3 : Reach q0 q3
reach3 = and_then reach2 (takes q2)

q3_active : q3.active ≡ first_task ∷ []
unfolding machine
q3_active = refl

Reach-IsConsistent_example : IsConsistent q3
Reach-IsConsistent_example = Reach-IsConsistent 2 20 q3 reach3

run_finish_succeeds_example :
    (r : ParseQueue) × (run_finish first_task ([] ++ []) q3 ≡ ok r) × IsConsistent r
run_finish_succeeds_example = run_finish_succeeds 2 20 q3 [] first_task [] reach3 q3_active

discard_contents_succeeds_example :
    (r : ParseQueue) × (discard_contents q3.queue q3 ≡ ok r) × Accounts r q3.active × (r.queue ≡ [])
discard_contents_succeeds_example = discard_contents_succeeds 2 20 q3 reach3

q2-IsConsistent : IsConsistent q2
q2-IsConsistent = Reach-IsConsistent 2 20 q2 reach2

abbrev is_small : ParseTask → Bool
is_small t = ltb t.raw_size_bytes 6

remove_pending-kept_example :
    (r : ParseQueue) × (remove_pending is_small q2 ≡ ok (r, selected is_small q2.queue))
    × (r.queue ≡ kept is_small q2.queue)
    × (r.active ≡ q2.active)
    × IsConsistent r
remove_pending-kept_example = remove_pending-kept is_small q2 q2-IsConsistent

kept_small : (kept is_small q2.queue ≡ some first_task ∷ []) × (selected is_small q2.queue ≡ 1)
unfolding machine
kept_small = (refl, refl)

third_named : ((task "m3" 9).message_id == "") ≡ false
third_named = refl

try_enqueue_exact_example :
    (r : ParseQueue) × (b : Bool) × (try_enqueue (task "m3" 9) q2 ≡ ok (r, b))
    × ((b ≡ true) × HasRoom (task "m3" 9) q2 × (r.queue ≡ q2.queue ++ some (task "m3" 9) ∷ [])
        ⊎ (b ≡ false) × ¬ HasRoom (task "m3" 9) q2 × (r ≡ q2))
try_enqueue_exact_example = try_enqueue_exact (task "m3" 9) q2 q2-IsConsistent third_named

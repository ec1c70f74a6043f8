-- ===== src/Writer/Tests.antt =====
-- Runs of the writer's model, and its theorems at concrete inputs.
use rapid_inbox.Base.{suc, ◌<◌, ◌≡◌, refl, ◌≢◌, ◌⊎◌, true, none, some, [], ◌∷◌, ◌++◌, arith}
use rapid_inbox.Writer.Admission.{
  opened, closing, closed, granted, request, idle, running, exited, closed_error, Writer,
  new_writer, grant_from, grant_waiters, drop_inactive, waiting_count, reject_all, prepare_stop,
  release_capacity, cancel_state, cancel_admission,
}
use rapid_inbox.Writer.Actor.{
  ensure_worker_started, admit, acquire_capacity, resume_waiter, submit, put_stop, close, take_item,
  finish_request,
}
use rapid_inbox.Writer.Counts.{count_granted, requests, stops}
use rapid_inbox.Writer.Steps.{
  is_live, acquire, submits, closes, takes, finishes, Reach, created, and_then, IsSound,
}
use rapid_inbox.Writer.Reach.{Reach-IsSound}
use rapid_inbox.Writer.Service.{submit_total, serve, work_left, shutdown_ends}

machine : Unit {0}
unfolding acquire_capacity ensure_worker_started admit grant_waiters grant_from drop_inactive
    waiting_count submit release_capacity prepare_stop close reject_all take_item finish_request
    put_stop resume_waiter cancel_admission cancel_state count_granted requests stops serve
machine = tt

-- Capacity one: a caller holds the slot, a second one waits, the first submits, the worker runs it.
abbrev w0 : Writer
w0 = new_writer 1 2

abbrev w1 : Writer
w1 = (acquire_capacity true w0).0

abbrev w2 : Writer
w2 = (acquire_capacity true w1).0

abbrev w3 : Writer
w3 = (submit 7 w2).0

abbrev w4 : Writer
w4 = take_item w3 w3.queue

abbrev w5 : Writer
w5 = finish_request w4

w1_holds : 0 < w1.in_hand
unfolding machine
w1_holds = omega arith

w2_holds : 0 < w2.in_hand
unfolding machine
w2_holds = omega arith

w3_idle : w3.worker ≡ idle
unfolding machine
w3_idle = refl

w4_running : w4.worker ≡ running 7
unfolding machine
w4_running = refl

reach2 : Reach true w0 w2
reach2 = and_then (and_then created (acquire true w0)) (acquire true w1)

reach5 : Reach true w0 w5
reach5 =
    and_then (and_then (and_then reach2 (submits 7 w2 w2_holds)) (takes w3 w3_idle))
      (finishes 7 w4 w4_running)

-- The waiter got the slot that the finished request gave back.
w5_granted : (w5.outstanding ≡ 1) × (w5.store ≡ granted ∷ []) × (w5.admission_waiters ≡ [])
unfolding machine
w5_granted = (refl, refl, refl)

Reach-IsSound_example : IsSound w5
Reach-IsSound_example = Reach-IsSound 1 2 w5 (omega arith) reach5

submit_total_example :
    (w2.state ≡ opened)
      × ((submit 7 w2).1 ≡ none)
      × ((submit 7 w2).0.queue ≡ w2.queue ++ request 7 ∷ [])
    ⊎ (w2.state ≢ opened)
      × ((submit 7 w2).1 ≡ some closed_error)
      × ((submit 7 w2).0.queue ≡ w2.queue)
      × (suc (submit 7 w2).0.outstanding ≡ w2.outstanding)
submit_total_example = submit_total 1 2 7 w2 (omega arith) reach2 w2_holds

-- `close` while a request is queued and a caller waits.
abbrev w6 : Writer
w6 = close w3

reach6 : Reach true w0 w6
reach6 = and_then (and_then reach2 (submits 7 w2 w2_holds)) (closes w3)

w6_draining :
    (w6.state ≡ closing)
    × (w6.in_hand ≡ 0)
    × (count_granted w6.store ≡ 0)
    × (is_live w6.worker ≡ true)
    × (work_left w6 ≡ 3)
unfolding machine
w6_draining = (refl, refl, refl, refl, refl)

w6_fuel : work_left w6 < 4
w6_fuel = omega (arith, w6_draining.4)

shutdown_ends_example :
    ((serve 4 w6).worker ≡ exited)
    × ((serve 4 w6).state ≡ closed)
    × (requests (serve 4 w6).queue ≡ 0)
shutdown_ends_example =
    shutdown_ends 1 2 4 w6 (omega arith) reach6 w6_draining.0 w6_draining.1 w6_draining.2
      w6_draining.3 w6_fuel

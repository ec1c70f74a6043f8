-- ===== src/Pool/Tests.antt =====
-- Runs of the read pool's model, and its theorems at concrete inputs.
use rapid_inbox.Base.{
  inl, ◌⊎◌, ℕ, ◌<◌, ◌≡◌, refl, ◌≢◌, Bool, true, false, Option, none, some, [], ◌∷◌, All, arith,
  get_elem?,
}
use rapid_inbox.Pool.State.{
  starting, Pool, PoolWorker, paused, closed, read, pause, stop, idle, running, acking, exited,
  new_pool, put_all, advance_lifecycle, grant_waiters, release_capacity, cancel_state,
  cancel_admission, make_pool,
}
use rapid_inbox.Base.Result.{ok, err}
use rapid_inbox.Writer.Admission.{grant_from, drop_inactive, waiting_count, reject_all}
use rapid_inbox.Writer.Counts.{count_granted}
use rapid_inbox.Pool.Actor.{
  begin_start, finish_start, admit, acquire_capacity, submit, pause_and_drain, close, take_item,
  acknowledge_pause, finish_request, begin_worker_failure, put_others, set_worker,
}
use rapid_inbox.Pool.Sums.{reads, Parked}
use rapid_inbox.Pool.Steps.{
  begins_start, finishes_start, acquires, submits, pauses, closes, takes, acknowledges, finishes,
  Reach, created, and_then, IsHealthy,
}
use rapid_inbox.Pool.Reach.{
  Reach-IsHealthy, paused-IsExclusive, release-never_underflows, exited-leaves_nothing,
}
use rapid_inbox.Pool.Request.{
  Identity, Slot, sqlite_error, Opening, uninterrupted, Trial, escaped, retried, try_open,
  open_current_database, run_request,
}
use rapid_inbox.Pool.Resolve.{run_request-reaches_end, run_request-escapes}

machine : Unit {0}
unfolding begin_start finish_start acquire_capacity admit grant_waiters grant_from drop_inactive
    waiting_count submit release_capacity advance_lifecycle put_all pause_and_drain close reject_all
    take_item finish_request acknowledge_pause begin_worker_failure put_others cancel_admission
    cancel_state count_granted make_pool
machine = tt

make_pool_rejects : make_pool 4 2 1 5 ≡ none
unfolding machine
make_pool_rejects = refl

-- One worker: a read is admitted and dispatched, maintenance asks for a pause, the worker finishes
-- its read, takes the control and acknowledges it.
abbrev p0 : Pool
p0 = new_pool 1 1 1

abbrev p0s : Pool
p0s = (begin_start p0).0

abbrev p1 : Pool
p1 = finish_start p0s

abbrev p2 : Pool
p2 = (acquire_capacity p1).0

abbrev p3 : Pool
p3 = (submit 7 p2).0

abbrev p4 : Pool
p4 = (pause_and_drain p3).0

abbrev u4 : PoolWorker
u4 = record { queue = read 7 ∷ []; connection_open = false; job = idle }

abbrev p5 : Pool
p5 = take_item 0 u4 u4.queue p4

abbrev u5 : PoolWorker
u5 = record { queue = []; connection_open = false; job = running 7 }

abbrev p6 : Pool
p6 = finish_request true 0 u5 p5

abbrev u6 : PoolWorker
u6 = record { queue = pause ∷ []; connection_open = true; job = idle }

abbrev p7 : Pool
p7 = take_item 0 u6 u6.queue p6

abbrev u7 : PoolWorker
u7 = record { queue = []; connection_open = false; job = acking }

abbrev p8 : Pool
p8 = acknowledge_pause 0 u7 p7

p0s_starting : (p0s.state ≡ starting) ⊎ (true ≡ false)
unfolding machine
p0s_starting = inl refl

p2_holds : 0 < p2.in_hand
unfolding machine
p2_holds = omega arith

p4_worker : get_elem? p4.workers 0 ≡ some u4
unfolding machine
p4_worker = refl

p5_worker : get_elem? p5.workers 0 ≡ some u5
unfolding machine
p5_worker = refl

p6_worker : get_elem? p6.workers 0 ≡ some u6
unfolding machine
p6_worker = refl

p7_worker : get_elem? p7.workers 0 ≡ some u7
unfolding machine
p7_worker = refl

p8_paused : p8.state ≡ paused
unfolding machine
p8_paused = refl

reach5 : Reach true p0 p5
reach5 =
    and_then
      (and_then
        (and_then
          (and_then
            (and_then (and_then created (begins_start p0)) (finishes_start p0s p0s_starting))
            (acquires p1))
          (submits 7 p2 p2_holds))
        (pauses p3))
      (takes 0 u4 p4 p4_worker refl)

reach8 : Reach true p0 p8
reach8 =
    and_then
      (and_then (and_then reach5 (finishes true 7 0 u5 p5 p5_worker refl))
        (takes 0 u6 p6 p6_worker refl))
      (acknowledges 0 u7 p7 p7_worker refl)

Reach-IsHealthy_example : IsHealthy p8
Reach-IsHealthy_example = Reach-IsHealthy 1 1 1 p8 (omega arith) (omega arith) reach8

paused-IsExclusive_example :
    (p8.in_hand ≡ 0)
    × (count_granted p8.store ≡ 0)
    × (waiting_count p8.store p8.admission_waiters ≡ 0)
    × All Parked p8.workers
paused-IsExclusive_example =
    paused-IsExclusive 1 1 1 p8 (omega arith) (omega arith) reach8 p8_paused

p5_release :
    (q : Pool) × (release_capacity
        (set_worker 0 (record u5 { connection_open = true; job = idle }) p5)
      ≡ some q)
p5_release =
    release-never_underflows 1 1 1 p5 true 7 0 u5 (omega arith) (omega arith) reach5 p5_worker refl

-- The pool closes with nothing out: the worker takes the sentinel and exits.
abbrev c2 : Pool
c2 = close p1

abbrev v2 : PoolWorker
v2 = record { queue = stop ∷ []; connection_open = false; job = idle }

abbrev c3 : Pool
c3 = take_item 0 v2 v2.queue c2

abbrev v3 : PoolWorker
v3 = record { queue = []; connection_open = false; job = exited }

c2_worker : get_elem? c2.workers 0 ≡ some v2
unfolding machine
c2_worker = refl

c3_worker : get_elem? c3.workers 0 ≡ some v3
unfolding machine
c3_worker = refl

c3_closed : c3.state ≡ closed
unfolding machine
c3_closed = refl

reach3 : Reach true p0 c3
reach3 =
    and_then
      (and_then (and_then (and_then created (begins_start p0)) (finishes_start p0s p0s_starting))
        (closes p1))
      (takes 0 v2 c2 c2_worker refl)

exited-leaves_nothing_example : reads v3.queue ≡ 0
exited-leaves_nothing_example =
    exited-leaves_nothing 1 1 1 c3 0 v3 (omega arith) (omega arith) reach3 c3_worker refl

-- The database was replaced and cannot be opened again.
abbrev here : Identity
here = record { device = 1; inode = 10 }

abbrev there : Identity
there = record { device = 1; inode = 11 }

abbrev refusal : Opening ℕ
refusal = record {
  raises = some (sqlite_error 14);
  actual = some there;
  expected_again = some there;
}

abbrev in_transaction : Bool → Option Bool
in_transaction true = some false
in_transaction false = none

abbrev replaced_trial : Bool → Trial ℕ ℕ
replaced_trial is_cancelled = record {
  cancelled_first = false;
  late_first = false;
  identity_before = some there;
  first = refusal;
  second = refusal;
  operation = ok 5;
  rollback_raises = none;
  identity_after = some there;
  interruption = uninterrupted;
  cancelled_after = is_cancelled;
  late_after = false;
  in_transaction = in_transaction;
  recovery_fails = false;
}

abbrev old_slot : Slot
old_slot = record { identity = here; is_open = true }

refused_open : open_current_database refusal refusal there ≡ err (sqlite_error 14)
unfolding open_current_database try_open
refused_open = refl

run_request-escapes_example :
    run_request (replaced_trial true) (replaced_trial false) (some old_slot) ≡ escaped
run_request-escapes_example =
    run_request-escapes (replaced_trial true) (replaced_trial false) old_slot there
      (sqlite_error 14) refl refl refl refl refused_open refl refl refl

run_request-reaches_end_example :
    run_request (replaced_trial false) (replaced_trial false) (some old_slot) ≢ retried none
run_request-reaches_end_example =
    run_request-reaches_end (replaced_trial false) (replaced_trial false) (some old_slot) none

-- ===== src/Pool/Interrupted.antt =====
-- The read pool of app/db/read_pool.py when `close` comes between the two locked sections of `start`.
use rapid_inbox.Base.{ℕ, suc, ◌<◌, ◌≡◌, refl, inr, false, some, [], ◌∷◌, arith, get_elem?}
use rapid_inbox.Writer.Admission.{drop_inactive, reject_all}
use rapid_inbox.Pool.State.{
  stop, read, exited, idle, Pool, PoolWorker, new_pool, put_all, advance_lifecycle,
}
use rapid_inbox.Pool.Actor.{
  begin_start, finish_start, close, take_item, acquire_capacity, admit, submit,
}
use rapid_inbox.Pool.Sums.{reads}
use rapid_inbox.Pool.Steps.{
  begins_start, finishes_start, closes, takes, acquires, submits, Reach, created, and_then,
}

run : Unit {0}
unfolding begin_start finish_start close take_item acquire_capacity admit submit put_all
    advance_lifecycle drop_inactive reject_all reads
run = tt

module _ (others capacity waiters r : ℕ) where
  abbrev started : Pool
  started = (begin_start (new_pool (suc others) capacity waiters)).0

  abbrev told : PoolWorker
  told = record { queue = stop ∷ []; connection_open = false; job = idle }

  abbrev shut : Pool
  shut = close started

  abbrev left : Pool
  left = take_item 0 told told.queue shut

  abbrev reopened : Pool
  reopened = finish_start left

  abbrev admitting : Pool
  admitting = (acquire_capacity reopened).0

  abbrev dispatched : Pool
  dispatched = (submit r admitting).0

  shut_told : get_elem? shut.workers 0 ≡ some told
  unfolding run
  shut_told = refl

  admitting_holds : 0 < capacity → 0 < admitting.in_hand
  unfolding run
  admitting_holds n = ground arith

  abbrev lost : PoolWorker
  lost = record { queue = read r ∷ []; connection_open = false; job = exited }

  dispatched_lost : 0 < capacity → get_elem? dispatched.workers 0 ≡ some lost
  unfolding run
  dispatched_lost n = ground arith

  dispatched_reached :
      0 < capacity → Reach false (new_pool (suc others) capacity waiters) dispatched
  dispatched_reached n =
      and_then
        (and_then
          (and_then
            (and_then (and_then (and_then created (begins_start _)) (closes started))
              (takes 0 told shut shut_told refl))
            (finishes_start left (inr refl)))
          (acquires reopened))
        (submits r admitting (admitting_holds n))

-- A read pool with at least one connection and a positive capacity that is closed between the two
-- sections of start reaches a state in which a worker that has exited has a read in its queue.
interrupted_start-loses_read :
    (others capacity waiters r : ℕ)
    → 0 < capacity
    → (p : Pool) × (w : PoolWorker) × Reach false (new_pool (suc others) capacity waiters) p
      × (get_elem? p.workers 0 ≡ some w)
      × (w.job ≡ exited)
      × (w.queue ≡ read r ∷ [])
interrupted_start-loses_read others capacity waiters r n = (
  dispatched others capacity waiters r,
  lost others capacity waiters r,
  dispatched_reached others capacity waiters r n,
  dispatched_lost others capacity waiters r n,
  refl,
  refl,
)

-- ===== src/Writer/Steps.antt =====
-- The step relation of the writer: any interleaving of its callers' coroutines, of the event
-- loops' callbacks, of the worker thread and of shutdown; and the invariant of its states.
use rapid_inbox.Writer.Admission.{
  escaped, Phase, opened, closing, closed, Worker, absent, idle, running, failing, draining, exited,
  Writer, is_opened, is_closing, waiting_count, cancel_admission, deliver_grant,
}
use rapid_inbox.Writer.Actor.{
  escape_request, acquire_capacity, resume_waiter, submit, put_stop, close, take_item,
  finish_request, begin_fatal_shutdown, fail_active, fail_owned,
}
use rapid_inbox.Base.{ℕ, ◌+◌, ◌≤◌, ◌<◌, ◌≡◌, ◌⊎◌, Bool, true, false, length, get_elem?}
use rapid_inbox.Writer.Counts.{count_granted, requests, stops, InRange}

abbrev pub is_live : Worker → Bool
is_live idle = true
is_live (running _) = true
is_live _ = false

abbrev pub is_started : Worker → Bool
is_started absent = false
is_started _ = true

-- A waiter may resume, be cancelled, or be reached by its callback at any time: the relation
-- has at least the steps of the program. Where the steps are `contained`, `rollback` and `close`
-- raise no error but SQLite's own, so that an exception leaves `_run_request` only after the
-- request's result was set.
pub data Step (contained : Bool) : Writer → Writer → Type 0 where
  acquire : (starts : Bool) (w : Writer) → Step contained w (acquire_capacity starts w).0
  resume : (i : ℕ) (w : Writer) → Step contained w (resume_waiter i (get_elem? w.store i) w).0
  cancel : (i : ℕ) (w : Writer) → Step contained w (cancel_admission i w).0
  deliver :
      (done : Bool) (i : ℕ) (w : Writer)
      → Step contained w (deliver_grant done i (get_elem? w.store i) w).0
  submits : (r : ℕ) (w : Writer) → 0 < w.in_hand → Step contained w (submit r w).0
  puts : (w : Writer) → 0 < w.stop_in_flight → Step contained w (put_stop w)
  closes : (w : Writer) → Step contained w (close w)
  takes : (w : Writer) → w.worker ≡ idle → Step contained w (take_item w w.queue)
  finishes : (r : ℕ) (w : Writer) → w.worker ≡ running r → Step contained w (finish_request w)
  fails : (w : Writer) → is_live w.worker ≡ true → Step contained w (begin_fatal_shutdown w)
  escapes :
      (done : Bool) (r : ℕ) (w : Writer)
      → w.worker ≡ running r
      → (done ≡ true) ⊎ (contained ≡ false)
      → Step contained w (escape_request done w)
  fails_escaped :
      (done : Bool) (r : ℕ) (w : Writer)
      → w.worker ≡ escaped done r
      → Step contained w (begin_fatal_shutdown w)
  fails_active : (r : ℕ) (w : Writer) → w.worker ≡ failing r → Step contained w (fail_active w)
  fails_owned : (w : Writer) → w.worker ≡ draining → Step contained w (fail_owned w w.queue)

pub data Reach (contained : Bool) (initial : Writer) : Writer → Type 0 where
  created : Reach contained initial initial
  and_then :
      {before after : Writer}
      → Reach contained initial before
      → Step contained before after
      → Reach contained initial after

-- The slot of the request that the worker runs.
abbrev pub busy : Worker → ℕ
busy (running _) = 1
busy (failing _) = 1
busy _ = 0

-- Every slot has one owner: a granted waiter, a coroutine, the queue or the worker.
pub record IsBalanced (w : Writer) : Type 0 where
  pub positive : 0 < w.queue_capacity
  pub balanced :
      w.outstanding ≡ count_granted w.store + w.in_hand + requests w.queue + busy w.worker
  pub bounded : w.outstanding ≤ w.queue_capacity
  pub parked_bound : waiting_count w.store w.admission_waiters ≤ w.max_waiters
  pub in_range : InRange (length w.store) w.admission_waiters

-- While the writer is open nobody waits for a free slot.
abbrev pub IsFed : Writer → Type 0
IsFed w =
    (is_opened w.state ≡ false)
    ⊎ (w.queue_capacity ≤ w.outstanding)
    ⊎ (waiting_count w.store w.admission_waiters ≡ 0)

-- The shutdown protocol, phase by phase: e = stop_enqueued, s = sentinels put or in flight,
-- n = slots out, q = requests queued, k = waiters waiting.
abbrev pub Protocol : Phase → Worker → (e : Bool) → (s n q k : ℕ) → Type 0
Protocol opened absent e s n q k = (e ≡ false) × (s ≡ 0) × (n ≡ 0) × (k ≡ 0)
Protocol opened idle e s n q k = (e ≡ false) × (s ≡ 0)
Protocol opened (running _) e s n q k = (e ≡ false) × (s ≡ 0)
Protocol opened (escaped true _) e s n q k = (e ≡ false) × (s ≡ 0)
Protocol closing idle e s n q k = (e ≡ false) × (s ≡ 0) ⊎ (e ≡ true) × (s ≡ 1) × (n ≡ 0)
Protocol closing (running _) e s n q k = (e ≡ false) × (s ≡ 0)
Protocol closing (escaped true _) e s n q k = (e ≡ false) × (s ≡ 0) ⊎ (e ≡ true) × (s ≡ 1) × (n ≡ 0)
Protocol closing (failing _) e s n q k = (e ≡ true) × (s ≡ 0)
Protocol closing draining e s n q k = (e ≡ true) × (s ≤ 1) × ((s ≡ 0) ⊎ (n ≡ 0))
Protocol closed absent e s n q k = (s ≡ 0) × (n ≡ 0)
Protocol closed exited e s n q k = (e ≡ true) × (s ≤ 1) × ((s ≡ 0) ⊎ (n ≡ 0)) × (q ≡ 0)
Protocol _ _ e s n q k = ⊥

abbrev pub FollowsProtocol : Writer → Type 0
FollowsProtocol w =
    Protocol w.state w.worker w.stop_enqueued (stops w.queue + w.stop_in_flight) w.outstanding
      (requests w.queue) (waiting_count w.store w.admission_waiters)

-- A closing writer with nothing left to drain has announced its end.
abbrev pub IsAnnounced : Writer → Type 0
IsAnnounced w = (is_closing w.state ≡ false) ⊎ (w.stop_enqueued ≡ true) ⊎ (0 < w.outstanding)

pub record IsSound (w : Writer) : Type 0 where
  pub balance : IsBalanced w
  pub fed : IsFed w
  pub protocol : FollowsProtocol w
  pub announced : IsAnnounced w

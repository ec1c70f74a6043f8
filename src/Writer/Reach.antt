-- ===== src/Writer/Reach.antt =====
-- What holds in every state that the writer can reach.
use rapid_inbox.Writer.Shutdown.{
  fails_escaped-IsSound, escape_request-IsSound, put_stop-IsSound, close-IsSound, take_item-IsSound,
  finish_request-IsSound, begin_fatal_shutdown-IsSound, fail_active-IsSound, fail_owned-IsSound,
}
use rapid_inbox.Writer.Steps.{
  fails_escaped, escapes, Step, acquire, resume, cancel, deliver, submits, puts, closes, takes,
  finishes, fails, fails_active, fails_owned, Reach, created, and_then, IsSound,
}
use rapid_inbox.Base.{false, true, ℕ, ◌<◌, refl, arith, get_elem?}
use rapid_inbox.Writer.Admission.{Writer, new_writer, waiting_count}
use rapid_inbox.Writer.Counts.{count_granted, requests, stops}
use rapid_inbox.Writer.Ops.{cancel_admission-IsSound, deliver_grant-IsSound}
use rapid_inbox.Writer.Submit.{acquire_capacity-IsSound, resume_waiter-IsSound, submit-IsSound}

Step-IsSound : {w u : Writer} → Step true w u → IsSound w → IsSound u
Step-IsSound (acquire starts w) h = acquire_capacity-IsSound starts w h
Step-IsSound (resume i w) h = resume_waiter-IsSound i w (get_elem? w.store i) refl h
Step-IsSound (cancel i w) h = cancel_admission-IsSound i w h
Step-IsSound (deliver done i w) h = deliver_grant-IsSound done i w (get_elem? w.store i) refl h
Step-IsSound (submits r w n) h = submit-IsSound r w h n
Step-IsSound (puts w n) h = put_stop-IsSound w h n
Step-IsSound (closes w) h = close-IsSound w h
Step-IsSound (takes w e) h = take_item-IsSound w h e
Step-IsSound (finishes r w e) h = finish_request-IsSound r w h e
Step-IsSound (fails w e) h = begin_fatal_shutdown-IsSound w h e
Step-IsSound (escapes true r w e d) h = escape_request-IsSound r w h e
Step-IsSound (escapes false r w e d) h = ground arith
Step-IsSound (fails_escaped done r w e) h = fails_escaped-IsSound done r w h e
Step-IsSound (fails_active r w e) h = fail_active-IsSound r w h e
Step-IsSound (fails_owned w e) h = fail_owned-IsSound w h e

new_writer-IsSound : (capacity waiters : ℕ) → 0 < capacity → IsSound (new_writer capacity waiters)
unfolding count_granted requests stops waiting_count
new_writer-IsSound capacity waiters n = ground arith

-- In every reachable state of a writer of positive capacity, whatever the interleaving, as long
-- as no rollback or close of a connection raises an error other than SQLite's: each slot that is
-- out belongs to exactly one granted waiter, coroutine, queued request or running request; the
-- capacity and the bound on waiting callers hold; while the writer is open nobody waits for a
-- free slot; and the state, the worker and the stop sentinel follow the shutdown protocol.
pub Reach-IsSound :
    (capacity waiters : ℕ) (w : Writer)
    → 0 < capacity
    → Reach true (new_writer capacity waiters) w
    → IsSound w
Reach-IsSound capacity waiters w n created = new_writer-IsSound capacity waiters n
Reach-IsSound capacity waiters w n (and_then {before} r s) =
    Step-IsSound s (Reach-IsSound capacity waiters before n r)

-- ===== src/Writer/Escape.antt =====
-- The worker of `DatabaseWriter` in app/db/writer.py when an exception leaves `_run_request` before the
-- request's result is set: `rollback` or `close` raises an error that is not SQLite's.
use rapid_inbox.Base.{
  ℕ, suc, ◌+◌, ◌-◌, ◌<◌, ◌≡◌, refl, ◌⊎◌, inl, inr, true, false, arith, ◌&&◌, not, eqb, leb,
  Bool-cases,
}
use rapid_inbox.Writer.Admission.{
  closed, running, escaped, failing, exited, Writer, Worker, is_opened, is_closing, granted_into,
  grant_from, new_writer, release_capacity, grant_waiters, prepare_stop,
}
use rapid_inbox.Writer.Actor.{escape_request, begin_fatal_shutdown, fail_active}
use rapid_inbox.Writer.Counts.{count_granted, requests, count_granted-reject_all}
use rapid_inbox.Writer.Steps.{Reach}
use rapid_inbox.Writer.Shutdown.{escape_request-IsSound}
use rapid_inbox.Writer.Reach.{Reach-IsSound}

-- The slots that somebody other than the worker owns.
abbrev owned : Writer → ℕ
owned w = count_granted w.store + w.in_hand + requests w.queue

-- The fatal handler, up to its release of the active request if the result of that is not done.
abbrev release_failing : Worker → Writer → Writer
release_failing (failing r) w = fail_active w
release_failing _ w = w

abbrev handle_escape : Writer → Writer
handle_escape w = let u = begin_fatal_shutdown w in release_failing u.worker u

-- The worker has no say in what the release does.
prepare_stop-worker :
    (k : Worker) (w : Writer)
    → prepare_stop (record w { worker = k }) ≡ record (prepare_stop w) { worker = k }
unfolding prepare_stop
prepare_stop-worker k w =
    elim (Bool-cases (is_closing w.state && eqb w.outstanding 0 && not w.stop_enqueued)) [
      | inl last ↦ rw last refl
      | inr more ↦ rw more refl
    ]

escape_request-same :
    (r : ℕ) (w : Writer)
    → w.worker ≡ running r
    → escape_request false w ≡ record (escape_request true w) { worker = escaped false r }
unfolding escape_request release_capacity grant_waiters prepare_stop
escape_request-same r w e = elim (Bool-cases (leb w.outstanding 0)) [
  | inl none_out ↦ rw (none_out, e) refl
  | inr some_out ↦ elim (Bool-cases (is_opened w.state)) [
    | inl fed ↦
        rw (some_out, fed, e)
          (prepare_stop-worker (escaped false r) (
            granted_into (record w { outstanding = w.outstanding - 1; worker = escaped true r })
              (grant_from w.queue_capacity (w.outstanding - 1) w.store w.admission_waiters)))
    | inr shut ↦
        rw (some_out, shut, e)
          (prepare_stop-worker (escaped false r)
            (record w { outstanding = w.outstanding - 1; worker = escaped true r }))
  ]
]

escape_request-escaped :
    (r : ℕ) (w : Writer) → w.worker ≡ running r → (escape_request true w).worker ≡ escaped true r
unfolding escape_request release_capacity grant_waiters prepare_stop
escape_request-escaped r w e = ground arith

handle_escape-lem :
    (r : ℕ) (w : Writer)
    → w.outstanding ≡ owned w
    → w.worker ≡ escaped false r
    → (suc (handle_escape w).outstanding ≡ owned (handle_escape w))
      ⊎ (owned (handle_escape w) ≡ 0)
        × ((handle_escape w).worker ≡ exited)
        × ((handle_escape w).state ≡ closed)
unfolding begin_fatal_shutdown fail_active release_capacity grant_waiters prepare_stop
handle_escape-lem r w b e =
    let kept = count_granted-reject_all w.store w.admission_waiters in
    elim (Bool-cases (leb w.outstanding 0)) [
      | inl none_out ↦
          inr
            (rw (e, none_out) (ground (arith, kept)), rw (e, none_out) refl, rw (e, none_out) refl)
      | inr some_out ↦ inl (rw (e, some_out) (ground (arith, kept)))
    ]

-- From any state of a writer of positive capacity that ordinary steps reach and in which the worker
-- runs a request: when an error that is not SQLite's leaves the request's rollback, then after the
-- fatal handler's release the counter is one below the slots that waiters, coroutines and queued
-- requests own, or they own none and the thread has ended.
escape_request-releases_twice :
    (capacity waiters r : ℕ) (w : Writer)
    → 0 < capacity
    → Reach true (new_writer capacity waiters) w
    → w.worker ≡ running r
    → (suc (handle_escape (escape_request false w)).outstanding
        ≡ owned (handle_escape (escape_request false w)))
      ⊎ (owned (handle_escape (escape_request false w)) ≡ 0)
        × ((handle_escape (escape_request false w)).worker ≡ exited)
        × ((handle_escape (escape_request false w)).state ≡ closed)
escape_request-releases_twice capacity waiters r w n reach e =
    let s = escape_request-IsSound r w (Reach-IsSound capacity waiters w n reach) e in
    rw (escape_request-same r w e) (
      handle_escape-lem r (record (escape_request true w) { worker = escaped false r })
        (ground (arith, s.balance.balanced, escape_request-escaped r w e)) refl)

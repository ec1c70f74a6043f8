-- ===== src/Pool/Resolve.antt =====
-- A read of app/db/read_pool.py ends within two attempts and sets its future, unless a handler asks a
-- connection that `_ensure_connection` has closed.
use rapid_inbox.Pool.Request.{
  Identity, same_identity, Slot, Raised, is_sqlite, Trial, Resolution, cancelled, timed_out, failed,
  Ended, ended, escaped, retried, open_current_database, ensure_connection, operate, recover,
  conclude, run_attempt, second_attempt, run_request,
}
use rapid_inbox.Base.{◌≡◌, refl, ap, ◌≢◌, ◌⊎◌, Bool, true, false, Option, none, some, arith}
use rapid_inbox.Base.Result.{Result, ok, err}
use rapid_inbox.Pool.Reopen.{Healthy}

module _ {E A : Type 0} where
  -- An open connection says whether it is in a transaction.
  abbrev pub Answers : Trial E A → Type 0
  Answers t = t.in_transaction true ≢ none

  -- The connection need not be opened again.
  abbrev pub IsCurrent : Trial E A → Option Slot → Type 0
  IsCurrent t none = Unit
  IsCurrent t (some s) =
      (s.is_open ≡ true)
      × ((t.identity_before ≡ none)
          ⊎ (i : Identity) × (t.identity_before ≡ some i) × (same_identity s.identity i ≡ true))

  -- An attempt that ends well: the future is set, or it is not the last one and no connection is open.
  data EndsWell : Bool → Ended E A → Type 0 where
    resolved :
        {last : Bool} {slot : Option Slot} {r : Resolution E A}
        → Healthy slot
        → EndsWell last (ended slot r)
    again : EndsWell false (retried none)

  abbrev Resolves : Ended E A → Type 0
  Resolves x = (kept : Option Slot) × (r : Resolution E A) × (x ≡ ended kept r) × Healthy kept

  is_retried : Ended E A → Bool
  is_retried (retried _) = true
  is_retried _ = false

  recover-ends :
      (t : Trial E A) (slot : Option Slot) (r : Resolution E A)
      → is_retried (recover t slot r) ≡ false
  unfolding recover is_retried
  recover-ends t none r = refl
  recover-ends t (some s) r = ground arith

  conclude-ends :
      (t : Trial E A) (x : Option Slot × Result (Raised E) A)
      → is_retried (conclude true t x) ≡ false
  unfolding is_retried
  conclude-ends t (slot, ok a) = refl
  conclude-ends t (slot, err e) = ground (
    arith,
    recover-ends t slot cancelled,
    recover-ends t slot timed_out,
    recover-ends t slot (failed e),
  )

  run_attempt-ends :
      (t : Trial E A) (slot : Option Slot) → is_retried (run_attempt true t slot) ≡ false
  unfolding run_attempt is_retried
  run_attempt-ends t slot = ground (arith, conclude-ends t (operate t (ensure_connection t slot)))

  second_attempt-ends :
      (t : Trial E A) (x : Ended E A) (left : Option Slot) → second_attempt t x ≢ retried left
  unfolding is_retried
  second_attempt-ends t (ended slot r) left h = cc
  second_attempt-ends t escaped left h = cc
  second_attempt-ends t (retried slot) left h =
      let x = run_attempt-ends t slot in
      let y : is_retried (run_attempt true t slot) ≡ true = ap is_retried h in cc

  -- Whatever fails, a read ends within two attempts: the assertion behind the loop is never
  -- reached.
  pub run_request-reaches_end :
      (first second : Trial E A) (slot left : Option Slot)
      → run_request first second slot ≢ retried left
  unfolding run_request
  run_request-reaches_end first second slot left h =
      second_attempt-ends second (run_attempt false first slot) left h

  -- A read that starts in time with the connection of another database, which SQLite then fails
  -- to open again, and that has been cancelled meanwhile: where a closed connection raises when
  -- it is asked for its transaction, an exception escapes to the worker and the future is not
  -- set.
  pub run_request-escapes :
      (first second : Trial E A) (s : Slot) (current : Identity) (e : Raised E)
      → first.cancelled_first ≡ false
      → first.late_first ≡ false
      → first.identity_before ≡ some current
      → same_identity s.identity current ≡ false
      → open_current_database first.first first.second current ≡ err e
      → is_sqlite e ≡ true
      → first.cancelled_after ≡ true
      → first.in_transaction false ≡ none
      → run_request first second (some s) ≡ escaped
  unfolding run_request run_attempt ensure_connection recover
  run_request-escapes first second s current e c l i n o q k x = rw (c, l, i, n, o, q, k, x) refl

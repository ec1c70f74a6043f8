-- ===== src/Pool/Request.antt =====
-- One read of a worker of app/db/read_pool.py: `_run_request` with its two attempts,
-- `_ensure_connection` and `_open_current_database`. What the database, the clock and the caller
-- answer during an attempt is a record of observations, since sqlite3 is not part of the repository.
use rapid_inbox.Base.{ℕ, Bool, true, false, ◌&&◌, ◌||◌, Option, none, some, if◌then◌else◌, eqb}
use rapid_inbox.Base.Result.{Result, ok, err, ◌>>=◌}

-- `st_dev` and `st_ino`
pub record Identity : Type 0 where
  pub device : ℕ
  pub inode : ℕ

abbrev pub same_identity : Identity → Identity → Bool
same_identity a b = eqb a.device b.device && eqb a.inode b.inode

-- `_ConnectionSlot`; its connection may have been closed
pub record Slot : Type 0 where
  pub identity : Identity
  pub is_open : Bool

-- the first three are `sqlite3.Error`s
pub data Raised (E : Type 0) : Type 0 where
  sqlite_error : E → Raised E
  database_unavailable database_replaced : Raised E
  other_error : E → Raised E

abbrev pub is_sqlite : {E : Type 0} → Raised E → Bool
is_sqlite (other_error _) = false
is_sqlite _ = true

-- one attempt of `_open_current_database`: what `connect` and the pragmas raise, and the identities
-- read after the pragmas and before a second attempt
pub record Opening (E : Type 0) : Type 0 where
  pub raises : Option (Raised E)
  pub actual : Option Identity
  pub expected_again : Option Identity

pub data Interruption : Type 0 where
  uninterrupted by_cancel by_timeout : Interruption

-- what an attempt of `_run_request` sees; `in_transaction` answers for an open connection (true) or
-- a closed one (false), and none stands for an exception
pub record Trial (E A : Type 0) : Type 0 where
  pub cancelled_first : Bool
  pub late_first : Bool
  pub identity_before : Option Identity
  pub first : Opening E
  pub second : Opening E
  pub operation : Result (Raised E) A
  pub rollback_raises : Option (Raised E)
  pub identity_after : Option Identity
  pub interruption : Interruption
  pub cancelled_after : Bool
  pub late_after : Bool
  pub in_transaction : Bool → Option Bool
  pub recovery_fails : Bool

-- what the request's future is set to
pub data Resolution (E A : Type 0) : Type 0 where
  cancelled timed_out : Resolution E A
  failed : Raised E → Resolution E A
  succeeded : A → Resolution E A

-- how an attempt ends: with the future set once; by an exception that a handler raises; or with
-- another attempt
pub data Ended (E A : Type 0) : Type 0 where
  ended : Option Slot → Resolution E A → Ended E A
  escaped : Ended E A
  retried : Option Slot → Ended E A

abbrev pub known_identity : {E : Type 0} → Option Identity → Result (Raised E) Identity
known_identity none = err database_unavailable
known_identity (some i) = ok i

-- none says that the identity is another one
abbrev pub matching : {E : Type 0} → Bool → Identity → Result (Raised E) (Option Slot)
matching true actual = ok (some (record { identity = actual; is_open = true }))
matching false actual = ok none

abbrev pub opened_slot : {E : Type 0} → Identity → Identity → Result (Raised E) (Option Slot)
opened_slot expected actual = matching (same_identity actual expected) actual

abbrev pub raised_or :
    {E A : Type 0} → Option (Raised E) → Result (Raised E) A → Result (Raised E) A
raised_or (some e) r = err e
raised_or none r = r

unfoldable pub try_open : {E : Type 0} → Opening E → Identity → Result (Raised E) (Option Slot)
try_open o expected = raised_or o.raises (known_identity o.actual >>= opened_slot expected)

abbrev pub opened_or_replaced : {E : Type 0} → Option Slot → Result (Raised E) Slot
opened_or_replaced (some s) = ok s
opened_or_replaced none = err database_replaced

abbrev pub open_again : {E : Type 0} → Opening E → Opening E → Option Slot → Result (Raised E) Slot
open_again first second (some s) = ok s
open_again first second none = known_identity first.expected_again >>= λ expected.
    try_open second expected >>= opened_or_replaced

unfoldable pub open_current_database :
    {E : Type 0} → Opening E → Opening E → Identity → Result (Raised E) Slot
open_current_database first second expected = try_open first expected >>= open_again first second

-- `_close_connection`, as the caller's variable sees it
abbrev pub closed_slot : Option Slot → Option Slot
closed_slot none = none
closed_slot (some s) = some (record s { is_open = false })

abbrev pub has_identity : Option Slot → Identity → Bool
has_identity none i = false
has_identity (some s) i = same_identity s.identity i

-- the variable `slot` of `_run_request` after `_ensure_connection`, which has assigned it only when
-- nothing was raised
abbrev pub reopened :
    {E : Type 0} → Option Slot → Result (Raised E) Slot → Option Slot × Option (Raised E)
reopened slot (ok s) = (some s, none)
reopened slot (err e) = (closed_slot slot, some e)

abbrev pub ensure_at :
    {E A : Type 0} → Trial E A → Option Slot → Identity → Option Slot × Option (Raised E)
ensure_at t slot current =
    if has_identity slot current
    then (slot, none)
    else reopened slot (open_current_database t.first t.second current)

abbrev pub ensure_from :
    {E A : Type 0} → Trial E A → Option Slot → Option Identity → Option Slot × Option (Raised E)
ensure_from t slot none = (slot, some database_unavailable)
ensure_from t slot (some current) = ensure_at t slot current

unfoldable pub ensure_connection :
    {E A : Type 0} → Trial E A → Option Slot → Option Slot × Option (Raised E)
ensure_connection t slot = ensure_from t slot t.identity_before

abbrev pub same_after : {E A : Type 0} → Option Slot → A → Identity → Result (Raised E) A
same_after slot a actual = if has_identity slot actual then ok a else err database_replaced

-- the operation, the rollback and the second look at the identity
abbrev pub operate :
    {E A : Type 0} → Trial E A → Option Slot × Option (Raised E) → Option Slot × Result (Raised E) A
operate t (slot, some e) = (slot, err e)
operate t (slot, none) = (
  slot,
  t.operation >>= λ a.
      raised_or t.rollback_raises (known_identity t.identity_after >>= same_after slot a),
)

abbrev pub recovered : {E A : Type 0} → Trial E A → Slot → Resolution E A → Option Bool → Ended E A
recovered t s r none = escaped
recovered t s r (some false) = ended (some s) r
recovered t s r (some true) = if t.recovery_fails then ended none r else ended (some s) r

-- the rollback that a handler tries before it sets the future
unfoldable pub recover : {E A : Type 0} → Trial E A → Option Slot → Resolution E A → Ended E A
recover t none r = ended none r
recover t (some s) r = recovered t s r (t.in_transaction s.is_open)

abbrev pub is_by_cancel : Interruption → Bool
is_by_cancel by_cancel = true
is_by_cancel _ = false

abbrev pub is_by_timeout : Interruption → Bool
is_by_timeout by_timeout = true
is_by_timeout _ = false

-- `last` says that this is the second attempt
abbrev pub handle_sqlite_error :
    {E A : Type 0} → Bool → Trial E A → Option Slot → Raised E → Ended E A
handle_sqlite_error last t slot e =
    if t.cancelled_after || is_by_cancel t.interruption
    then recover t slot cancelled
    else if is_by_timeout t.interruption || t.late_after
    then recover t slot timed_out
    else if last
    then ended none (failed e)
    else retried none

abbrev pub conclude :
    {E A : Type 0} → Bool → Trial E A → Option Slot × Result (Raised E) A → Ended E A
conclude last t (slot, ok a) = ended slot (succeeded a)
conclude last t (slot, err e) =
    if is_sqlite e then handle_sqlite_error last t slot e else recover t slot (failed e)

unfoldable pub run_attempt : {E A : Type 0} → Bool → Trial E A → Option Slot → Ended E A
unfolding ensure_connection recover
run_attempt last t slot =
    if t.cancelled_first
    then ended slot cancelled
    else if t.late_first
    then ended slot timed_out
    else conclude last t (operate t (ensure_connection t slot))

abbrev pub second_attempt : {E A : Type 0} → Trial E A → Ended E A → Ended E A
second_attempt t (retried slot) = run_attempt true t slot
second_attempt t e = e

-- `_run_request`; a result `retried` is the assertion at its end
unfoldable pub run_request : {E A : Type 0} → (first second : Trial E A) → Option Slot → Ended E A
unfolding run_attempt
run_request first second slot = second_attempt second (run_attempt false first slot)

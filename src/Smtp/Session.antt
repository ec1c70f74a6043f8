-- ===== src/Smtp/Session.antt =====
-- What the handlers of app/smtp/handler.py see and do: the session, the calls of the runtime in
-- their order, and what the runtime answers. An exception of a call is a value.
use rapid_inbox.Base.{codes, Text, ℕ, Bool, Option, none, some, List, [], ◌∷◌, ◌++◌, if◌then◌else◌}
use rapid_inbox.Base.Result.{Result, ok, err}

-- the events of `_publish_session_event`, without the fields that every event of a session has
pub data Event : Type 0 where
  connect : Event
  rcpt_accepted rcpt_rejected : Text → Event
  limit_exceeded : Text → Event
  queued : ℕ → Option Text → Event
  quit : Event
  lost : Option Text → Event

pub data Status : Type 0 where
  closed error : Status

-- The calls that leave the handler, each with the arguments that matter.
pub data Call : Type 0 where
  register_connection : Call
  ensure_session : Option Text → Call
  record_rcpt : Text → Bool → Call
  publish record_event : Event → Call
  close_session : Status → Call
  close_lost_session : Status → Call
  accept_message : List Text → ℕ → Call
  close_transport : Call

pub record Session : Type 0 where
  pub session_id : Option Text
  pub rcpt_tos : List Text
  pub calls : List Call

-- What one command reads of the domains service and of the settings: which addresses are served,
-- the answer to `match_address_with_size_limit` (the domain's id and its limit, if it has one), the
-- limits, and the close after a message. The limits and the domains are read with no `await` in
-- between, the close once, and the next command reads everything anew.
pub record Rules : Type 0 where
  pub serves : Text → Bool
  pub match_with_limit : Text → Option (ℕ × Option ℕ)
  pub max_recipients_per_message : ℕ
  pub max_message_size_bytes : ℕ
  pub smtp_close_after_data : Bool

-- How the runtime behaves in one command: the calls that raise, the answer to the registration,
-- the reply of `accept_message`, whether a lost session was still open.
pub record Runtime : Type 0 where
  pub raises : Call → Bool
  pub allowed : Bool
  pub reason : Text
  pub fresh_id : Text
  pub reply : Text
  pub closed_lost : Bool
  pub has_transport : Bool
  pub is_space : ℕ → Bool

-- An exception, or the reply; `none` is Python's `None`.
abbrev pub Answer : Type 0
Answer = Result (Unit {0}) (Option Text) × Session

abbrev pub log : Call → Session → Session
log c s = record s { calls = s.calls ++ c ∷ [] }

-- One awaited call, then the rest of the handler.
unfoldable pub call : Runtime → Call → (Session → Answer) → Session → Answer
call rt c rest s = if rt.raises c then (err tt, log c s) else rest (log c s)

-- The recording of the event may fail, its publication may not.
unfoldable pub publish_session_event : Runtime → Event → (Session → Answer) → Session → Answer
unfolding call
publish_session_event rt e rest s = call rt (publish e) (λ s'. rest (log (record_event e) s')) s

abbrev id_or_fresh : Text → Option Text → Text
id_or_fresh fresh none = fresh
id_or_fresh fresh (some known) = known

abbrev pub ensure_session_id : Runtime → Session → Session
ensure_session_id rt s = record s { session_id = some (id_or_fresh rt.fresh_id s.session_id) }

-- The start of CONNECT, RCPT and DATA: an address that is not let in gets 421.
unfoldable pub ensure_session_allowed : Runtime → (Session → Answer) → Session → Answer
unfolding call
ensure_session_allowed rt rest s =
    call rt register_connection
      (λ s'. if rt.allowed then rest s' else (ok (some (codes "421 " ++ rt.reason)), s'))
      (ensure_session_id rt s)

abbrev close_failed : Result (Unit {0}) (Option Text) → Session → Answer
close_failed (ok reply) s = (ok reply, s)
close_failed (err e) s = (err e, log (close_session error) s)

-- `except Exception`: the session is closed, whatever comes of that, and the exception goes on
abbrev pub closing_on_error : Answer → Answer
closing_on_error (r, s) = close_failed r s

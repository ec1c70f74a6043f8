-- ===== src/Smtp/Handler.antt =====
-- The handlers of app/smtp/handler.py.
use rapid_inbox.Base.{
  strip_by, text_eq, codes, Text, ℕ, min, Bool, true, false, not, ◌&&◌, Option, none, some, List,
  [], ◌∷◌, ◌++◌, length, any, ltb, leb, eqb, if◌then◌else◌,
}
use rapid_inbox.Base.Result.{ok, err}
use rapid_inbox.Smtp.Session.{
  Event, connect, rcpt_accepted, rcpt_rejected, limit_exceeded, queued, quit, lost, Status, closed,
  error, ensure_session, record_rcpt, close_session, close_lost_session, accept_message,
  close_transport, Session, Rules, Runtime, Answer, log, call, publish_session_event,
  ensure_session_id, ensure_session_allowed, closing_on_error,
}

-- `s in texts`
abbrev pub holds : Text → List Text → Bool
holds s texts = any (text_eq s) texts

unfoldable pub handle_connect : Runtime → Session → Answer
unfolding ensure_session_allowed call publish_session_event
handle_connect rt =
    ensure_session_allowed rt
      (call rt (ensure_session none) (publish_session_event rt connect (λ s. (ok none, s))))

abbrev pub add_recipient : Text → Session → Session
add_recipient address s = record s { rcpt_tos = s.rcpt_tos ++ address ∷ [] }

-- a recorded recipient, the event, and the reply
unfoldable pub answer_rcpt : Runtime → Text → Bool → Event → Text → Session → Answer
unfolding call publish_session_event
answer_rcpt rt address accepted event reply =
    call rt (record_rcpt address accepted)
      (publish_session_event rt event (λ s. (ok (some reply), s)))

unfoldable pub rcpt_body : Rules → Runtime → Text → Session → Answer
unfolding answer_rcpt
rcpt_body rules rt address s =
    if holds address s.rcpt_tos
    then answer_rcpt rt address true (rcpt_accepted address) (codes "250 OK") s
    else if not (rules.serves address)
    then answer_rcpt rt address false (rcpt_rejected address) (codes "550 domain not allowed") s
    else if leb rules.max_recipients_per_message (length s.rcpt_tos)
    then answer_rcpt rt address false (limit_exceeded address) (codes "552 too many recipients") s
    else answer_rcpt rt address true (rcpt_accepted address) (codes "250 OK")
        (add_recipient address s)

unfoldable pub handle_rcpt : Rules → Runtime → Text → Session → Answer
unfolding ensure_session_allowed call rcpt_body
handle_rcpt rules rt address =
    ensure_session_allowed rt (
      call rt (ensure_session (some address))
        (λ s. closing_on_error (rcpt_body rules rt address s)))

abbrev pub has_id : ℕ → List ℕ → Bool
has_id k ids = any (eqb k) ids

abbrev pub lower_to : ℕ → Option ℕ → ℕ
lower_to limit none = limit
lower_to limit (some domain_limit) = min limit domain_limit

-- one round of the loop of `_effective_message_size_limit`; `rest` is the loop after it
abbrev pub limit_round : Option (ℕ × Option ℕ) → (ℕ → List ℕ → ℕ) → ℕ → List ℕ → ℕ
limit_round none rest limit seen_domain_ids = rest limit seen_domain_ids
limit_round (some (domain_id, domain_limit)) rest limit seen_domain_ids =
    if has_id domain_id seen_domain_ids
    then rest limit seen_domain_ids
    else rest (lower_to limit domain_limit) (domain_id ∷ seen_domain_ids)

unfoldable pub limit_loop : Rules → List Text → ℕ → List ℕ → ℕ
limit_loop rules [] limit seen_domain_ids = limit
limit_loop rules (rcpt_to ∷ rcpt_tos) limit seen_domain_ids =
    limit_round (rules.match_with_limit rcpt_to) (limit_loop rules rcpt_tos) limit seen_domain_ids

unfoldable pub effective_message_size_limit : Rules → List Text → ℕ
unfolding limit_loop
effective_message_size_limit rules rcpt_tos =
    limit_loop rules rcpt_tos rules.max_message_size_bytes []

-- `s.removeprefix(prefix)` if `s.startswith(prefix)`
unfoldable pub remove_prefix : Text → Text → Option Text
remove_prefix [] s = some s
remove_prefix (c ∷ cs) [] = none
remove_prefix (c ∷ cs) (d ∷ s) = let rest = remove_prefix cs s in if eqb c d then rest else none

abbrev pub non_empty : Text → Option Text
non_empty [] = none
non_empty (c ∷ s) = some (c ∷ s)

abbrev pub is_some : Option Text → Bool
is_some none = false
is_some (some _) = true

-- what `handle_data` does with the reply of `accept_message`
abbrev pub after_accept : Rules → Runtime → Option Text → Session → Answer
after_accept rules rt none s = (ok (some rt.reply), s)
after_accept rules rt (some rest) s =
    let message_id = non_empty (strip_by rt.is_space rest) in
    publish_session_event rt (queued (length s.rcpt_tos) message_id)
      (λ s'.
        let closes = is_some message_id && rules.smtp_close_after_data && rt.has_transport in
        (ok (some rt.reply), if closes then log close_transport s' else s'))
      s

unfoldable pub data_body : Rules → Runtime → ℕ → Session → Answer
unfolding effective_message_size_limit call remove_prefix publish_session_event
data_body rules rt content_length s =
    if eqb (length s.rcpt_tos) 0
    then (ok (some (codes "554 no valid recipients")), s)
    else if ltb rules.max_recipients_per_message (length s.rcpt_tos)
    then (ok (some (codes "552 too many recipients")), s)
    else if ltb (effective_message_size_limit rules s.rcpt_tos) content_length
    then (ok (some (codes "552 message too large")), s)
    else if rt.raises (accept_message s.rcpt_tos content_length)
    then closing_on_error (err tt, log (accept_message s.rcpt_tos content_length) s)
    else after_accept rules rt (remove_prefix (codes "250 queued as ") rt.reply)
        (log (accept_message s.rcpt_tos content_length) s)

unfoldable pub handle_data : Rules → Runtime → ℕ → Session → Answer
unfolding ensure_session_allowed call data_body
handle_data rules rt content_length =
    ensure_session_allowed rt (call rt (ensure_session none) (data_body rules rt content_length))

-- whatever fails, the client gets its answer
unfoldable pub handle_quit : Runtime → Session → Answer
unfolding call publish_session_event
handle_quit rt s = (
  ok (some (codes "221 2.0.0 Bye")),
  (call rt (close_session closed) (publish_session_event rt quit (λ s'. (ok none, s')))
      (ensure_session_id rt s)).1,
)

abbrev pub lost_status : Option Text → Status
lost_status none = closed
lost_status (some _) = error

abbrev pub disconnect : Runtime → Option Text → Option Text → Session → Answer
disconnect rt failure none s = (ok none, s)
disconnect rt failure (some _) s =
    call rt (close_lost_session (lost_status failure))
      (λ s'.
        if rt.closed_lost
        then publish_session_event rt (lost failure) (λ t. (ok none, t)) s'
        else (ok none, s'))
      s

-- `error` is the class of the error, if there is one
unfoldable pub handle_disconnect : Runtime → Option Text → Session → Answer
unfolding call publish_session_event
handle_disconnect rt failure s = disconnect rt failure s.session_id s

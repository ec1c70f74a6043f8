-- ===== src/Smtp/Replies.antt =====
-- The replies and the errors of RCPT in app/smtp/handler.py.
use rapid_inbox.Smtp.Session.{
  limit_exceeded, rcpt_rejected, rcpt_accepted, Event, error, Call, register_connection,
  ensure_session, close_session, Session, Rules, Runtime, Answer, log, call, publish_session_event,
  ensure_session_id, ensure_session_allowed, closing_on_error,
}
use rapid_inbox.Base.{
  text_eq_iff, text_eq, codes, Text, ◌<◌, ◌≡◌, refl, ◌≢◌, ◌⊎◌, inl, inr, Bool, true, false, Option,
  none, some, List, [], ◌∷◌, ◌++◌, arith, length, leb, Bool-cases,
}
use rapid_inbox.Base.Result.{Result, ok, err}
use rapid_inbox.Smtp.Handler.{holds, add_recipient, answer_rcpt, rcpt_body, handle_rcpt}

-- `answer_rcpt` adds no recipient and gives its own reply or raises.
answer_rcpt-result :
    (rt : Runtime) (address : Text) (accepted : Bool) (e : Event) (reply : Text) (s : Session)
    → ((answer_rcpt rt address accepted e reply s).1.rcpt_tos ≡ s.rcpt_tos)
      × (((answer_rcpt rt address accepted e reply s).0 ≡ ok (some reply))
          ⊎ ((answer_rcpt rt address accepted e reply s).0 ≡ err tt))
unfolding answer_rcpt call publish_session_event
answer_rcpt-result rt address accepted e reply s = ground arith

-- A reply of another text is not the other one, nor is an exception.
other_reply :
    (reply wanted : Text) (r : Result (Unit {0}) (Option Text))
    → text_eq reply wanted ≡ false
    → (r ≡ ok (some reply)) ⊎ (r ≡ err tt)
    → r ≢ ok (some wanted)
other_reply reply wanted (ok none) n (inl e) h = cc
other_reply reply wanted (ok none) n (inr e) h = cc
other_reply reply wanted (ok (some actual)) n (inl e) h =
    let same : reply ≡ wanted = cc in
    let yes_same : text_eq reply wanted ≡ true = (text_eq_iff reply wanted).1 same in cc
other_reply reply wanted (ok (some actual)) n (inr e) h = cc
other_reply reply wanted (err e') n e h = cc

rcpt_body-result :
    (rules : Rules) (rt : Runtime) (address : Text) (s : Session)
    → ((rcpt_body rules rt address s).1.rcpt_tos ≡ s.rcpt_tos)
        × ((holds address s.rcpt_tos ≡ true)
            ⊎ ((rcpt_body rules rt address s).0 ≢ ok (some (codes "250 OK"))))
      ⊎ ((rcpt_body rules rt address s).1.rcpt_tos ≡ s.rcpt_tos ++ address ∷ [])
        × (holds address s.rcpt_tos ≡ false)
        × (rules.serves address ≡ true)
        × (length s.rcpt_tos < rules.max_recipients_per_message)
unfolding rcpt_body
rcpt_body-result rules rt address s = elim (Bool-cases (holds address s.rcpt_tos)) [
  | inl known ↦
      let (same, _) =
        answer_rcpt-result rt address true (rcpt_accepted address) (codes "250 OK") s in
      rw known (inl (same, inl refl))
  | inr new ↦ elim (Bool-cases (rules.serves address)) [
    | inr unknown ↦
        let (same, replies) =
          answer_rcpt-result rt address false (rcpt_rejected address)
            (codes "550 domain not allowed") s in
        rw (new, unknown) (inl (same, inr (other_reply _ _ _ refl replies)))
    | inl served ↦ elim (Bool-cases (leb rules.max_recipients_per_message (length s.rcpt_tos))) [
      | inl full ↦
          let (same, replies) =
            answer_rcpt-result rt address false (limit_exceeded address)
              (codes "552 too many recipients") s in
          rw (new, served, full) (inl (same, inr (other_reply _ _ _ refl replies)))
      | inr room ↦
          let (same, _) =
            answer_rcpt-result rt address true (rcpt_accepted address) (codes "250 OK")
              (add_recipient address s) in
          rw (new, served, room) (inr (same, refl, refl, ground arith))
    ]
  ]
]

-- How the start of a command ends: with an exception, with 421, or in the rest of the command.
ensure_session_allowed-cases :
    (rt : Runtime) (rest : Session → Answer) (s : Session)
    → (rt.raises register_connection ≡ true)
        × (ensure_session_allowed rt rest s
            ≡ (err tt, log register_connection (ensure_session_id rt s)))
      ⊎ (ensure_session_allowed rt rest s ≡ (
        ok (some (codes "421 " ++ rt.reason)),
        log register_connection (ensure_session_id rt s),
      ))
      ⊎ (ensure_session_allowed rt rest s ≡ rest (log register_connection (ensure_session_id rt s)))
unfolding ensure_session_allowed call
ensure_session_allowed-cases rt rest s = ground arith

call-cases :
    (rt : Runtime) (c : Call) (rest : Session → Answer) (s : Session)
    → (rt.raises c ≡ true) × (call rt c rest s ≡ (err tt, log c s))
      ⊎ (call rt c rest s ≡ rest (log c s))
unfolding call
call-cases rt c rest s = ground arith

closing_on_error-keeps :
    (a : Answer)
    → ((closing_on_error a).0 ≡ a.0)
      × ((closing_on_error a).1.rcpt_tos ≡ a.1.rcpt_tos)
      × ((a.0 ≡ err tt → ⊥)
          ⊎ ((closing_on_error a).1.calls ≡ a.1.calls ++ close_session error ∷ []))
closing_on_error-keeps (ok reply, s) = (refl, refl, inl (λ h. cc))
closing_on_error-keeps (err e, s) = (refl, refl, inr refl)

denied :
    (reason : Text) (r : Result (Unit {0}) (Option Text))
    → r ≡ ok (some (codes "421 " ++ reason))
    → r ≢ ok (some (codes "250 OK"))
denied reason r e = other_reply (codes "421 " ++ reason) (codes "250 OK") r refl (inl e)

raised_reply : (r : Result (Unit {0}) (Option Text)) → r ≡ err tt → r ≢ ok (some (codes "250 OK"))
raised_reply r e h = cc

-- What RCPT does to the recipients of a message, whatever fails: it leaves them, and then it says
-- "250 OK" only for an address that is among them already; or it appends the address, which was
-- not yet among them, is served, and for which there was room.
pub handle_rcpt_recipients :
    (rules : Rules) (rt : Runtime) (address : Text) (s : Session)
    → ((handle_rcpt rules rt address s).1.rcpt_tos ≡ s.rcpt_tos)
        × ((holds address s.rcpt_tos ≡ true)
            ⊎ ((handle_rcpt rules rt address s).0 ≢ ok (some (codes "250 OK"))))
      ⊎ ((handle_rcpt rules rt address s).1.rcpt_tos ≡ s.rcpt_tos ++ address ∷ [])
        × (holds address s.rcpt_tos ≡ false)
        × (rules.serves address ≡ true)
        × (length s.rcpt_tos < rules.max_recipients_per_message)
unfolding handle_rcpt
handle_rcpt_recipients rules rt address s =
    let guarded : Session → Answer = λ t. closing_on_error (rcpt_body rules rt address t) in
    let rest : Session → Answer = call rt (ensure_session (some address)) guarded in
    let s1 = log register_connection (ensure_session_id rt s) in
    let s2 = log (ensure_session (some address)) s1 in
    elim (ensure_session_allowed-cases rt rest s) [
      | inl (_, e) ↦ rw e (inl (refl, inr (raised_reply (err tt) refl)))
      | inr (inl e) ↦ rw e (inl (refl, inr (denied rt.reason _ refl)))
      | inr (inr e) ↦ elim (call-cases rt (ensure_session (some address)) guarded s1) [
        | inl (_, e') ↦ rw (e, e') (inl (refl, inr (raised_reply (err tt) refl)))
        | inr e' ↦
            let (reply, rcpts, _) = closing_on_error-keeps (rcpt_body rules rt address s2) in
            rw (e, e', reply, rcpts) (rcpt_body-result rules rt address s2)
      ]
    ]

-- An exception of RCPT comes from the registration of the connection, from the bookkeeping of the
-- session, or else from its own work, and then the session has been closed with an error last.
pub handle_rcpt_raises :
    (rules : Rules) (rt : Runtime) (address : Text) (s : Session)
    → (handle_rcpt rules rt address s).0 ≡ err tt
    → (rt.raises register_connection ≡ true)
      ⊎ (rt.raises (ensure_session (some address)) ≡ true)
      ⊎ (before : List Call) × ((handle_rcpt rules rt address s).1.calls
          ≡ before ++ close_session error ∷ [])
unfolding handle_rcpt
handle_rcpt_raises rules rt address s h =
    let guarded : Session → Answer = λ t. closing_on_error (rcpt_body rules rt address t) in
    let rest : Session → Answer = call rt (ensure_session (some address)) guarded in
    let s1 = log register_connection (ensure_session_id rt s) in
    let s2 = log (ensure_session (some address)) s1 in
    elim (ensure_session_allowed-cases rt rest s) [
      | inl (raised, _) ↦ inl raised
      | inr (inl e) ↦ (let h' : ok (some (codes "421 " ++ rt.reason)) ≡ (err tt) = rw e at h in cc)
      | inr (inr e) ↦ elim (call-cases rt (ensure_session (some address)) guarded s1) [
        | inl (raised, _) ↦ inr (inl raised)
        | inr e' ↦
            let (reply, _, closes) = closing_on_error-keeps (rcpt_body rules rt address s2) in
            let body : (rcpt_body rules rt address s2).0 ≡ err tt = rw (e, e', reply) at h in
            elim closes [
              | inl fine ↦ absurd (fine body)
              | inr last ↦
                  rw (e, e', last) (inr (inr ((rcpt_body rules rt address s2).1.calls, refl)))
            ]
      ]
    ]

-- ===== src/Smtp/Reach.antt =====
-- The commands of an SMTP session in any order, and what holds of every session.
use rapid_inbox.Smtp.Session.{
  lost, quit, closed, ensure_session, close_session, close_lost_session, Session, Rules, Runtime,
  publish_session_event, ensure_session_id,
}
use rapid_inbox.Base.{Text, ℕ, refl, inl, inr, Option, none, some, [], if◌then◌else◌, Bool-cases}
use rapid_inbox.Base.Result.{ok}
use rapid_inbox.Smtp.Handler.{
  handle_connect, handle_rcpt, handle_data, handle_quit, handle_disconnect, disconnect, lost_status,
}
use rapid_inbox.Smtp.Safety.{
  IsSafe, Keeps, keeping, returns-Keeps, call-Keeps, publish_session_event-Keeps,
  ensure_session_allowed-Keeps, handle_connect-Keeps, handle_rcpt-Keeps, data_body-Keeps,
}

-- One command, by rules among those that the session may see: what the settings and the domains
-- service say, and what the runtime does, may differ each time. The recipients are cleared by RSET
-- and after a message, which the SMTP library does.
pub data Step (seen : Rules → Type 0) : Session → Session → Type 0 where
  connects : (rt : Runtime) (s : Session) → Step seen s (handle_connect rt s).1
  names :
      (rules : Rules) (rt : Runtime) (address : Text) (s : Session)
      → seen rules
      → Step seen s (handle_rcpt rules rt address s).1
  sends :
      (rules : Rules) (rt : Runtime) (n : ℕ) (s : Session)
      → seen rules
      → Step seen s (handle_data rules rt n s).1
  quits : (rt : Runtime) (s : Session) → Step seen s (handle_quit rt s).1
  disconnects :
      (rt : Runtime) (failure : Option Text) (s : Session)
      → Step seen s (handle_disconnect rt failure s).1
  resets : (s : Session) → Step seen s (record s { rcpt_tos = [] })

abbrev pub new_session : Session
new_session = record { session_id = none; rcpt_tos = []; calls = [] }

pub data Reach (seen : Rules → Type 0) : Session → Type 0 where
  fresh : Reach seen new_session
  command : {s t : Session} → Reach seen s → Step seen s t → Reach seen t

handle_data-Keeps :
    (seen : Rules → Type 0) (rules : Rules) (rt : Runtime) (n : ℕ)
    → seen rules
    → Keeps seen (handle_data rules rt n)
unfolding handle_data
handle_data-Keeps seen rules rt n now =
    ensure_session_allowed-Keeps seen rt _
      (call-Keeps seen rt (ensure_session none) _ tt (data_body-Keeps seen rules rt n now))

handle_quit-Keeps : (seen : Rules → Type 0) (rt : Runtime) → Keeps seen (handle_quit rt)
unfolding handle_quit
handle_quit-Keeps seen rt = keeping (λ s h.
    (call-Keeps seen rt (close_session closed) _ tt
        (publish_session_event-Keeps seen rt quit _ (returns-Keeps seen none))).keeps
      (ensure_session_id rt s) (record { recipients = h.recipients; calls = h.calls }))

disconnect-Keeps :
    (seen : Rules → Type 0) (rt : Runtime) (failure session_id : Option Text)
    → Keeps seen (disconnect rt failure session_id)
unfolding publish_session_event
disconnect-Keeps seen rt failure none = returns-Keeps seen none
disconnect-Keeps seen rt failure (some k) =
    let published =
      publish_session_event-Keeps seen rt (lost failure) (λ t. (ok none, t))
        (returns-Keeps seen none) in
    let told : Keeps seen (λ s.
      if rt.closed_lost
      then publish_session_event rt (lost failure) (λ t. (ok none, t)) s
      else (ok none, s)) =
      keeping (λ s h. elim (Bool-cases rt.closed_lost) [
        | inl open_before ↦ rw open_before (published.keeps s h)
        | inr gone ↦ rw gone h
      ]) in
    keeping
      (λ s h. (call-Keeps seen rt (close_lost_session (lost_status failure)) _ tt told).keeps s h)

handle_disconnect-Keeps :
    (seen : Rules → Type 0) (rt : Runtime) (failure : Option Text)
    → Keeps seen (handle_disconnect rt failure)
unfolding handle_disconnect
handle_disconnect-Keeps seen rt failure =
    keeping (λ s h. (disconnect-Keeps seen rt failure s.session_id).keeps s h)

no_recipients-IsSafe :
    (seen : Rules → Type 0) (s : Session) → IsSafe seen s → IsSafe seen (record s { rcpt_tos = [] })
no_recipients-IsSafe seen s h = record {
  recipients = record { distinct = tt; served = tt; bounded = inl refl };
  calls = h.calls;
}

Step-IsSafe :
    {seen : Rules → Type 0} {s t : Session} → Step seen s t → IsSafe seen s → IsSafe seen t
Step-IsSafe {seen} (connects rt s) h = (handle_connect-Keeps seen rt).keeps s h
Step-IsSafe {seen} (names rules rt address s now) h =
    (handle_rcpt-Keeps seen rules rt address now).keeps s h
Step-IsSafe {seen} (sends rules rt n s now) h = (handle_data-Keeps seen rules rt n now).keeps s h
Step-IsSafe {seen} (quits rt s) h = (handle_quit-Keeps seen rt).keeps s h
Step-IsSafe {seen} (disconnects rt failure s) h =
    (handle_disconnect-Keeps seen rt failure).keeps s h
Step-IsSafe {seen} (resets s) h = no_recipients-IsSafe seen s h

-- In every session, whatever commands come in whatever order and whatever calls fail, where each
-- command reads its own rules (settings, limits and served domains), any of those that the
-- session may see: the recipients are distinct, each is served by some of these rules, and there
-- are at most as many as some of them allow; and a message was only ever handed over with such
-- recipients, at least one, at most as many as some of the rules allow that also bound its
-- content by their effective size limit. For rules that do not change, these are always the same
-- rules.
pub Reach-IsSafe : (seen : Rules → Type 0) (s : Session) → Reach seen s → IsSafe seen s
Reach-IsSafe seen s fresh = record {
  recipients = record { distinct = tt; served = tt; bounded = inl refl };
  calls = tt;
}
Reach-IsSafe seen s (command {s = before} r step) = Step-IsSafe step (Reach-IsSafe seen before r)

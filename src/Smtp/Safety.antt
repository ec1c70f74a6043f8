-- ===== src/Smtp/Safety.antt =====
-- What every session of app/smtp/handler.py keeps, whatever commands come and whatever fails.
use rapid_inbox.Base.{
  ◌⊎◌, text_eq_iff, text_eq, codes, Text, ℕ, ◌≤◌, ◌<◌, ◌≡◌, refl, inl, inr, Bool, true, false, ◌||◌,
  Option, none, some, List, [], ◌∷◌, ◌++◌, arith, length, All, length-append, ltb, leb, eqb,
  if◌then◌else◌, Bool-cases,
}
use rapid_inbox.Smtp.Session.{
  connect, Event, error, Call, register_connection, ensure_session, record_rcpt, publish,
  record_event, close_session, accept_message, close_transport, Session, Rules, Runtime, Answer,
  log, call, publish_session_event, ensure_session_id, ensure_session_allowed, closing_on_error,
}
use rapid_inbox.Base.Result.{ok, err}
use rapid_inbox.Smtp.Handler.{
  holds, handle_connect, answer_rcpt, rcpt_body, handle_rcpt, effective_message_size_limit,
  after_accept, remove_prefix, add_recipient, data_body,
}

abbrev IsDistinct : List Text → Type 0
IsDistinct [] = Unit
IsDistinct (a ∷ addresses) = (holds a addresses ≡ false) × IsDistinct addresses

-- Recipients as RCPT lets them in: no two are the same; each is served, and there are not too many,
-- by rules of the session.
pub record Permitted (seen : Rules → Type 0) (rcpt_tos : List Text) : Type 0 where
  pub distinct : IsDistinct rcpt_tos
  pub served : All (λ a. (rules : Rules) × seen rules × (rules.serves a ≡ true)) rcpt_tos
  pub bounded :
      (length rcpt_tos ≡ 0)
      ⊎ (rules : Rules) × seen rules × (length rcpt_tos ≤ rules.max_recipients_per_message)

-- A message may be handed over if it has recipients, all permitted, and if by the rules of one
-- command there are not too many of them and its content is within the effective limit. No other
-- call is restricted.
abbrev pub MayCall : (Rules → Type 0) → Call → Type 0
MayCall seen (accept_message rcpt_tos n) =
    Permitted seen rcpt_tos
    × (0 < length rcpt_tos)
    × (rules : Rules) × seen rules
    × (length rcpt_tos ≤ rules.max_recipients_per_message)
    × (n ≤ effective_message_size_limit rules rcpt_tos)
MayCall seen _ = Unit

pub record IsSafe (seen : Rules → Type 0) (s : Session) : Type 0 where
  pub recipients : Permitted seen s.rcpt_tos
  pub calls : All (MayCall seen) s.calls

All-append {ℓ κ} :
    {A : Type ℓ} (P : A → Type κ) (xs : List A) (y : A) → All P xs → P y → All P (xs ++ y ∷ [])
All-append P [] y h k = (k, tt)
All-append P (x ∷ xs) y (p, h) k = (p, All-append P xs y h k)

log-IsSafe :
    (seen : Rules → Type 0) (c : Call) (s : Session)
    → MayCall seen c
    → IsSafe seen s
    → IsSafe seen (log c s)
log-IsSafe seen c s may h = record {
  recipients = h.recipients;
  calls = All-append (MayCall seen) s.calls c h.calls may;
}

-- The rest of a handler keeps sessions safe.
pub record Keeps (seen : Rules → Type 0) (rest : Session → Answer) : Type 0 where
  pub keeps : (s : Session) → IsSafe seen s → IsSafe seen (rest s).1

abbrev pub keeping :
    {seen : Rules → Type 0} {rest : Session → Answer}
    → ((s : Session) → IsSafe seen s → IsSafe seen (rest s).1)
    → Keeps seen rest
keeping f = record { keeps = f }

pub returns-Keeps : (seen : Rules → Type 0) (reply : Option Text) → Keeps seen (λ s. (ok reply, s))
returns-Keeps seen reply = keeping (λ s h. h)

pub call-Keeps :
    (seen : Rules → Type 0) (rt : Runtime) (c : Call) (rest : Session → Answer)
    → MayCall seen c
    → Keeps seen rest
    → Keeps seen (call rt c rest)
unfolding call
call-Keeps seen rt c rest may k = keeping (λ s h. elim (Bool-cases (rt.raises c)) [
  | inl raised ↦ rw raised (log-IsSafe seen c s may h)
  | inr done ↦ rw done (k.keeps (log c s) (log-IsSafe seen c s may h))
])

pub publish_session_event-Keeps :
    (seen : Rules → Type 0) (rt : Runtime) (e : Event) (rest : Session → Answer)
    → Keeps seen rest
    → Keeps seen (publish_session_event rt e rest)
unfolding publish_session_event
publish_session_event-Keeps seen rt e rest k =
    let recorded : Keeps seen (λ s. rest (log (record_event e) s)) =
      keeping (λ s h. k.keeps (log (record_event e) s) (log-IsSafe seen (record_event e) s tt h)) in
    keeping (call-Keeps seen rt (publish e) _ tt recorded).keeps

pub ensure_session_allowed-Keeps :
    (seen : Rules → Type 0) (rt : Runtime) (rest : Session → Answer)
    → Keeps seen rest
    → Keeps seen (ensure_session_allowed rt rest)
unfolding ensure_session_allowed
ensure_session_allowed-Keeps seen rt rest k =
    let admitted : Keeps seen
        (λ s. if rt.allowed then rest s else (ok (some (codes "421 " ++ rt.reason)), s)) =
      keeping (λ s h. elim (Bool-cases rt.allowed) [
        | inl yes_in ↦ rw yes_in (k.keeps s h)
        | inr kept_out ↦ rw kept_out h
      ]) in
    keeping (λ s h.
      (call-Keeps seen rt register_connection _ tt admitted).keeps (ensure_session_id rt s)
        (record { recipients = h.recipients; calls = h.calls }))

closing_on_error-IsSafe :
    (seen : Rules → Type 0) (a : Answer) → IsSafe seen a.1 → IsSafe seen (closing_on_error a).1
closing_on_error-IsSafe seen (ok reply, s) h = h
closing_on_error-IsSafe seen (err e, s) h = log-IsSafe seen (close_session error) s tt h

pub handle_connect-Keeps : (seen : Rules → Type 0) (rt : Runtime) → Keeps seen (handle_connect rt)
unfolding handle_connect
handle_connect-Keeps seen rt = ensure_session_allowed-Keeps seen rt _ (
    call-Keeps seen rt (ensure_session none) _ tt
      (publish_session_event-Keeps seen rt connect _ (returns-Keeps seen none)))

answer_rcpt-Keeps :
    (seen : Rules → Type 0) (rt : Runtime) (address : Text) (accepted : Bool) (e : Event)
    (reply : Text)
    → Keeps seen (answer_rcpt rt address accepted e reply)
unfolding answer_rcpt
answer_rcpt-Keeps seen rt address accepted e reply =
    call-Keeps seen rt (record_rcpt address accepted) _ tt
      (publish_session_event-Keeps seen rt e _ (returns-Keeps seen (some reply)))

holds-append :
    (a b : Text) (addresses : List Text)
    → holds a (addresses ++ b ∷ []) ≡ (holds a addresses || text_eq a b)
holds-append a b [] = ground arith
holds-append a b (c ∷ addresses) = ground (arith, holds-append a b addresses)

IsDistinct-append :
    (addresses : List Text) (b : Text)
    → IsDistinct addresses
    → holds b addresses ≡ false
    → IsDistinct (addresses ++ b ∷ [])
IsDistinct-append [] b d h = (refl, tt)
IsDistinct-append (a ∷ addresses) b (new, d) h = (
  ground (arith, holds-append a b addresses, text_eq_iff a b, text_eq_iff b a),
  IsDistinct-append addresses b d (ground arith),
)

add_recipient-IsSafe :
    (seen : Rules → Type 0) (rules : Rules) (address : Text) (s : Session)
    → seen rules
    → holds address s.rcpt_tos ≡ false
    → rules.serves address ≡ true
    → length s.rcpt_tos < rules.max_recipients_per_message
    → IsSafe seen s
    → IsSafe seen (add_recipient address s)
add_recipient-IsSafe seen rules address s now new served room h = record {
  recipients = record {
    distinct = IsDistinct-append s.rcpt_tos address h.recipients.distinct new;
    served = All-append _ s.rcpt_tos address h.recipients.served (rules, now, served);
    bounded = inr (rules, now, omega (arith, length-append s.rcpt_tos (address ∷ [])));
  };
  calls = h.calls;
}

rcpt_body-Keeps :
    (seen : Rules → Type 0) (rules : Rules) (rt : Runtime) (address : Text)
    → seen rules
    → Keeps seen (rcpt_body rules rt address)
unfolding rcpt_body
rcpt_body-Keeps seen rules rt address now = keeping (λ s h.
    elim (Bool-cases (holds address s.rcpt_tos)) [
      | inl known ↦ rw known ((answer_rcpt-Keeps seen rt address true _ _).keeps s h)
      | inr new ↦ elim (Bool-cases (rules.serves address)) [
        | inr unknown ↦ rw (new, unknown) ((answer_rcpt-Keeps seen rt address false _ _).keeps s h)
        | inl served ↦
            elim (Bool-cases (leb rules.max_recipients_per_message (length s.rcpt_tos))) [
              | inl full ↦
                  rw (new, served, full) ((answer_rcpt-Keeps seen rt address false _ _).keeps s h)
              | inr room ↦
                  rw (new, served, room)
                    ((answer_rcpt-Keeps seen rt address true _ _).keeps (add_recipient address s)
                      (add_recipient-IsSafe seen rules address s now new served (ground arith) h))
            ]
      ]
    ])

pub handle_rcpt-Keeps :
    (seen : Rules → Type 0) (rules : Rules) (rt : Runtime) (address : Text)
    → seen rules
    → Keeps seen (handle_rcpt rules rt address)
unfolding handle_rcpt
handle_rcpt-Keeps seen rules rt address now =
    let body : Keeps seen (λ s. closing_on_error (rcpt_body rules rt address s)) = keeping (λ s h.
      closing_on_error-IsSafe seen (rcpt_body rules rt address s)
        ((rcpt_body-Keeps seen rules rt address now).keeps s h)) in
    ensure_session_allowed-Keeps seen rt _
      (call-Keeps seen rt (ensure_session (some address)) _ tt body)

last_IsSafe :
    (seen : Rules → Type 0) (closes : Bool) (s : Session)
    → IsSafe seen s
    → IsSafe seen (if closes then log close_transport s else s)
last_IsSafe seen true s h = log-IsSafe seen close_transport s tt h
last_IsSafe seen false s h = h

after_accept-Keeps :
    (seen : Rules → Type 0) (rules : Rules) (rt : Runtime) (rest : Option Text)
    → Keeps seen (after_accept rules rt rest)
after_accept-Keeps seen rules rt none = returns-Keeps seen (some rt.reply)
after_accept-Keeps seen rules rt (some rest) = keeping (λ s h.
    (publish_session_event-Keeps seen rt _ _ (keeping (λ s' h'. last_IsSafe seen _ s' h'))).keeps s
      h)

pub data_body-Keeps :
    (seen : Rules → Type 0) (rules : Rules) (rt : Runtime) (n : ℕ)
    → seen rules
    → Keeps seen (data_body rules rt n)
unfolding data_body
data_body-Keeps seen rules rt n now = keeping (λ s h.
    elim (Bool-cases (eqb (length s.rcpt_tos) 0)) [
      | inl nobody ↦ rw nobody h
      | inr some_body ↦
          elim (Bool-cases (ltb rules.max_recipients_per_message (length s.rcpt_tos))) [
            | inl many ↦ rw (some_body, many) h
            | inr few ↦ elim (Bool-cases (ltb (effective_message_size_limit rules s.rcpt_tos) n)) [
              | inl large ↦ rw (some_body, few, large) h
              | inr small ↦
                  let accepted =
                    log-IsSafe seen (accept_message s.rcpt_tos n) s
                      (h.recipients, ground arith, rules, now, ground arith, ground arith) h in
                  elim (Bool-cases (rt.raises (accept_message s.rcpt_tos n))) [
                    | inl raised ↦
                        rw (some_body, few, small, raised)
                          (log-IsSafe seen (close_session error)
                            (log (accept_message s.rcpt_tos n) s) tt accepted)
                    | inr done ↦
                        rw (some_body, few, small, done)
                          ((after_accept-Keeps seen rules rt
                              (remove_prefix (codes "250 queued as ") rt.reply)).keeps
                            (log (accept_message s.rcpt_tos n) s) accepted)
                  ]
            ]
          ]
    ])

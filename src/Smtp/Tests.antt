-- ===== src/Smtp/Tests.antt =====
-- Tests of the SMTP handlers, and the example runs of their theorems.
use rapid_inbox.Base.{
  inr, inl, codes, Text, has_char, ◌<◌, ◌≡◌, refl, ◌≢◌, ◌⊎◌, Bool, true, false, ◌&&◌, none, some,
  List, [], ◌∷◌, ◌++◌, length, all, leb, eqb,
}
use rapid_inbox.Base.Result.{ok, err}
use rapid_inbox.Smtp.Session.{
  error, Call, register_connection, ensure_session, record_rcpt, publish, record_event,
  close_session, accept_message, close_transport, rcpt_accepted, queued, Session, Rules, Runtime,
  call, publish_session_event, ensure_session_allowed,
}
use rapid_inbox.Smtp.Handler.{
  holds, answer_rcpt, rcpt_body, handle_rcpt, limit_loop, effective_message_size_limit,
  remove_prefix, data_body, handle_data,
}
use rapid_inbox.Smtp.Limits.{Agrees, fits_domain, effective_message_size_limit_exact}
use rapid_inbox.Smtp.Safety.{IsSafe}
use rapid_inbox.Smtp.Reach.{new_session, Reach, fresh, command, names, sends, Reach-IsSafe}
use rapid_inbox.Smtp.Replies.{handle_rcpt_recipients, handle_rcpt_raises}

abbrev ann : Text
ann = codes "ann@x.org"

abbrev bob : Text
bob = codes "bob@x.org"

abbrev rules : Rules
rules = record {
  serves = has_char 64;
  match_with_limit = λ a. some (7, some 100);
  max_recipients_per_message = 2;
  max_message_size_bytes = 1000;
  smtp_close_after_data = true;
}

abbrev runtime : (Call → Bool) → Runtime
runtime raises = record {
  raises = raises;
  allowed = true;
  reason = [];
  fresh_id = codes "smtp_1";
  reply = codes "250 queued as m1";
  closed_lost = true;
  has_transport = true;
  is_space = λ c. eqb c 32;
}

abbrev fine : Runtime
fine = runtime (λ c. false)

abbrev is_rcpt_record : Call → Bool
is_rcpt_record (record_rcpt _ _) = true
is_rcpt_record _ = false

abbrev failing : Runtime
failing = runtime is_rcpt_record

abbrev after_rcpt : Session
after_rcpt = (handle_rcpt rules fine ann new_session).1

abbrev after_data : Session
after_data = (handle_data rules fine 99 after_rcpt).1

commands :
    ((handle_data rules fine 99 after_rcpt).0 ≡ ok (some (codes "250 queued as m1")))
    × (after_data.calls
        ≡ register_connection
          ∷ ensure_session (some ann)
          ∷ record_rcpt ann true
          ∷ publish (rcpt_accepted ann)
          ∷ record_event (rcpt_accepted ann)
          ∷ register_connection
          ∷ ensure_session none
          ∷ accept_message (ann ∷ []) 99
          ∷ publish (queued 1 (some (codes "m1")))
          ∷ record_event (queued 1 (some (codes "m1")))
          ∷ close_transport
          ∷ [])
    × ((handle_data rules fine 101 after_rcpt).0 ≡ ok (some (codes "552 message too large")))
    × ((handle_rcpt rules fine (codes "nobody") after_rcpt).0
        ≡ ok (some (codes "550 domain not allowed")))
unfolding handle_rcpt handle_data ensure_session_allowed call rcpt_body answer_rcpt
    publish_session_event data_body effective_message_size_limit limit_loop remove_prefix
commands = (refl, refl, refl, refl)

-- The limit is lowered between the two commands.
abbrev lowered : Rules
lowered = record rules { max_message_size_bytes = 99 }

abbrev Seen : Rules → Type 0
Seen r = (r ≡ rules) ⊎ (r ≡ lowered)

abbrev after_lowered : Session
after_lowered = (handle_data lowered fine 99 after_rcpt).1

reach2 : Reach Seen after_lowered
reach2 =
    command (command fresh (names rules fine ann new_session (inl refl)))
      (sends lowered fine 99 after_rcpt (inr refl))

Reach-IsSafe_example : IsSafe Seen after_lowered
Reach-IsSafe_example = Reach-IsSafe Seen after_lowered reach2

rules-Agrees : Agrees rules
rules-Agrees a b k l m e f = cc

effective_message_size_limit_exact_example :
    leb 99 (effective_message_size_limit rules (ann ∷ bob ∷ []))
    ≡ (leb 99 1000 && all (λ a. fits_domain 99 (rules.match_with_limit a)) (ann ∷ bob ∷ []))
effective_message_size_limit_exact_example =
    effective_message_size_limit_exact rules 99 (ann ∷ bob ∷ []) rules-Agrees

handle_rcpt_recipients_example :
    ((handle_rcpt rules fine bob after_rcpt).1.rcpt_tos ≡ after_rcpt.rcpt_tos)
      × ((holds bob after_rcpt.rcpt_tos ≡ true)
          ⊎ ((handle_rcpt rules fine bob after_rcpt).0 ≢ ok (some (codes "250 OK"))))
    ⊎ ((handle_rcpt rules fine bob after_rcpt).1.rcpt_tos ≡ after_rcpt.rcpt_tos ++ bob ∷ [])
      × (holds bob after_rcpt.rcpt_tos ≡ false)
      × (rules.serves bob ≡ true)
      × (length after_rcpt.rcpt_tos < rules.max_recipients_per_message)
handle_rcpt_recipients_example = handle_rcpt_recipients rules fine bob after_rcpt

failed : (handle_rcpt rules failing ann new_session).0 ≡ err tt
unfolding handle_rcpt ensure_session_allowed call rcpt_body answer_rcpt publish_session_event
failed = refl

handle_rcpt_raises_example :
    (failing.raises register_connection ≡ true)
    ⊎ (failing.raises (ensure_session (some ann)) ≡ true)
    ⊎ (before : List Call) × ((handle_rcpt rules failing ann new_session).1.calls
        ≡ before ++ close_session error ∷ [])
handle_rcpt_raises_example = handle_rcpt_raises rules failing ann new_session failed

-- ===== src/Writer/Service.antt =====
-- What a caller of `DatabaseWriter` in app/db/writer.py is served.
use rapid_inbox.Writer.Admission.{
  escaped, opened, closing, closed, Item, request, stop, Worker, absent, idle, running, failing,
  draining, exited, closed_error, Writer, is_opened, new_writer, grant_waiters, prepare_stop,
  release_capacity,
}
use rapid_inbox.Base.{
  ℕ, zero, suc, ◌+◌, ◌*◌, ◌<◌, ◌≡◌, refl, sym, ap, subst, ◌∙◌, ◌≢◌, ◌⊎◌, inl, inr, true, false,
  none, some, List, [], ◌∷◌, ◌++◌, arith, length, leb, Bool-cases,
}
use rapid_inbox.Writer.Actor.{submit, put_stop, take_item, finish_request}
use rapid_inbox.Writer.Counts.{count_granted, requests, stops, requests-append}
use rapid_inbox.Writer.Steps.{is_live, Reach, busy, IsSound}
use rapid_inbox.Writer.Reach.{Reach-IsSound}
use rapid_inbox.Writer.Submit.{queue_has_room}
use rapid_inbox.Writer.Shutdown.{put_stop-IsSound, take_item-IsSound, finish_request-IsSound}

-- As long as no rollback or close of a connection raises an error other than SQLite's, a
-- coroutine that holds a slot in a reachable state of a writer of positive capacity is never met
-- by a full queue or a counter underflow: while the writer is open its request goes to the end of
-- the queue; else it gets the closed error, the queue stays, and its slot is given back.
pub submit_total :
    (capacity waiters r : ℕ) (w : Writer)
    → 0 < capacity
    → Reach true (new_writer capacity waiters) w
    → 0 < w.in_hand
    → (w.state ≡ opened)
        × ((submit r w).1 ≡ none)
        × ((submit r w).0.queue ≡ w.queue ++ request r ∷ [])
      ⊎ (w.state ≢ opened)
        × ((submit r w).1 ≡ some closed_error)
        × ((submit r w).0.queue ≡ w.queue)
        × (suc (submit r w).0.outstanding ≡ w.outstanding)
unfolding submit prepare_stop
submit_total capacity waiters r w n reach held =
    let h = Reach-IsSound capacity waiters w n reach in
    elim (Bool-cases (is_opened w.state)) [
      | inl o ↦
          let full : leb w.queue_capacity (length w.queue) ≡ false =
            ground (arith, queue_has_room w h held o) in
          inl (ground arith, rw (o, full), rw (o, full))
      | inr o ↦
          let owned : leb w.outstanding 0 ≡ false = ground (arith, h.balance) in
          inr (
            ground arith,
            rw (o, owned),
            rw (o, owned) (ground arith),
            rw (o, owned) (ground arith),
          )
    ]

-- The worker's thread alone, with the sentinel's put: what happens once no coroutine holds a slot.
unfoldable pub serve_one : Writer → Worker → ℕ → Writer
unfolding put_stop take_item finish_request
serve_one w idle zero = take_item w w.queue
serve_one w idle (suc _) = put_stop w
serve_one w (running r) _ = finish_request w
serve_one w _ _ = w

unfoldable pub serve : ℕ → Writer → Writer
unfolding serve_one
serve zero w = w
serve (suc fuel) w = serve fuel (serve_one w w.worker w.stop_in_flight)

abbrev pub work_left : Writer → ℕ
work_left w = 3 * requests w.queue + 2 * busy w.worker + w.stop_in_flight

-- A closing writer whose slots are all in the queue or with the worker.
pub record IsDraining (w : Writer) : Type 0 where
  pub sound : IsSound w
  pub is_closing : w.state ≡ closing
  pub no_hand : w.in_hand ≡ 0
  pub no_grant : count_granted w.store ≡ 0
  pub live : is_live w.worker ≡ true

finish-IsDraining :
    (r : ℕ) (w : Writer)
    → IsDraining w
    → w.worker ≡ running r
    → IsDraining (finish_request w) × (work_left (finish_request w) < work_left w)
unfolding finish_request release_capacity grant_waiters prepare_stop
finish-IsDraining r w d e =
    let s = finish_request-IsSound r w d.sound e in
    let owned : leb w.outstanding 0 ≡ false = ground (arith, d.sound.balance) in
    let shut : is_opened w.state ≡ false = ground (arith, d.is_closing) in
    (
      record {
        sound = s;
        is_closing = rw (owned, shut) (ground (arith, d.is_closing));
        no_hand = rw (owned, shut) (ground (arith, d.no_hand));
        no_grant = rw (owned, shut) (ground (arith, d.no_grant));
        live = rw (owned, shut) (ground arith);
      },
      rw (owned, shut) (ground arith),
    )

put-IsDraining :
    (w : Writer)
    → IsDraining w
    → 0 < w.stop_in_flight
    → IsDraining (put_stop w) × (work_left (put_stop w) < work_left w)
unfolding put_stop requests
put-IsDraining w d n = (
  record {
    sound = put_stop-IsSound w d.sound n;
    is_closing = d.is_closing;
    no_hand = d.no_hand;
    no_grant = d.no_grant;
    live = d.live;
  },
  omega (arith, requests-append w.queue stop),
)

take-IsDraining :
    (w : Writer) (q : List Item)
    → w.queue ≡ q
    → IsDraining w
    → w.worker ≡ idle
    → w.stop_in_flight ≡ 0
    → ((take_item w q).worker ≡ exited)
        × ((take_item w q).state ≡ closed)
        × (requests (take_item w q).queue ≡ 0)
      ⊎ IsDraining (take_item w q) × (work_left (take_item w q) < work_left w)
unfolding take_item requests stops
take-IsDraining w [] e d i z =
    let s = ap stops e in
    absurd (ground (arith, s, ap requests e, d.sound.protocol, d.sound.balance, d.sound.announced))
take-IsDraining w (stop ∷ rest) e d i z =
    let q = ap requests e in
    inl (refl, refl, ground (arith, ap stops e, q, d.sound.protocol, d.sound.balance))
take-IsDraining w (request r ∷ rest) e d i z =
    let q = ap requests e in
    let s : IsSound (take_item w (request r ∷ rest)) =
      subst (λ x. IsSound (take_item w x)) e (take_item-IsSound w d.sound i) in
    inr (
      record {
        sound = s;
        is_closing = d.is_closing;
        no_hand = d.no_hand;
        no_grant = d.no_grant;
        live = refl;
      },
      ground (arith, q),
    )

serve_one-progress :
    (w : Writer) (k : Worker) (n : ℕ)
    → w.worker ≡ k
    → w.stop_in_flight ≡ n
    → IsDraining w
    → ((serve_one w k n).worker ≡ exited)
        × ((serve_one w k n).state ≡ closed)
        × (requests (serve_one w k n).queue ≡ 0)
      ⊎ IsDraining (serve_one w k n) × (work_left (serve_one w k n) < work_left w)
unfolding serve_one
serve_one-progress w idle zero e z d = take-IsDraining w w.queue refl d e z
serve_one-progress w idle (suc n) e z d = inr (put-IsDraining w d (omega arith))
serve_one-progress w (running r) n e z d = inr (finish-IsDraining r w d e)
serve_one-progress w absent n e z d = absurd (ground (arith, d.live))
serve_one-progress w (escaped done r) n e z d = absurd (ground (arith, d.live))
serve_one-progress w (failing r) n e z d = absurd (ground (arith, d.live))
serve_one-progress w draining n e z d = absurd (ground (arith, d.live))
serve_one-progress w exited n e z d = absurd (ground (arith, d.live))

serve-exited : (fuel : ℕ) (w : Writer) → w.worker ≡ exited → serve fuel w ≡ w
unfolding serve serve_one
serve-exited zero w e = refl
serve-exited (suc fuel) w e =
    let still : serve_one w w.worker w.stop_in_flight ≡ w =
      subst (λ k. serve_one w k w.stop_in_flight ≡ w) (sym e) refl in
    ap (serve fuel) still ∙ serve-exited fuel w e

serve-closed :
    (fuel : ℕ) (w : Writer)
    → IsDraining w
    → work_left w < fuel
    → ((serve fuel w).worker ≡ exited)
      × ((serve fuel w).state ≡ closed)
      × (requests (serve fuel w).queue ≡ 0)
unfolding serve
serve-closed zero w d h = elim h [ ]
serve-closed (suc fuel) w d h = elim (serve_one-progress w w.worker w.stop_in_flight refl refl d) [
  | inl (gone, shut, none_left) ↦
      rw (serve-exited fuel (serve_one w w.worker w.stop_in_flight) gone) (gone, shut, none_left)
  | inr (d', less) ↦ serve-closed fuel (serve_one w w.worker w.stop_in_flight) d' (omega arith)
]

-- From any state of a writer of positive capacity that is reached while no rollback or close of a
-- connection raises an error other than SQLite's, and in which close has begun and no coroutine
-- and no granted waiter holds a slot, a live worker runs every queued request and then exits and
-- closes the writer, within any number of steps above three for each queued request, two for a
-- running one and one for a stop sentinel still to be put.
pub shutdown_ends :
    (capacity waiters fuel : ℕ) (w : Writer)
    → 0 < capacity
    → Reach true (new_writer capacity waiters) w
    → w.state ≡ closing
    → w.in_hand ≡ 0
    → count_granted w.store ≡ 0
    → is_live w.worker ≡ true
    → work_left w < fuel
    → ((serve fuel w).worker ≡ exited)
      × ((serve fuel w).state ≡ closed)
      × (requests (serve fuel w).queue ≡ 0)
shutdown_ends capacity waiters fuel w n reach c hand grant live enough =
    serve-closed fuel w
      (record {
        sound = Reach-IsSound capacity waiters w n reach;
        is_closing = c;
        no_hand = hand;
        no_grant = grant;
        live = live;
      })
      enough

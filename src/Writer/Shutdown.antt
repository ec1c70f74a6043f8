-- ===== src/Writer/Shutdown.antt =====
-- Shutdown and the worker's operations keep the writer's invariant.
use rapid_inbox.Writer.Admission.{
  escaped, Phase, closing, closed, Item, request, stop, Worker, absent, idle, running, failing,
  draining, Writer, is_opened, waiting_count, reject_all,
}
use rapid_inbox.Writer.Actor.{
  escaping, escape_request, put_stop, close, start_close, closing_unless_closed, take_item,
  finish_request, begin_fatal_shutdown, fail_active, fail_owned,
}
use rapid_inbox.Base.{
  false, ◌⊎◌, ℕ, suc, ◌-◌, ◌<◌, ◌≡◌, refl, ap, inl, inr, Bool, true, not, ◌&&◌, List, [], ◌∷◌,
  arith, eqb, Bool-cases,
}
use rapid_inbox.Writer.Counts.{
  requests, stops, requests-append, stops-append, count_granted-reject_all,
}
use rapid_inbox.Writer.Steps.{is_live, IsBalanced, FollowsProtocol, IsSound}
use rapid_inbox.Writer.Ops.{release-IsSound}

pub put_stop-IsSound : (w : Writer) → IsSound w → 0 < w.stop_in_flight → IsSound (put_stop w)
unfolding put_stop stops requests
put_stop-IsSound w h n =
    let q = requests-append w.queue stop in
    let s = stops-append w.queue stop in
    record {
      balance = record {
        positive = h.balance.positive;
        balanced = omega (arith, h.balance.balanced, q);
        bounded = h.balance.bounded;
        parked_bound = h.balance.parked_bound;
        in_range = h.balance.in_range;
      };
      fed = h.fed;
      protocol = ground (arith, q, s, h.protocol);
      announced = h.announced;
    }

-- Emptying the deque leaves no waiter waiting and no slot lost.
emptied-IsBalanced :
    (w : Writer) (p : Phase) (e : Bool) (n : ℕ)
    → IsBalanced w
    → IsBalanced (record w {
      state = p;
      store = reject_all w.store w.admission_waiters;
      admission_waiters = [];
      stop_enqueued = e;
      stop_in_flight = n;
    })
unfolding waiting_count
emptied-IsBalanced w p e n b = record {
  positive = b.positive;
  balanced = omega (arith, b.balanced, count_granted-reject_all w.store w.admission_waiters);
  bounded = b.bounded;
  parked_bound = omega arith;
  in_range = tt;
}

start_close-IsSound :
    (w : Writer) (k : Worker)
    → w.worker ≡ k
    → IsSound w
    → is_opened w.state ≡ true
    → (eqb w.outstanding 0 && not w.stop_enqueued) ≡ true
    → IsSound (
        start_close k (record w {
          state = closing;
          store = reject_all w.store w.admission_waiters;
          admission_waiters = [];
        }))
start_close-IsSound w absent e h o quiet = record {
  balance = emptied-IsBalanced w closed w.stop_enqueued w.stop_in_flight h.balance;
  fed = ground arith;
  protocol = ground (arith, h.protocol);
  announced = ground arith;
}
start_close-IsSound w k e h o quiet = record {
  balance = emptied-IsBalanced w closing true (suc w.stop_in_flight) h.balance;
  fed = ground arith;
  protocol = ground (arith, h.protocol, h.balance);
  announced = ground arith;
}

pub close-IsSound : (w : Writer) → IsSound w → IsSound (close w)
unfolding close
close-IsSound w h = elim (Bool-cases (is_opened w.state)) [
  | inl o ↦ elim (Bool-cases (eqb w.outstanding 0 && not w.stop_enqueued)) [
    | inl quiet ↦ rw (o, quiet) (start_close-IsSound w w.worker refl h o quiet)
    | inr owned ↦
        rw (o, owned)
          (record {
            balance = emptied-IsBalanced w closing w.stop_enqueued w.stop_in_flight h.balance;
            fed = ground arith;
            protocol = ground (arith, h.protocol);
            announced = ground (arith, h.protocol);
          })
  ]
  | inr o ↦ rw o h
]

take-IsSound :
    (w : Writer) (q : List Item)
    → w.queue ≡ q
    → IsSound w
    → w.worker ≡ idle
    → IsSound (take_item w q)
unfolding take_item requests stops
take-IsSound w [] e h i = h
take-IsSound w (request r ∷ rest) e h i =
    let q = ap requests e in
    let s = ap stops e in
    record {
      balance = ground (arith, q, h.balance);
      fed = h.fed;
      protocol = ground (arith, q, s, h.protocol, h.balance);
      announced = h.announced;
    }
take-IsSound w (stop ∷ rest) e h i =
    let q = ap requests e in
    let s = ap stops e in
    record {
      balance = ground (arith, q, h.balance);
      fed = ground arith;
      protocol = ground (arith, q, s, h.protocol, h.balance);
      announced = ground arith;
    }

pub take_item-IsSound : (w : Writer) → IsSound w → w.worker ≡ idle → IsSound (take_item w w.queue)
take_item-IsSound w = take-IsSound w w.queue refl

pub finish_request-IsSound :
    (r : ℕ) (w : Writer) → IsSound w → w.worker ≡ running r → IsSound (finish_request w)
unfolding finish_request
finish_request-IsSound r w h e =
    let v : Writer = record w { worker = idle } in
    let b : IsBalanced (record v { outstanding = w.outstanding - 1 }) = ground (arith, h.balance) in
    let p : FollowsProtocol (record v { outstanding = w.outstanding - 1 }) =
      ground (arith, h.protocol) in
    let (g, u, released, s) = release-IsSound v (ground (arith, h.balance)) b p in rw released s

pub escape_request-IsSound :
    (r : ℕ) (w : Writer) → IsSound w → w.worker ≡ running r → IsSound (escape_request true w)
unfolding escape_request
escape_request-IsSound r w h e =
    let v : Writer = record w { worker = escaping true w.worker } in
    let b : IsBalanced (record v { outstanding = w.outstanding - 1 }) = ground (arith, h.balance) in
    let p : FollowsProtocol (record v { outstanding = w.outstanding - 1 }) =
      ground (arith, h.protocol) in
    let (g, u, released, s) = release-IsSound v (ground (arith, h.balance)) b p in rw released s

-- A thread that fails with its slot, or that has released it with the result done.
abbrev CanFail : Worker → Type 0
CanFail k = (is_live k ≡ true) ⊎ (r : ℕ) × (k ≡ escaped true r)

shut_down-IsSound : (w : Writer) → IsSound w → CanFail w.worker → IsSound (begin_fatal_shutdown w)
unfolding begin_fatal_shutdown
shut_down-IsSound w h can =
    let b = emptied-IsBalanced w (closing_unless_closed w.state) true w.stop_in_flight h.balance in
    record {
      balance = record {
        positive = b.positive;
        balanced = ground (arith, b.balanced, can);
        bounded = b.bounded;
        parked_bound = b.parked_bound;
        in_range = b.in_range;
      };
      fed = ground arith;
      protocol = ground (arith, h.protocol, h.balance, can);
      announced = ground arith;
    }

pub begin_fatal_shutdown-IsSound :
    (w : Writer) → IsSound w → is_live w.worker ≡ true → IsSound (begin_fatal_shutdown w)
begin_fatal_shutdown-IsSound w h live = shut_down-IsSound w h (inl live)

-- A sound writer's thread has set the result before the exception left it.
pub fails_escaped-IsSound :
    (done : Bool) (r : ℕ) (w : Writer)
    → IsSound w
    → w.worker ≡ escaped done r
    → IsSound (begin_fatal_shutdown w)
fails_escaped-IsSound true r w h e = shut_down-IsSound w h (inr (r, e))
fails_escaped-IsSound false r w h e = absurd (ground (arith, h.protocol))

pub fail_active-IsSound :
    (r : ℕ) (w : Writer) → IsSound w → w.worker ≡ failing r → IsSound (fail_active w)
unfolding fail_active
fail_active-IsSound r w h e =
    let v : Writer = record w { worker = draining } in
    let b : IsBalanced (record v { outstanding = w.outstanding - 1 }) = ground (arith, h.balance) in
    let p : FollowsProtocol (record v { outstanding = w.outstanding - 1 }) =
      ground (arith, h.protocol) in
    let (g, u, released, s) = release-IsSound v (ground (arith, h.balance)) b p in rw released s

fail-IsSound :
    (w : Writer) (q : List Item)
    → w.queue ≡ q
    → IsSound w
    → w.worker ≡ draining
    → IsSound (fail_owned w q)
unfolding fail_owned requests stops
fail-IsSound w [] e h i =
    let q = ap requests e in
    record {
      balance = ground (arith, q, h.balance);
      fed = ground arith;
      protocol = ground (arith, q, h.protocol);
      announced = ground arith;
    }
fail-IsSound w (request r ∷ rest) e h i =
    let q = ap requests e in
    let s = ap stops e in
    let v : Writer = record w { queue = rest } in
    let b : IsBalanced (record v { outstanding = w.outstanding - 1 }) =
      ground (arith, q, h.balance) in
    let p : FollowsProtocol (record v { outstanding = w.outstanding - 1 }) =
      ground (arith, q, s, h.protocol) in
    let (g, u, released, sound) = release-IsSound v (ground (arith, q, h.balance)) b p in
    rw released sound
fail-IsSound w (stop ∷ rest) e h i =
    let q = ap requests e in
    let s = ap stops e in
    record {
      balance = ground (arith, q, h.balance);
      fed = h.fed;
      protocol = ground (arith, q, s, h.protocol);
      announced = h.announced;
    }

pub fail_owned-IsSound :
    (w : Writer) → IsSound w → w.worker ≡ draining → IsSound (fail_owned w w.queue)
fail_owned-IsSound w = fail-IsSound w w.queue refl

-- ===== src/Pool/Workers.antt =====
-- The worker threads of app/db/read_pool.py keep the pool's invariant.
use rapid_inbox.Pool.Admit.{settle}
use rapid_inbox.Pool.Sums.{
  load, acked, Serving, Drained, Parked, Winding, Orderly, All-set, All-get, loads-set, acks-set,
}
use rapid_inbox.Base.{
  subst, ℕ, suc, ◌+◌, ◌-◌, ◌≤◌, ◌<◌, ◌≡◌, refl, sym, ap, ◌∙◌, inl, inr, Bool, false, none, some,
  arith, get_elem?, length-set, leb, if◌then◌else◌,
}
use rapid_inbox.Pool.State.{
  idle, running, PoolWorker, Pool, give_back, advance_lifecycle, grant_waiters, release_capacity,
}
use rapid_inbox.Pool.Actor.{set_worker, released_or, finish_request}
use rapid_inbox.Pool.Steps.{
  IsBalanced, Unended, Protocol, serving, drain, halted, winding, ending, IsHealthy,
}

-- A worker may take the place of another in the same phase.
pub record Keeps (w u : PoolWorker) : Type 0 where
  pub serves : Serving w → Serving u
  pub drains : Drained w → Drained u × (acked u ≡ acked w)
  pub parks : Parked w → Parked u
  pub winds : Winding w → Winding u
  pub orders : Orderly w → Orderly u

module _ (i : ℕ) (w u : PoolWorker) (p : Pool) (n : ℕ) where
  abbrev moved : Pool
  moved = record (set_worker i u p) { outstanding = n }

  pub set_worker-IsBalanced :
      get_elem? p.workers i ≡ some w
      → n + load w ≡ p.outstanding + load u
      → n ≤ p.queue_capacity
      → IsBalanced p
      → IsBalanced moved
  set_worker-IsBalanced e l m b = record {
    positive = b.positive;
    manned = b.manned;
    staffed = length-set p.workers i u ∙ b.staffed;
    next = b.next;
    balanced = omega (arith, b.balanced, loads-set p.workers i u e);
    bounded = m;
    parked_bound = b.parked_bound;
    in_range = b.in_range;
  }

  pub keep : {c : Bool} → Unended p c → Unended moved c
  keep h = record { unstopped = h.unstopped; unharmed = h.unharmed; controlled = h.controlled }

  set_worker-Protocol :
      get_elem? p.workers i ≡ some w
      → (p.outstanding ≡ 0 → n ≡ 0)
      → Keeps w u
      → Protocol p
      → Protocol moved
  set_worker-Protocol e z k (serving a h c d) =
      serving a (keep h) c
        (All-set Serving p.workers i d (k.serves (All-get Serving p.workers i d e)))
  set_worker-Protocol e z k (drain a h c d f g) =
      let (v, x) = k.drains (All-get Drained p.workers i g e) in
      drain a (keep h) (z c) (omega (arith, acks-set p.workers i u e)) f
        (All-set Drained p.workers i g v)
  set_worker-Protocol e z k (halted a h c d) =
      halted a (keep h) (z c)
        (All-set Parked p.workers i d (k.parks (All-get Parked p.workers i d e)))
  set_worker-Protocol e z k (winding a b c d) =
      winding a b c (All-set Winding p.workers i d (k.winds (All-get Winding p.workers i d e)))
  set_worker-Protocol e z k (ending a (inl b) c) =
      ending a (inl b) (All-set Orderly p.workers i c (k.orders (All-get Orderly p.workers i c e)))
  set_worker-Protocol e z k (ending a (inr (inl b)) c) =
      ending a (inr (inl (z b)))
        (All-set Orderly p.workers i c (k.orders (All-get Orderly p.workers i c e)))
  set_worker-Protocol e z k (ending a (inr (inr b)) c) =
      ending a (inr (inr b))
        (All-set Orderly p.workers i c (k.orders (All-get Orderly p.workers i c e)))

-- A worker that goes on with the slots it has.
pub set_worker-IsHealthy :
    (i : ℕ) (w u : PoolWorker) (p : Pool)
    → get_elem? p.workers i ≡ some w
    → load w ≡ load u
    → Keeps w u
    → IsHealthy p
    → IsHealthy (set_worker i u p)
set_worker-IsHealthy i w u p e l k h = record {
  balance = set_worker-IsBalanced i w u p p.outstanding e (omega arith) h.balance.bounded h.balance;
  fed = h.fed;
  protocol = set_worker-Protocol i w u p p.outstanding e (λ z. z) k h.protocol;
  announced = h.announced;
}

-- A worker that gives up its slot: the release never underflows, and restores the invariant.
pub release-IsHealthy :
    (i : ℕ) (w u : PoolWorker) (p : Pool)
    → get_elem? p.workers i ≡ some w
    → load w ≡ suc (load u)
    → Keeps w u
    → IsHealthy p
    → (q : Pool) × (release_capacity (set_worker i u p) ≡ some q) × IsHealthy q
unfolding release_capacity
release-IsHealthy i w u p e l k h =
    let m : 0 < p.outstanding = omega (arith, h.balance.balanced, loads-set p.workers i u e) in
    let v : Pool = give_back (set_worker i u p) in
    let positive : leb p.outstanding 0 ≡ false = ground arith in
    (
      advance_lifecycle (grant_waiters v),
      ap (λ b. if b then none else some (advance_lifecycle (grant_waiters v))) positive,
      settle v
          (set_worker-IsBalanced i w u p (p.outstanding - 1) e (omega arith)
            (omega (arith, h.balance.bounded)) h.balance)
          (set_worker-Protocol i w u p (p.outstanding - 1) e (λ z. omega arith) k h.protocol)
          (ground (arith, h.fed)),
    )

-- The same for a section that handles an underflow in some way.
pub released-IsHealthy :
    (i : ℕ) (w u : PoolWorker) (p q : Pool)
    → get_elem? p.workers i ≡ some w
    → load w ≡ suc (load u)
    → Keeps w u
    → IsHealthy p
    → IsHealthy (released_or (release_capacity (set_worker i u p)) q)
released-IsHealthy i w u p q e l k h =
    let (v, x, s) = release-IsHealthy i w u p e l k h in
    subst (λ o. IsHealthy (released_or o q)) (sym x) s

pub finish-Keeps :
    (stays_open : Bool) (r : ℕ) (w : PoolWorker)
    → w.job ≡ running r
    → Keeps w (record w { connection_open = stays_open; job = idle })
finish-Keeps stays_open r w j = record {
  serves = λ h. record { queued = h.queued; serves = refl };
  drains = λ h. ground (arith, h.drained);
  parks = λ h. ground (arith, h.resting);
  winds = λ h. record { unstopped = h.unstopped; lives = refl };
  orders = λ h. record { ordered = h.ordered; left = ground arith };
}

pub finish_request-IsHealthy :
    (stays_open : Bool) (r i : ℕ) (w : PoolWorker) (p : Pool)
    → get_elem? p.workers i ≡ some w
    → w.job ≡ running r
    → IsHealthy p
    → IsHealthy (finish_request stays_open i w p)
unfolding finish_request
finish_request-IsHealthy stays_open r i w p e j h =
    let u : PoolWorker = record w { connection_open = stays_open; job = idle } in
    released-IsHealthy i w u p _ e (ground arith) (finish-Keeps stays_open r w j) h

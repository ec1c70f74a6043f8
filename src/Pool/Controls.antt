-- ===== src/Pool/Controls.antt =====
-- The acknowledgement of a pause and the failure of a worker of app/db/read_pool.py keep the pool's
-- invariant.
use rapid_inbox.Pool.Workers.{set_worker-IsBalanced}
use rapid_inbox.Pool.Dispatch.{unfed}
use rapid_inbox.Pool.Actor.{set_worker, acknowledge_pause}
use rapid_inbox.Base.{
  ℕ, suc, ◌≡◌, refl, ap, inl, inr, Bool, true, false, ◌&&◌, some, List, arith, get_elem?, set, All,
  length-set, eqb, Bool-cases,
}
use rapid_inbox.Pool.Queues.{park_all}
use rapid_inbox.Pool.Sums.{
  has_acked, is_drained, acked, Serving, Drained, Parked, Winding, Orderly, All-set, All-get,
  acks-set,
}
use rapid_inbox.Pool.State.{
  Phase, pausing, paused, Item, Job, idle, acking, PoolWorker, Pool, is_opened, is_pausing,
}
use rapid_inbox.Pool.Steps.{
  IsBalanced, Unended, Protocol, serving, drain, halted, winding, ending, IsHealthy,
}

ack_lem :
    (q : List Item) (c : Bool) (j : Job)
    → j ≡ acking
    → is_drained q c j ≡ true
    → (is_drained q c idle ≡ true) × (has_acked q idle ≡ suc (has_acked q j))
ack_lem q c j e h = ground arith

ack_parts :
    (w : PoolWorker)
    → w.job ≡ acking
    → Drained w
    → Drained (record w { job = idle }) × (acked (record w { job = idle }) ≡ suc (acked w))
ack_parts w j h =
    let (d, a) = ack_lem w.queue w.connection_open w.job j h.drained in (record { drained = d }, a)

acknowledged-IsBalanced :
    (i : ℕ) (w : PoolWorker) (p : Pool) (s : Phase)
    → get_elem? p.workers i ≡ some w
    → w.job ≡ acking
    → IsBalanced p
    → IsBalanced (record (set_worker i (record w { job = idle }) p) {
      pause_ack_count = suc p.pause_ack_count;
      state = s;
    })
acknowledged-IsBalanced i w p s e j h =
    let b =
      set_worker-IsBalanced i w (record w { job = idle }) p p.outstanding e (rw j refl) h.bounded
        h in
    record {
      positive = b.positive;
      manned = b.manned;
      staffed = b.staffed;
      next = b.next;
      balanced = b.balanced;
      bounded = b.bounded;
      parked_bound = b.parked_bound;
      in_range = b.in_range;
    }

not_acking : (w : PoolWorker) → w.job ≡ acking → (Serving w → ⊥) × (Parked w → ⊥)
not_acking w j = ((λ h. ground (arith, h.serves)), (λ h. ground (arith, h.resting)))

acknowledged-Protocol :
    (i : ℕ) (w : PoolWorker) (p : Pool)
    → get_elem? p.workers i ≡ some w
    → w.job ≡ acking
    → (eqb (suc p.pause_ack_count) p.max_connections && is_pausing p.state) ≡ false
    → IsBalanced p
    → Protocol p
    → Protocol (record (set_worker i (record w { job = idle }) p) {
      pause_ack_count = suc p.pause_ack_count;
    })
acknowledged-Protocol i w p e j k b (serving a h c d) =
    elim ((not_acking w j).0 (All-get Serving p.workers i d e)) [ ]
acknowledged-Protocol i w p e j k b (drain a h c d f g) =
    let (v, x) = ack_parts w j (All-get Drained p.workers i g e) in
    let u : PoolWorker = record w { job = idle } in
    let told : is_pausing p.state ≡ true = ap is_pausing a in
    let all_acked = acks-set p.workers i u e in
    drain a (record { unstopped = h.unstopped; unharmed = h.unharmed; controlled = h.controlled }) c
      (omega (arith, all_acked)) (ground arith) (All-set Drained p.workers i g v)
acknowledged-Protocol i w p e j k b (halted a h c d) =
    elim ((not_acking w j).1 (All-get Parked p.workers i d e)) [ ]
acknowledged-Protocol i w p e j k b (winding a c d f) =
    let h = All-get Winding p.workers i f e in
    winding a c d (All-set Winding p.workers i f (record { unstopped = h.unstopped; lives = refl }))
acknowledged-Protocol i w p e j k b (ending a c d) =
    let h = All-get Orderly p.workers i d e in
    ending a c (
      All-set Orderly p.workers i d
        (record { ordered = h.ordered; left = inl (λ x. ground arith) }))

-- The last acknowledgement finds every worker parked.
acknowledged_drains :
    (i : ℕ) (w : PoolWorker) (p : Pool)
    → get_elem? p.workers i ≡ some w
    → w.job ≡ acking
    → (eqb (suc p.pause_ack_count) p.max_connections && is_pausing p.state) ≡ true
    → IsBalanced p
    → Protocol p
    → (p.state ≡ pausing)
      × Unended p true
      × (p.outstanding ≡ 0)
      × All Parked (set p.workers i (record w { job = idle }))
acknowledged_drains i w p e j k b (serving a h c d) =
    elim ((not_acking w j).0 (All-get Serving p.workers i d e)) [ ]
acknowledged_drains i w p e j k b (drain a h c d f g) =
    let (v, x) = ack_parts w j (All-get Drained p.workers i g e) in
    let u : PoolWorker = record w { job = idle } in
    let full : suc p.pause_ack_count ≡ p.max_connections = ground arith in
    let all_acked = acks-set p.workers i u e in
    (
      a,
      h,
      c,
      park_all (set p.workers i u) (All-set Drained p.workers i g v)
          (omega (arith, b.staffed, length-set p.workers i u)),
    )
acknowledged_drains i w p e j k b (halted a h c d) =
    elim ((not_acking w j).1 (All-get Parked p.workers i d e)) [ ]
acknowledged_drains i w p e j k b (winding a c d f) = ground arith
acknowledged_drains i w p e j k b (ending a c d) = ground arith

acknowledged-IsHealthy :
    (i : ℕ) (w : PoolWorker) (p : Pool)
    → get_elem? p.workers i ≡ some w
    → w.job ≡ acking
    → IsHealthy p
    → (eqb (suc p.pause_ack_count) p.max_connections && is_pausing p.state) ≡ false
    → IsHealthy (record (set_worker i (record w { job = idle }) p) {
      pause_ack_count = suc p.pause_ack_count;
    })
acknowledged-IsHealthy i w p e j h k =
    let u : PoolWorker = record w { job = idle } in
    record {
      balance = acknowledged-IsBalanced i w p p.state e j h.balance;
      fed = h.fed;
      protocol = acknowledged-Protocol i w p e j k h.balance h.protocol;
      announced = h.announced;
    }

parked-IsHealthy :
    (i : ℕ) (w : PoolWorker) (p : Pool)
    → get_elem? p.workers i ≡ some w
    → w.job ≡ acking
    → IsHealthy p
    → (eqb (suc p.pause_ack_count) p.max_connections && is_pausing p.state) ≡ true
    → IsHealthy (record (set_worker i (record w { job = idle }) p) {
      pause_ack_count = suc p.pause_ack_count;
      state = paused;
    })
parked-IsHealthy i w p e j h k =
    let (s, u, z, d) = acknowledged_drains i w p e j k h.balance h.protocol in
    record {
      balance = acknowledged-IsBalanced i w p paused e j h.balance;
      fed = inr (unfed p (ap is_opened s) h.fed);
      protocol =
          halted refl
            (record { unstopped = u.unstopped; unharmed = u.unharmed; controlled = u.controlled }) z
            d;
      announced = inr (refl, refl);
    }

pub acknowledge_pause-IsHealthy :
    (i : ℕ) (w : PoolWorker) (p : Pool)
    → get_elem? p.workers i ≡ some w
    → w.job ≡ acking
    → IsHealthy p
    → IsHealthy (acknowledge_pause i w p)
unfolding acknowledge_pause
acknowledge_pause-IsHealthy i w p e j h =
    elim (Bool-cases (eqb (suc p.pause_ack_count) p.max_connections && is_pausing p.state)) [
      | inl k ↦ rw k (parked-IsHealthy i w p e j h k)
      | inr k ↦ rw k (acknowledged-IsHealthy i w p e j h k)
    ]

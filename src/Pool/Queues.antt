-- ===== src/Pool/Queues.antt =====
-- What the controls of app/db/read_pool.py do to the workers' queues.
use rapid_inbox.Base.{
  ℕ, zero, suc, ◌+◌, ◌≤◌, ◌≡◌, refl, ◌≢◌, inl, Bool, true, false, List, [], ◌∷◌, ◌++◌, arith,
  length, All,
}
use rapid_inbox.Pool.State.{
  Item, read, pause, stop, Job, idle, running, acking, failing, draining, exited, PoolWorker,
  put_item, put_all,
}
use rapid_inbox.Pool.Actor.{put_others}
use rapid_inbox.Pool.Sums.{
  reads, only_reads, no_stop, orderly, busy, is_serving, is_live, is_drained, has_acked, Serving,
  Drained, Parked, Winding, Orderly, load, acked, loads, acks,
}

pub reads-append : (q : List Item) (x : Item) → reads (q ++ x ∷ []) ≡ reads q + reads (x ∷ [])
unfolding reads
reads-append [] x = omega arith
reads-append (read r ∷ q) x = omega (arith, reads-append q x)
reads-append (pause ∷ q) x = reads-append q x
reads-append (stop ∷ q) x = reads-append q x

only_reads-append :
    (q : List Item) (r : ℕ) → only_reads q ≡ true → only_reads (q ++ read r ∷ []) ≡ true
unfolding only_reads
only_reads-append [] r h = refl
only_reads-append (read s ∷ q) r h = only_reads-append q r h
only_reads-append (pause ∷ q) r h = cc
only_reads-append (stop ∷ q) r h = cc

no_stop-append : (q : List Item) (r : ℕ) → no_stop q ≡ true → no_stop (q ++ read r ∷ []) ≡ true
unfolding no_stop
no_stop-append [] r h = refl
no_stop-append (read s ∷ q) r h = no_stop-append q r h
no_stop-append (pause ∷ q) r h = no_stop-append q r h
no_stop-append (stop ∷ q) r h = cc

orderly-append : (q : List Item) → orderly q ≡ true → orderly (q ++ stop ∷ []) ≡ true
unfolding orderly reads
orderly-append [] h = refl
orderly-append (read s ∷ q) h = orderly-append q h
orderly-append (pause ∷ q) h = orderly-append q h
orderly-append (stop ∷ q) h = rw (reads-append q stop) (ground arith)

no_stop-of_only_reads : (q : List Item) → only_reads q ≡ true → no_stop q ≡ true
unfolding only_reads no_stop
no_stop-of_only_reads [] h = refl
no_stop-of_only_reads (read s ∷ q) h = no_stop-of_only_reads q h
no_stop-of_only_reads (pause ∷ q) h = cc
no_stop-of_only_reads (stop ∷ q) h = cc

orderly-of_no_stop : (q : List Item) → no_stop q ≡ true → orderly q ≡ true
unfolding orderly no_stop
orderly-of_no_stop [] h = refl
orderly-of_no_stop (read s ∷ q) h = orderly-of_no_stop q h
orderly-of_no_stop (pause ∷ q) h = orderly-of_no_stop q h
orderly-of_no_stop (stop ∷ q) h = cc

empty-of_only_reads : (q : List Item) → only_reads q ≡ true → reads q ≡ 0 → q ≡ []
unfolding only_reads reads
empty-of_only_reads [] h e = refl
empty-of_only_reads (read s ∷ q) h e = ground arith
empty-of_only_reads (pause ∷ q) h e = cc
empty-of_only_reads (stop ∷ q) h e = cc

is_live-of_serving : (j : Job) → is_serving j ≡ true → is_live j ≡ true
is_live-of_serving idle h = refl
is_live-of_serving (running r) h = refl
is_live-of_serving acking h = refl
is_live-of_serving (failing r) h = cc
is_live-of_serving draining h = cc
is_live-of_serving exited h = cc

exited-is_live : (j : Job) → is_live j ≡ true → j ≢ exited
exited-is_live j h e = ground arith

pub Serving-put : (w : PoolWorker) (r : ℕ) → Serving w → Serving (put_item (read r) w)
Serving-put w r h = record { queued = only_reads-append w.queue r h.queued; serves = h.serves }

pub Winding-put : (w : PoolWorker) (r : ℕ) → Winding w → Winding (put_item (read r) w)
Winding-put w r h = record { unstopped = no_stop-append w.queue r h.unstopped; lives = h.lives }

pub Winding-of_Serving : (w : PoolWorker) → Serving w → Winding w
Winding-of_Serving w h = record {
  unstopped = no_stop-of_only_reads w.queue h.queued;
  lives = is_live-of_serving w.job h.serves;
}

drained_lem :
    (q : List Item) (c : Bool) (j : Job)
    → is_drained q c j ≡ true
    → (no_stop q ≡ true) × (is_live j ≡ true) × (reads q + busy j ≡ 0)
unfolding no_stop reads
drained_lem q c j h = ground arith

pub Winding-of_Drained : (w : PoolWorker) → Drained w → Winding w
Winding-of_Drained w h =
    let (u, l, _) = drained_lem w.queue w.connection_open w.job h.drained in
    record { unstopped = u; lives = l }

pub Winding-of_Parked : (w : PoolWorker) → Parked w → Winding w
unfolding no_stop
Winding-of_Parked w h = record { unstopped = rw h.emptied refl; lives = rw h.resting refl }

pub Serving-of_Parked : (w : PoolWorker) → Parked w → Serving w
unfolding only_reads
Serving-of_Parked w h = record { queued = rw h.emptied refl; serves = rw h.resting refl }

pub Orderly-of_Winding : (w : PoolWorker) → Winding w → Orderly w
Orderly-of_Winding w h = record {
  ordered = orderly-of_no_stop w.queue h.unstopped;
  left = inl (exited-is_live w.job h.lives);
}

pub Orderly-put : (w : PoolWorker) → Orderly w → Orderly (put_item stop w)
unfolding reads
Orderly-put w h = record {
  ordered = orderly-append w.queue h.ordered;
  left = rw (reads-append w.queue stop) (ground (arith, h.left));
}

pub loads-put_all :
    (x : Item) (workers : List PoolWorker)
    → reads (x ∷ []) ≡ 0
    → loads (put_all x workers) ≡ loads workers
unfolding loads put_all
loads-put_all x [] h = refl
loads-put_all x (w ∷ workers) h = omega (arith, reads-append w.queue x, loads-put_all x workers h)

pub loads-put_others :
    (i : ℕ) (x : Item) (workers : List PoolWorker)
    → reads (x ∷ []) ≡ 0
    → loads (put_others i x workers) ≡ loads workers
unfolding loads put_others
loads-put_others i x [] h = refl
loads-put_others zero x (w ∷ workers) h = omega (arith, loads-put_all x workers h)
loads-put_others (suc i) x (w ∷ workers) h =
    omega (arith, reads-append w.queue x, loads-put_others i x workers h)

pub length-put_all :
    (x : Item) (workers : List PoolWorker) → length (put_all x workers) ≡ length workers
unfolding put_all
length-put_all x [] = refl
length-put_all x (w ∷ workers) = omega (arith, length-put_all x workers)

pub length-put_others :
    (i : ℕ) (x : Item) (workers : List PoolWorker)
    → length (put_others i x workers) ≡ length workers
unfolding put_others
length-put_others i x [] = refl
length-put_others zero x (w ∷ workers) = omega (arith, length-put_all x workers)
length-put_others (suc i) x (w ∷ workers) = omega (arith, length-put_others i x workers)

-- No slot is out in the workers: nobody reads and nothing is queued.
Drained-of_empty :
    (w : PoolWorker)
    → Serving w
    → load w ≡ 0
    → Drained (put_item pause w) × (acked (put_item pause w) ≡ 0)
Drained-of_empty w h e =
    let q : w.queue ≡ [] = empty-of_only_reads w.queue h.queued (omega arith) in
    let j : w.job ≡ idle = ground arith in (record { drained = rw (q, j) refl }, rw q refl)

pub pause_all :
    (workers : List PoolWorker)
    → All Serving workers
    → loads workers ≡ 0
    → All Drained (put_all pause workers) × (acks (put_all pause workers) ≡ 0)
unfolding loads put_all acks
pause_all [] h e = (tt, refl)
pause_all (w ∷ workers) (h, hs) e =
    let (d, a) = Drained-of_empty w h (omega arith) in
    let (ds, none_acked) = pause_all workers hs (omega arith) in ((d, ds), omega arith)

acked-bound : (w : PoolWorker) → acked w ≤ 1
acked-bound w = ground arith

pub acks-bound : (workers : List PoolWorker) → acks workers ≤ length workers
unfolding acks
acks-bound [] = omega arith
acks-bound (w ∷ workers) = omega (arith, acked-bound w, acks-bound workers)

parked_lem :
    (q : List Item) (c : Bool) (j : Job)
    → is_drained q c j ≡ true
    → has_acked q j ≡ 1
    → (q ≡ []) × (j ≡ idle) × (c ≡ false)
parked_lem q c j h e = ground arith

-- When every worker has acknowledged the pause, every worker is parked.
pub park_all :
    (workers : List PoolWorker)
    → All Drained workers
    → acks workers ≡ length workers
    → All Parked workers
unfolding acks
park_all [] h e = tt
park_all (w ∷ workers) (h, hs) e =
    let (q, j, c) =
      parked_lem w.queue w.connection_open w.job h.drained
        (omega (arith, acked-bound w, acks-bound workers)) in
    (
      record { emptied = q; resting = j; disconnected = c },
      park_all workers hs (omega (arith, acked-bound w, acks-bound workers)),
    )

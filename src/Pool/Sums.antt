-- ===== src/Pool/Sums.antt =====
-- Predicates and counts on the workers of app/db/read_pool.py, and lists of workers in general.
use rapid_inbox.Base.{
  subst, ℕ, zero, suc, ◌+◌, ◌≡◌, ◌≢◌, ◌⊎◌, Bool, true, false, some, List, [], ◌∷◌, arith, get_elem?,
  set, All, eqb, some_eq,
}
use rapid_inbox.Pool.State.{
  Item, read, pause, stop, Job, idle, running, acking, failing, exited, PoolWorker, put_item,
  put_all,
}
use rapid_inbox.Pool.Actor.{put_others}

unfoldable pub reads : List Item → ℕ
reads [] = 0
reads (read _ ∷ q) = suc (reads q)
reads (_ ∷ q) = reads q

unfoldable pub only_reads : List Item → Bool
only_reads [] = true
only_reads (read _ ∷ q) = only_reads q
only_reads (_ ∷ q) = false

unfoldable pub no_stop : List Item → Bool
no_stop [] = true
no_stop (stop ∷ q) = false
no_stop (_ ∷ q) = no_stop q

-- Nothing is to be read behind a sentinel.
unfoldable pub orderly : List Item → Bool
orderly [] = true
orderly (stop ∷ q) = eqb (reads q) 0
orderly (_ ∷ q) = orderly q

-- The slot of the request that a worker runs.
abbrev pub busy : Job → ℕ
busy (running _) = 1
busy (failing _) = 1
busy _ = 0

abbrev pub is_serving : Job → Bool
is_serving idle = true
is_serving (running _) = true
is_serving _ = false

abbrev pub is_live : Job → Bool
is_live acking = true
is_live j = is_serving j

-- A worker between its pause control and the end of the pause.
abbrev pub is_drained : List Item → Bool → Job → Bool
is_drained (pause ∷ []) _ idle = true
is_drained [] false acking = true
is_drained [] false idle = true
is_drained _ _ _ = false

abbrev pub has_acked : List Item → Job → ℕ
has_acked [] idle = 1
has_acked _ _ = 0

pub record Serving (w : PoolWorker) : Type 0 where
  pub queued : only_reads w.queue ≡ true
  pub serves : is_serving w.job ≡ true

pub record Drained (w : PoolWorker) : Type 0 where
  pub drained : is_drained w.queue w.connection_open w.job ≡ true

pub record Parked (w : PoolWorker) : Type 0 where
  pub emptied : w.queue ≡ []
  pub resting : w.job ≡ idle
  pub disconnected : w.connection_open ≡ false

pub record Winding (w : PoolWorker) : Type 0 where
  pub unstopped : no_stop w.queue ≡ true
  pub lives : is_live w.job ≡ true

pub record Orderly (w : PoolWorker) : Type 0 where
  pub ordered : orderly w.queue ≡ true
  pub left : (w.job ≢ exited) ⊎ (reads w.queue ≡ 0)

-- The slots that a worker and its queue hold.
abbrev pub load : PoolWorker → ℕ
load w = reads w.queue + busy w.job

abbrev pub acked : PoolWorker → ℕ
acked w = has_acked w.queue w.job

unfoldable pub loads : List PoolWorker → ℕ
loads [] = 0
loads (w ∷ workers) = load w + loads workers

unfoldable pub acks : List PoolWorker → ℕ
acks [] = 0
acks (w ∷ workers) = acked w + acks workers

pub loads-set :
    (workers : List PoolWorker) (i : ℕ) {w : PoolWorker} (u : PoolWorker)
    → get_elem? workers i ≡ some w
    → loads (set workers i u) + load w ≡ loads workers + load u
unfolding loads
loads-set [] i u h = cc
loads-set (v ∷ workers) zero {w} u h =
    let e : v ≡ w = some_eq h in
    subst (λ x. load u + loads workers + load x ≡ load v + loads workers + load u) e (omega arith)
loads-set (v ∷ workers) (suc i) u h = omega (arith, loads-set workers i u h)

pub acks-set :
    (workers : List PoolWorker) (i : ℕ) {w : PoolWorker} (u : PoolWorker)
    → get_elem? workers i ≡ some w
    → acks (set workers i u) + acked w ≡ acks workers + acked u
unfolding acks
acks-set [] i u h = cc
acks-set (v ∷ workers) zero {w} u h =
    let e : v ≡ w = some_eq h in
    subst (λ x. acked u + acks workers + acked x ≡ acked v + acks workers + acked u) e (omega arith)
acks-set (v ∷ workers) (suc i) u h = omega (arith, acks-set workers i u h)

module _ (P : PoolWorker → Type 0) where
  pub All-get :
      (workers : List PoolWorker) (i : ℕ) {w : PoolWorker}
      → All P workers
      → get_elem? workers i ≡ some w
      → P w
  All-get [] i h e = cc
  All-get (v ∷ workers) zero (h, hs) e = subst P (some_eq e) h
  All-get (v ∷ workers) (suc i) (h, hs) e = All-get workers i hs e

  pub All-set :
      (workers : List PoolWorker) (i : ℕ) {u : PoolWorker}
      → All P workers
      → P u
      → All P (set workers i u)
  All-set [] i h p = tt
  All-set (v ∷ workers) zero (h, hs) p = (p, hs)
  All-set (v ∷ workers) (suc i) (h, hs) p = (h, All-set workers i hs p)

  pub All-map :
      (Q : PoolWorker → Type 0)
      → ((w : PoolWorker) → P w → Q w)
      → (workers : List PoolWorker) → All P workers
      → All Q workers
  All-map Q f [] h = tt
  All-map Q f (w ∷ workers) (h, hs) = (f w h, All-map Q f workers hs)

  pub All-put_all :
      (Q : PoolWorker → Type 0) (x : Item)
      → ((w : PoolWorker) → P w → Q (put_item x w))
      → (workers : List PoolWorker) → All P workers
      → All Q (put_all x workers)
  unfolding put_all
  All-put_all Q x f [] h = tt
  All-put_all Q x f (w ∷ workers) (h, hs) = (f w h, All-put_all Q x f workers hs)

  pub All-put_others :
      (x : Item)
      → ((w : PoolWorker) → P w → P (put_item x w))
      → (i : ℕ) (workers : List PoolWorker) → All P workers
      → All P (put_others i x workers)
  unfolding put_others
  All-put_others x f i [] h = tt
  All-put_others x f zero (w ∷ workers) (h, hs) = (h, All-put_all P x f workers hs)
  All-put_others x f (suc i) (w ∷ workers) (h, hs) = (f w h, All-put_others x f i workers hs)

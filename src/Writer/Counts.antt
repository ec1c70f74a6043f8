-- ===== src/Writer/Counts.antt =====
-- Counts over the waiters and the queue, and what the loops of app/db/writer.py do to them.
use rapid_inbox.Base.{
  ℕ, zero, suc, ◌+◌, ◌≤◌, ◌<◌, ◌≡◌, refl, ◌⊎◌, inl, inr, true, false, Option, none, some, List, [],
  ◌∷◌, ◌++◌, arith, length, get_elem?, set, All, length-set, if◌then◌else◌, Bool-cases,
}
use rapid_inbox.Writer.Admission.{
  Admission, waiting, granted, consumed, cancelled, rejected, Item, request, stop, is_waiting,
  Granting, grant_from, drop_inactive, waiting_count, reject_all,
}

abbrev pub weight : Admission → ℕ
weight granted = 1
weight _ = 0

-- How many waiters hold a granted slot that they have not consumed.
unfoldable pub count_granted : List Admission → ℕ
count_granted [] = 0
count_granted (s ∷ states) = weight s + count_granted states

unfoldable pub requests : List Item → ℕ
requests [] = 0
requests (request _ ∷ q) = suc (requests q)
requests (stop ∷ q) = requests q

unfoldable pub stops : List Item → ℕ
stops [] = 0
stops (request _ ∷ q) = stops q
stops (stop ∷ q) = suc (stops q)

pub count_granted-set :
    (states : List Admission) (i : ℕ) {s : Admission} (t : Admission)
    → get_elem? states i ≡ some s
    → count_granted (set states i t) + weight s ≡ count_granted states + weight t
unfolding count_granted
count_granted-set [] i t h = cc
count_granted-set (a ∷ states) zero {s} t h = ground arith
count_granted-set (a ∷ states) (suc i) t h = omega (arith, count_granted-set states i t h)

pub count_granted-append :
    (states : List Admission) (s : Admission)
    → count_granted (states ++ s ∷ []) ≡ count_granted states + weight s
unfolding count_granted
count_granted-append [] s = omega arith
count_granted-append (a ∷ states) s = omega (arith, count_granted-append states s)

pub requests-append :
    (q : List Item) (x : Item) → requests (q ++ x ∷ []) ≡ requests q + requests (x ∷ [])
unfolding requests
requests-append [] x = omega arith
requests-append (request r ∷ q) x = omega (arith, requests-append q x)
requests-append (stop ∷ q) x = requests-append q x

pub stops-append : (q : List Item) (x : Item) → stops (q ++ x ∷ []) ≡ stops q + stops (x ∷ [])
unfolding stops
stops-append [] x = omega arith
stops-append (request r ∷ q) x = stops-append q x
stops-append (stop ∷ q) x = omega (arith, stops-append q x)

pub length-queue : (q : List Item) → length q ≡ requests q + stops q
unfolding requests stops
length-queue [] = omega arith
length-queue (request r ∷ q) = omega (arith, length-queue q)
length-queue (stop ∷ q) = omega (arith, length-queue q)

is_waiting-eq : (o : Option Admission) → is_waiting o ≡ true → o ≡ some waiting
is_waiting-eq none h = cc
is_waiting-eq (some waiting) h = refl
is_waiting-eq (some granted) h = cc
is_waiting-eq (some consumed) h = cc
is_waiting-eq (some cancelled) h = cc
is_waiting-eq (some rejected) h = cc

-- Leaving `waiting` adds no waiting entry anywhere.
waiting-set :
    (states : List Admission) (i j : ℕ) (t : Admission)
    → is_waiting (some t) ≡ false
    → is_waiting (get_elem? (set states i t) j) ≡ true
    → is_waiting (get_elem? states j) ≡ true
waiting-set [] i j t h k = k
waiting-set (a ∷ states) zero zero t h k = cc
waiting-set (a ∷ states) zero (suc j) t h k = k
waiting-set (a ∷ states) (suc i) zero t h k = k
waiting-set (a ∷ states) (suc i) (suc j) t h k = waiting-set states i j t h k

pub waiting_count-set :
    (states : List Admission) (i : ℕ) (t : Admission) (deque : List ℕ)
    → is_waiting (some t) ≡ false
    → waiting_count (set states i t) deque ≤ waiting_count states deque
unfolding waiting_count
waiting_count-set states i t [] h = omega arith
waiting_count-set states i t (j ∷ deque) h =
    ground (arith, waiting_count-set states i t deque h, waiting-set states i j t h)

pub waiting_count-drop_inactive :
    (states : List Admission) (deque : List ℕ)
    → waiting_count states (drop_inactive states deque) ≡ waiting_count states deque
unfolding waiting_count drop_inactive
waiting_count-drop_inactive states [] = refl
waiting_count-drop_inactive states (i ∷ deque) =
    ground (arith, waiting_count-drop_inactive states deque)

pub count_granted-reject_all :
    (states : List Admission) (deque : List ℕ)
    → count_granted (reject_all states deque) ≡ count_granted states
unfolding reject_all
count_granted-reject_all states [] = refl
count_granted-reject_all states (i ∷ deque) = elim (Bool-cases (is_waiting (get_elem? states i))) [
  | inl w ↦ rw w (
      omega (
        arith,
        count_granted-reject_all (set states i rejected) deque,
        count_granted-set states i rejected (is_waiting-eq _ w),
      ))
  | inr w ↦ rw w (count_granted-reject_all states deque)
]

pub length-reject_all :
    (states : List Admission) (deque : List ℕ) → length (reject_all states deque) ≡ length states
unfolding reject_all
length-reject_all states [] = refl
length-reject_all states (i ∷ deque) = ground (
  arith,
  length-reject_all (if is_waiting (get_elem? states i) then set states i rejected else states)
      deque,
  length-set states i rejected,
)

abbrev pub InRange : ℕ → List ℕ → Type 0
InRange n deque = All (λ i. i < n) deque

pub InRange-append : (n : ℕ) (deque : List ℕ) → InRange n deque → InRange (suc n) (deque ++ n ∷ [])
InRange-append n [] h = (omega arith, tt)
InRange-append n (i ∷ deque) (h, hs) = (omega arith, InRange-append n deque hs)

pub InRange-drop_inactive :
    (n : ℕ) (states : List Admission) (deque : List ℕ)
    → InRange n deque
    → InRange n (drop_inactive states deque)
unfolding drop_inactive
InRange-drop_inactive n states [] h = tt
InRange-drop_inactive n states (i ∷ deque) h =
    ground (arith, InRange-drop_inactive n states deque h.1)

get_elem?-append_lt :
    (states : List Admission) (s : Admission) (j : ℕ)
    → j < length states
    → get_elem? (states ++ s ∷ []) j ≡ get_elem? states j
get_elem?-append_lt [] s j h = elim h [ ]
get_elem?-append_lt (a ∷ states) s zero h = refl
get_elem?-append_lt (a ∷ states) s (suc j) h = get_elem?-append_lt states s j (omega arith)

-- Parking one more waiter adds at most one to the waiting entries of the deque.
pub waiting_count-append :
    (states : List Admission) (n : ℕ) (deque : List ℕ)
    → InRange (length states) deque
    → waiting_count (states ++ waiting ∷ []) (deque ++ n ∷ []) ≤ suc (waiting_count states deque)
unfolding waiting_count
waiting_count-append states n [] h = ground arith
waiting_count-append states n (i ∷ deque) (h, hs) =
    rw (get_elem?-append_lt states waiting i h)
      (ground (arith, waiting_count-append states n deque hs))

-- What the loop of `_grant_waiters_locked` leaves: the slots it counts are the slots it grants,
-- the capacity is kept, and it stops for no other reason than capacity or an empty deque.
pub record IsGranting (capacity count : ℕ) (states : List Admission) (deque : List ℕ) (g : Granting)
    : Type 0 where
  pub balanced : g.count + count_granted states ≡ count + count_granted g.states
  pub bounded : (g.count ≤ capacity) ⊎ (g.count ≡ count)
  pub grows : count ≤ g.count
  pub counted : g.count ≡ count + length g.grants
  pub fewer : waiting_count g.states g.waiters + g.count ≤ waiting_count states deque + count
  pub sized : length g.states ≡ length states
  pub exhausted : (capacity ≤ g.count) ⊎ (g.waiters ≡ [])

pub grant_from-IsGranting :
    (capacity count : ℕ) (states : List Admission) (deque : List ℕ)
    → IsGranting capacity count states deque (grant_from capacity count states deque)
unfolding grant_from waiting_count
grant_from-IsGranting capacity count states [] = ground arith
grant_from-IsGranting capacity count states (i ∷ deque) =
    elim (Bool-cases (is_waiting (get_elem? states i))) [
      | inl w ↦
          let e = is_waiting-eq (get_elem? states i) w in
          ground (
            arith,
            grant_from-IsGranting capacity (suc count) (set states i granted) deque,
            count_granted-set states i granted e,
            waiting_count-set states i granted deque refl,
            length-set states i granted,
          )
      | inr w ↦ ground (arith, grant_from-IsGranting capacity count states deque)
    ]

pub grant_from-InRange :
    (n capacity count : ℕ) (states : List Admission) (deque : List ℕ)
    → InRange n deque
    → InRange n (grant_from capacity count states deque).waiters
unfolding grant_from
grant_from-InRange n capacity count states [] h = tt
grant_from-InRange n capacity count states (i ∷ deque) h = ground (
  arith,
  grant_from-InRange n capacity count states deque h.1,
  grant_from-InRange n capacity (suc count) (set states i granted) deque h.1,
)

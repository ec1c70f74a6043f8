-- ===== src/Runtime/Tables.antt =====
-- What the loops over the tables of SMTP connections in app/runtime.py keep.
use rapid_inbox.Base.{
  ℕ, suc, ◌≤◌, ◌<◌, ◌≡◌, inl, inr, Bool, true, false, Option, none, some, List, [], ◌∷◌, length,
  leb, Text, text_eq, All, arith, Bool-cases,
}
use rapid_inbox.Throttle.Windows.{Windows, get_window, pop_window, trim}
use rapid_inbox.Throttle.Bounds.{InOrder, InOrder-later, All-pop, length-pop, length-pop_known}
use rapid_inbox.Runtime.Connections.{
  Sessions, smtp_ip_window_capacity, pop_session, pop_ip, stale_round, window_lives,
  evict_stale_smtp_ip_windows, make_room, Opened, open_window,
}

-- The times of a window: in order, none after `last`, and at most as many as the rate limit.
pub record IsPaced (rate_limit last : ℕ) (entry : Text × List ℕ) : Type 0 where
  pub ordered : InOrder 0 last entry.1
  pub few : length entry.1 ≤ rate_limit

pub length-pop_session :
    (session : Text) (sessions : Sessions) → length (pop_session session sessions) ≤ length sessions
unfolding pop_session
length-pop_session session [] = omega arith
length-pop_session session ((k, ip) ∷ sessions) =
    ground (arith, length-pop_session session sessions)

pub IsPaced-later :
    (rate_limit last now : ℕ) (windows : Windows)
    → last ≤ now
    → All (IsPaced rate_limit last) windows
    → All (IsPaced rate_limit now) windows
IsPaced-later rate_limit last now [] le h = tt
IsPaced-later rate_limit last now (w ∷ windows) le (h, hs) = (
  record { ordered = InOrder-later 0 last now w.1 le h.ordered; few = h.few },
  IsPaced-later rate_limit last now windows le hs,
)

stale_round-keeps :
    (Q : List Text × Windows → Type 0) (lives : Bool) (found : Option (List ℕ))
    {kept skipped expired : List Text × Windows}
    → Q kept
    → Q skipped
    → Q expired
    → Q (stale_round lives found kept skipped expired)
stale_round-keeps Q lives none k s e = s
stale_round-keeps Q true (some times) k s e = k
stale_round-keeps Q false (some times) k s e = e

-- The eviction of stale windows only takes entries out.
pub evict_stale-keeps :
    (P : Text × List ℕ → Type 0) (window now : ℕ) (order : List Text) (windows : Windows)
    → All P windows
    → All P (evict_stale_smtp_ip_windows window now order windows).1
      × (length (evict_stale_smtp_ip_windows window now order windows).1 ≤ length windows)
unfolding evict_stale_smtp_ip_windows
evict_stale-keeps P window now [] windows h = (h, omega arith)
evict_stale-keeps P window now (ip ∷ order) windows h =
    let (a, b) =
      evict_stale-keeps P window now order (pop_window ip windows) (All-pop P ip windows h) in
    stale_round-keeps (λ x. All P x.1 × (length x.1 ≤ length windows))
      (window_lives window now (get_window ip windows)) (get_window ip windows) (h, omega arith)
      (evict_stale-keeps P window now order windows h) (a, omega (arith, length-pop ip windows))

pub make_room-keeps :
    (P : Text × List ℕ → Type 0) (capacity : ℕ) (windows : Windows) (order : List Text)
    → 0 < capacity
    → All P windows
    → All P (make_room capacity windows order).0
      × (length (make_room capacity windows order).0 < capacity)
unfolding make_room
make_room-keeps P capacity [] order n h = (tt, n)
make_room-keeps P capacity (w ∷ windows) order n (h, hs) =
    elim (Bool-cases (leb capacity (suc (length windows)))) [
      | inl full ↦ rw full (make_room-keeps P capacity windows (pop_ip w.0 order) n hs)
      | inr room ↦ rw room ((h, hs), ground arith)
    ]

pub capacity_positive : (n : ℕ) → 0 < smtp_ip_window_capacity n
capacity_positive n = omega arith

pub length-trim : (window now : ℕ) (times : List ℕ) → length (trim window now times) ≤ length times
unfolding trim
length-trim window now [] = omega arith
length-trim window now (t ∷ times) = ground (arith, length-trim window now times)

get_window-IsPaced :
    (rate_limit last : ℕ) (key : Text) (windows : Windows) (times : List ℕ)
    → get_window key windows ≡ some times
    → All (IsPaced rate_limit last) windows
    → IsPaced rate_limit last (key, times)
unfolding get_window
get_window-IsPaced rate_limit last key [] times e h = cc
get_window-IsPaced rate_limit last key ((k, times') ∷ windows) times e (a, h) =
    elim (Bool-cases (text_eq key k)) [
      | inl same ↦
          let is : times' ≡ times = ground (arith, e, same) in
          rw (← is) (record { ordered = a.ordered; few = a.few })
      | inr other ↦ get_window-IsPaced rate_limit last key windows times (rw other at e) h
    ]

pub record IsOpened (capacity rate_limit last : ℕ) (o : Opened) : Type 0 where
  pub room : length o.others < capacity
  pub paced : All (IsPaced rate_limit last) o.others
  pub ordered : InOrder 0 last o.times
  pub few : length o.times ≤ rate_limit

pub open_window-IsOpened :
    (capacity rate_limit last : ℕ) (ip : Text) (found : Option (List ℕ)) (windows : Windows)
    (order : List Text)
    → get_window ip windows ≡ found
    → 0 < capacity
    → length windows ≤ capacity
    → All (IsPaced rate_limit last) windows
    → IsOpened capacity rate_limit last (open_window capacity ip found windows order)
unfolding open_window
open_window-IsOpened capacity rate_limit last ip none windows order e n l h =
    let (p, r) = make_room-keeps (IsPaced rate_limit last) capacity windows order n h in
    record { room = r; paced = p; ordered = tt; few = omega arith }
open_window-IsOpened capacity rate_limit last ip (some times) windows order e n l h =
    let p = get_window-IsPaced rate_limit last ip windows times e h in
    record {
      room = omega (arith, length-pop_known ip windows times e);
      paced = All-pop (IsPaced rate_limit last) ip windows h;
      ordered = p.ordered;
      few = p.few;
    }

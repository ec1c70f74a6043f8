-- ===== src/Runtime/Connections.antt =====
-- The SMTP connections of app/runtime.py: `register_smtp_connection` and what it calls. The tables by
-- address are those of the login throttle: an OrderedDict is the list of its items, the oldest first.
-- Times are ticks of a monotonic clock, and the window is given in them. The settings are natural
-- numbers, as the checks of a configuration leave them.
use rapid_inbox.Base.{
  ℕ, ◌+◌, ◌*◌, Bool, false, ◌&&◌, ◌||◌, Option, none, some, List, [], ◌∷◌, ◌++◌, length, min, max,
  ltb, leb, if◌then◌else◌, Text, text_eq,
}
use rapid_inbox.Base.Result.{Result, ok, err}
use rapid_inbox.Throttle.Windows.{Windows, get_window, pop_window, trim}

abbrev pub Sessions : Type 0
Sessions = List (Text × Text)

pub record Connections : Type 0 where
  pub active : Sessions
  pub ip_windows : Windows
  pub ip_expiry_order : List Text

pub data Refusal : Type 0 where
  concurrent_limit per_ip_limit : Refusal

abbrev pub smtp_ip_rate_state_min_entries : ℕ
smtp_ip_rate_state_min_entries = 1024

abbrev pub smtp_ip_rate_state_max_entries : ℕ
smtp_ip_rate_state_max_entries = 65536

-- `_smtp_ip_window_capacity`
abbrev pub smtp_ip_window_capacity : ℕ → ℕ
smtp_ip_window_capacity max_connections =
    min smtp_ip_rate_state_max_entries (max smtp_ip_rate_state_min_entries (max_connections * 4))

unfoldable pub has_session : Text → Sessions → Bool
has_session key [] = false
has_session key ((k, _) ∷ sessions) = text_eq key k || has_session key sessions

unfoldable pub pop_session : Text → Sessions → Sessions
pop_session key [] = []
pop_session key ((k, ip) ∷ sessions) =
    let rest = pop_session key sessions in if text_eq key k then sessions else (k, ip) ∷ rest

-- `_smtp_ip_expiry_order.pop(ip, None)`
unfoldable pub pop_ip : Text → List Text → List Text
pop_ip key [] = []
pop_ip key (k ∷ order) = let rest = pop_ip key order in if text_eq key k then order else k ∷ rest

-- `window and window[-1] > cutoff`, with `cutoff = now - window`
unfoldable pub ends_after_cutoff : ℕ → ℕ → List ℕ → Bool
ends_after_cutoff window now [] = false
ends_after_cutoff window now (t ∷ []) = ltb now (t + window)
ends_after_cutoff window now (t ∷ times) = ends_after_cutoff window now times

-- one round: `skipped` and `expired` are what the loop makes of the rest without the head's entry in
-- the order, and without its window too
abbrev pub stale_round :
    Bool → Option (List ℕ) → (kept skipped expired : List Text × Windows) → List Text × Windows
stale_round lives none kept skipped expired = skipped
stale_round lives (some times) kept skipped expired = if lives then kept else expired

abbrev pub window_lives : ℕ → ℕ → Option (List ℕ) → Bool
window_lives window now none = false
window_lives window now (some times) = ends_after_cutoff window now times

-- `_evict_stale_smtp_ip_windows`
unfoldable pub evict_stale_smtp_ip_windows :
    (window now : ℕ) → List Text → Windows → List Text × Windows
evict_stale_smtp_ip_windows window now [] windows = ([], windows)
evict_stale_smtp_ip_windows window now (ip ∷ order) windows =
    stale_round (window_lives window now (get_window ip windows)) (get_window ip windows)
      (ip ∷ order, windows) (evict_stale_smtp_ip_windows window now order windows)
      (evict_stale_smtp_ip_windows window now order (pop_window ip windows))

-- the loop that pops the oldest window while the table is full
unfoldable pub make_room : ℕ → Windows → List Text → Windows × List Text
make_room capacity [] order = ([], order)
make_room capacity (w ∷ windows) order =
    let rest = make_room capacity windows (pop_ip w.0 order) in
    if leb capacity (length (w ∷ windows)) then rest else (w ∷ windows, order)

-- the tables without the address's own window, and that window's times
pub record Opened : Type 0 where
  pub others : Windows
  pub order : List Text
  pub times : List ℕ

unfoldable pub open_window : ℕ → Text → Option (List ℕ) → Windows → List Text → Opened
open_window capacity ip none windows order =
    let room = make_room capacity windows order in
    record { others = room.0; order = room.1; times = [] }
open_window capacity ip (some times) windows order = record {
  others = pop_window ip windows;
  order = order;
  times = times;
}

-- what follows the trimming of the window
unfoldable pub admit_or_refuse :
    (rate_limit now : ℕ)
    → Text
    → Text
    → Connections
    → Opened
    → List ℕ
    → Connections × Result Refusal (Unit {0})
admit_or_refuse rate_limit now session ip c o times =
    if leb rate_limit (length times)
    then (
      record c { ip_windows = o.others ++ (ip, times) ∷ []; ip_expiry_order = o.order },
      err per_ip_limit,
    )
    else (
      record {
        active = c.active ++ (session, ip) ∷ [];
        ip_windows = o.others ++ (ip, times ++ now ∷ []) ∷ [];
        ip_expiry_order = pop_ip ip o.order ++ ip ∷ [];
      },
      ok tt,
    )

-- the branch that counts connections by address
unfoldable pub count_by_ip :
    (max_connections rate_limit window now : ℕ)
    → Text
    → Text
    → Connections
    → Connections × Result Refusal (Unit {0})
count_by_ip max_connections rate_limit window now session ip c =
    let (order, windows) = evict_stale_smtp_ip_windows window now c.ip_expiry_order c.ip_windows in
    let o =
      open_window (smtp_ip_window_capacity max_connections) ip (get_window ip windows) windows
        order in
    admit_or_refuse rate_limit now session ip c o (trim window now o.times)

-- the registration when no limiter is set, which drops its state
abbrev pub uncounted : Text → Text → Connections → Windows → Connections
uncounted session ip c [] = record c { active = c.active ++ (session, ip) ∷ [] }
uncounted session ip c (_ ∷ _) = record {
  active = c.active ++ (session, ip) ∷ [];
  ip_windows = [];
  ip_expiry_order = [];
}

-- `register_smtp_connection`
unfoldable pub register_smtp_connection :
    (max_connections rate_limit window now : ℕ)
    → Text
    → Text
    → Connections
    → Connections × Result Refusal (Unit {0})
unfolding has_session count_by_ip
register_smtp_connection max_connections rate_limit window now session ip c =
    if has_session session c.active
    then (c, ok tt)
    else if ltb 0 max_connections && leb max_connections (length c.active)
    then (c, err concurrent_limit)
    else if ltb 0 rate_limit && ltb 0 window
    then count_by_ip max_connections rate_limit window now session ip c
    else (uncounted session ip c c.ip_windows, ok tt)

-- `release_smtp_connection`
unfoldable pub release_smtp_connection : Text → Connections → Connections × Bool
unfolding pop_session has_session
release_smtp_connection session c =
    (record c { active = pop_session session c.active }, has_session session c.active)

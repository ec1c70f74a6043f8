-- ===== src/Throttle/Windows.antt =====
-- The login throttle of app/auth/sessions.py: an OrderedDict is the list of its items, the oldest
-- first. Times are whole ticks of a monotonic clock; `window` is LOGIN_FAILURE_WINDOW_SECONDS in ticks.
use rapid_inbox.Base.{
  codes, text_eq, Text, ℕ, zero, suc, ◌+◌, Bool, false, ◌||◌, Option, none, some, List, [], ◌∷◌,
  ◌++◌, length, leb, if◌then◌else◌,
}
use rapid_inbox.Base.Result.{Result, ok, err}

abbrev pub login_failure_limit : ℕ
login_failure_limit = 5

abbrev pub login_ip_failure_limit : ℕ
login_ip_failure_limit = 50

abbrev pub login_failure_max_keys : ℕ
login_failure_max_keys = 10000

abbrev pub Windows : Type 0
Windows = List (Text × List ℕ)

-- `windows.get`
unfoldable pub get_window : Text → Windows → Option (List ℕ)
get_window key [] = none
get_window key ((k, times) ∷ windows) =
    let later = get_window key windows in if text_eq key k then some times else later

-- `windows.pop(key, None)`
unfoldable pub pop_window : Text → Windows → Windows
pop_window key [] = []
pop_window key ((k, times) ∷ windows) =
    let rest = pop_window key windows in if text_eq key k then windows else (k, times) ∷ rest

-- `windows[key] = times` and `windows.move_to_end(key)`
abbrev pub put_last : Text → List ℕ → Windows → Windows
put_last key times windows = pop_window key windows ++ (key, times) ∷ []

-- `while window and window[0] <= cutoff: window.popleft()`, with `cutoff = now - window`
unfoldable pub trim : ℕ → ℕ → List ℕ → List ℕ
trim window now [] = []
trim window now (t ∷ times) =
    let rest = trim window now times in if leb (t + window) now then rest else t ∷ times

abbrev pub keep_active : Text → List ℕ → Windows → Option (List ℕ) × Windows
keep_active key [] windows = (none, pop_window key windows)
keep_active key (t ∷ times) windows = (some (t ∷ times), put_last key (t ∷ times) windows)

abbrev pub active_of : ℕ → ℕ → Text → Option (List ℕ) → Windows → Option (List ℕ) × Windows
active_of window now key none windows = (none, windows)
active_of window now key (some times) windows = keep_active key (trim window now times) windows

-- `_active_login_window`
unfoldable pub active_login_window : ℕ → ℕ → Text → Windows → Option (List ℕ) × Windows
unfolding get_window pop_window trim
active_login_window window now key windows =
    active_of window now key (get_window key windows) windows

-- `while len(windows) >= LOGIN_FAILURE_MAX_KEYS: windows.popitem(last=False)`
unfoldable pub evict : Windows → Windows
evict [] = []
evict (w ∷ windows) =
    let rest = evict windows in
    if leb login_failure_max_keys (length (w ∷ windows)) then rest else w ∷ windows

abbrev pub add_failure : ℕ → Text → Option (List ℕ) × Windows → Windows
add_failure now key (none, windows) = put_last key (now ∷ []) (evict windows)
add_failure now key (some times, windows) = put_last key (times ++ now ∷ []) windows

-- `_record_login_window`
unfoldable pub record_login_window : ℕ → ℕ → Text → Windows → Windows
unfolding active_login_window evict pop_window
record_login_window window now key windows =
    add_failure now key (active_login_window window now key windows)

-- The two tables of AdminSessionService.
pub record Throttle : Type 0 where
  pub login_failures : Windows
  pub login_ip_failures : Windows

abbrev first_chars : ℕ → Text → Text
first_chars zero s = []
first_chars (suc n) [] = []
first_chars (suc n) (c ∷ s) = c ∷ first_chars n s

abbrev ip_or_unknown : Option Text → Text
ip_or_unknown none = codes "unknown"
ip_or_unknown (some []) = codes "unknown"
ip_or_unknown (some (c ∷ s)) = c ∷ s

-- `_login_ip_key`
unfoldable pub login_ip_key : Option Text → Text
login_ip_key ip = first_chars 128 (ip_or_unknown ip)

-- whether a window is full
abbrev pub reaches : ℕ → Option (List ℕ) → Bool
reaches limit none = false
reaches limit (some times) = leb limit (length times)

pub data LoginError : Type 0 where
  too_many_attempts : LoginError

-- `_login_failure_key`; `username_digest` is the hash of the stripped and case-folded name
unfoldable pub login_failure_key : (Text → Text) → Text → Option Text → Text
unfolding login_ip_key
login_failure_key username_digest username ip =
    login_ip_key ip ++ (codes ":" ++ username_digest username)

module _ (username_digest : Text → Text) (window : ℕ) where
  unfoldable pub assert_login_allowed :
      Text → Option Text → ℕ → Throttle → Result LoginError (Unit {0}) × Throttle
  unfolding login_failure_key login_ip_key active_login_window
  assert_login_allowed username ip now th =
      let own =
        active_login_window window now (login_failure_key username_digest username ip)
          th.login_failures in
      let shared = active_login_window window now (login_ip_key ip) th.login_ip_failures in
      (
        if reaches login_failure_limit own.0 || reaches login_ip_failure_limit shared.0
            then err too_many_attempts
            else ok tt,
        record { login_failures = own.1; login_ip_failures = shared.1 },
      )

  unfoldable pub record_login_failure : Text → Option Text → ℕ → Throttle → Throttle
  unfolding login_failure_key login_ip_key record_login_window
  record_login_failure username ip now th = record {
    login_failures =
        record_login_window window now (login_failure_key username_digest username ip)
          th.login_failures;
    login_ip_failures = record_login_window window now (login_ip_key ip) th.login_ip_failures;
  }

  unfoldable pub clear_login_failures : Text → Option Text → Throttle → Throttle
  unfolding login_failure_key pop_window
  clear_login_failures username ip th = record th {
    login_failures = pop_window (login_failure_key username_digest username ip) th.login_failures;
  }

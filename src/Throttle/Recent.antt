-- ===== src/Throttle/Recent.antt =====
-- What the login throttle of app/auth/sessions.py counts, in every run of it.
use rapid_inbox.Base.{
  Text, ℕ, suc, ◌+◌, ◌<◌, ◌≡◌, refl, ap, ◌∙◌, inl, inr, Option, none, some, List, [], ◌∷◌, arith,
  length, length-append, ltb, leb, if◌then◌else◌, Bool-cases,
}
use rapid_inbox.Throttle.Windows.{
  login_failure_max_keys, Windows, get_window, pop_window, put_last, trim, keep_active, active_of,
  active_login_window, reaches,
}
use rapid_inbox.Throttle.Bounds.{
  InOrder, IsKept, All-pop, All-append, length-pop, get_window-InOrder,
}

-- How many of the stored failures are in the window that ends now.
abbrev pub recent_failures : ℕ → ℕ → List ℕ → ℕ
recent_failures window now [] = 0
recent_failures window now (t ∷ times) =
    if ltb now (t + window)
    then suc (recent_failures window now times)
    else recent_failures window now times

abbrev pub recent_of : ℕ → ℕ → Option (List ℕ) → ℕ
recent_of window now none = 0
recent_of window now (some times) = recent_failures window now times

all_recent :
    (window now low last : ℕ) (times : List ℕ)
    → now < low + window
    → InOrder low last times
    → length times ≡ recent_failures window now times
all_recent window now low last [] le h = refl
all_recent window now low last (t ∷ times) le (a, b, h) =
    ground (arith, all_recent window now t last times (omega arith) h)

-- The loop from the front leaves all that is recent, since the times are in order.
length-trim :
    (window now low last : ℕ) (times : List ℕ)
    → InOrder low last times
    → length (trim window now times) ≡ recent_failures window now times
unfolding trim
length-trim window now low last [] h = refl
length-trim window now low last (t ∷ times) (a, b, h) = elim (Bool-cases (leb (t + window) now)) [
  | inl old ↦ rw old (length-trim window now t last times h ∙ ground (arith, old))
  | inr new ↦ rw new (ground (arith, new, all_recent window now t last times))
]

reaches-keep_active :
    (limit : ℕ) (key : Text) (times : List ℕ) (windows : Windows)
    → 0 < limit
    → reaches limit (keep_active key times windows).0 ≡ leb limit (length times)
reaches-keep_active limit key [] windows n = ground arith
reaches-keep_active limit key (t ∷ times) windows n = refl

reaches-active_of :
    (limit window now last : ℕ) (key : Text) (found : Option (List ℕ)) (windows : Windows)
    → 0 < limit
    → ((times : List ℕ) → found ≡ some times → InOrder 0 last times)
    → reaches limit (active_of window now key found windows).0
      ≡ leb limit (recent_of window now found)
reaches-active_of limit window now last key none windows n h = ground arith
reaches-active_of limit window now last key (some times) windows n h =
    reaches-keep_active limit key (trim window now times) windows n
    ∙ ap (leb limit) (length-trim window now 0 last times (h times refl))

pub reaches-active_login_window :
    (limit window now last : ℕ) (key : Text) (windows : Windows)
    → 0 < limit
    → IsKept last windows
    → reaches limit (active_login_window window now key windows).0
      ≡ leb limit (recent_of window now (get_window key windows))
unfolding active_login_window
reaches-active_login_window limit window now last key windows n k =
    reaches-active_of limit window now last key (get_window key windows) windows n
      (λ times e. get_window-InOrder last key windows times e k.ordered)

pub pop_window-IsKept :
    (last : ℕ) (key : Text) (windows : Windows)
    → IsKept last windows
    → IsKept last (pop_window key windows)
pop_window-IsKept last key windows k = record {
  bounded = omega (arith, length-pop key windows, k.bounded);
  ordered = All-pop _ key windows k.ordered;
}

pub put_last-IsKept :
    (last : ℕ) (key : Text) (times : List ℕ) (windows : Windows)
    → length (pop_window key windows) < login_failure_max_keys
    → InOrder 0 last times
    → IsKept last windows
    → IsKept last (put_last key times windows)
put_last-IsKept last key times windows room h k = record {
  bounded = omega (arith, length-append (pop_window key windows) ((key, times) ∷ []));
  ordered = All-append _ (pop_window key windows) (key, times) (All-pop _ key windows k.ordered) h;
}

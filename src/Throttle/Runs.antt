-- ===== src/Throttle/Runs.antt =====
-- Runs of the login throttle of app/auth/sessions.py, at times that do not go back.
use rapid_inbox.Base.{
  text_eq_iff, subst, text_eq, Text, ℕ, suc, ◌≤◌, ◌<◌, ◌≡◌, refl, ap, ◌∙◌, inl, inr, true, ◌||◌,
  Option, none, some, List, [], ◌∷◌, ◌++◌, arith, length, length-append, leb, if◌then◌else◌,
  Bool-cases, some_eq,
}
use rapid_inbox.Base.Result.{ok, err}
use rapid_inbox.Throttle.Windows.{
  login_failure_max_keys, Windows, get_window, pop_window, trim, keep_active, active_of,
  active_login_window, evict, add_failure, record_login_window, Throttle, login_ip_key,
  too_many_attempts, login_failure_key, assert_login_allowed, record_login_failure,
  clear_login_failures,
}
use rapid_inbox.Throttle.Bounds.{
  InOrder, IsKept, IsKept-later, InOrder-append, InOrder-trim, All-evict, length-pop,
  length-pop_known, length-evict, get_window-InOrder,
}
use rapid_inbox.Throttle.Recent.{
  recent_of, reaches-active_login_window, pop_window-IsKept, put_last-IsKept,
}

length-pop_last :
    (key : Text) (times : List ℕ) (windows : Windows)
    → length (pop_window key (windows ++ (key, times) ∷ [])) ≡ length windows
unfolding pop_window
length-pop_last key times [] =
    let same : text_eq key key ≡ true = (text_eq_iff key key).1 refl in rw same refl
length-pop_last key times ((k, t) ∷ windows) = elim (Bool-cases (text_eq key k)) [
  | inl same ↦ rw same (length-append windows ((key, times) ∷ []) ∙ omega arith)
  | inr other ↦ rw other (ap suc (length-pop_last key times windows))
]

-- What `active_login_window` leaves: a table, and if it found a window, that in order and room for it.
record IsFound (now : ℕ) (key : Text) (found : Option (List ℕ) × Windows) : Type 0 where
  pub kept : IsKept now found.1
  pub ordered : (times : List ℕ) → found.0 ≡ some times → InOrder 0 now times
  pub room :
      (times : List ℕ)
      → found.0 ≡ some times
      → length (pop_window key found.1) < login_failure_max_keys

keep_active-IsFound :
    (now : ℕ) (key : Text) (times : List ℕ) (windows : Windows)
    → length (pop_window key windows) < login_failure_max_keys
    → InOrder 0 now times
    → IsKept now windows
    → IsFound now key (keep_active key times windows)
keep_active-IsFound now key [] windows room h k = record {
  kept = pop_window-IsKept now key windows k;
  ordered = λ times e. cc;
  room = λ times e. cc;
}
keep_active-IsFound now key (t ∷ times) windows room h k = record {
  kept = put_last-IsKept now key (t ∷ times) windows room h k;
  ordered = λ times' e. (let same : t ∷ times ≡ times' = some_eq e in subst (InOrder 0 now) same h);
  room = λ times' e. omega (arith, length-pop_last key (t ∷ times) (pop_window key windows));
}

active_of-IsFound :
    (window now : ℕ) (key : Text) (found : Option (List ℕ)) (windows : Windows)
    → get_window key windows ≡ found
    → IsKept now windows
    → IsFound now key (active_of window now key found windows)
active_of-IsFound window now key none windows e k = record {
  kept = k;
  ordered = λ times f. cc;
  room = λ times f. cc;
}
active_of-IsFound window now key (some times) windows e k =
    keep_active-IsFound now key (trim window now times) windows
      (omega (arith, length-pop_known key windows times e, k.bounded))
      (InOrder-trim window now 0 now times (get_window-InOrder now key windows times e k.ordered)) k

active_login_window-IsFound :
    (window now : ℕ) (key : Text) (windows : Windows)
    → IsKept now windows
    → IsFound now key (active_login_window window now key windows)
unfolding active_login_window
active_login_window-IsFound window now key windows k =
    active_of-IsFound window now key (get_window key windows) windows refl k

add_failure-IsKept :
    (now : ℕ) (key : Text) (found : Option (List ℕ) × Windows)
    → IsFound now key found
    → IsKept now (add_failure now key found)
add_failure-IsKept now key (none, windows) f =
    let fewer = length-evict windows in
    put_last-IsKept now key (now ∷ []) (evict windows)
      (omega (arith, length-pop key (evict windows), fewer)) (omega arith, omega arith, tt)
      (record { bounded = omega (arith, fewer); ordered = All-evict _ windows f.kept.ordered })
add_failure-IsKept now key (some times, windows) f =
    put_last-IsKept now key (times ++ now ∷ []) windows (f.room times refl)
      (InOrder-append 0 now now times (omega arith) (omega arith) (f.ordered times refl)) f.kept

record_login_window-IsKept :
    (window now : ℕ) (key : Text) (windows : Windows)
    → IsKept now windows
    → IsKept now (record_login_window window now key windows)
unfolding record_login_window
record_login_window-IsKept window now key windows k =
    add_failure-IsKept now key _ (active_login_window-IsFound window now key windows k)

-- Both tables.
pub record AreKept (last : ℕ) (th : Throttle) : Type 0 where
  pub own : IsKept last th.login_failures
  pub shared : IsKept last th.login_ip_failures

module _ (username_digest : Text → Text) (window : ℕ) where
  -- A call of the service at a time that is not before the last one.
  pub data Step : ℕ × Throttle → ℕ × Throttle → Type 0 where
    asks :
        (username : Text) (ip : Option Text) (last now : ℕ) (th : Throttle)
        → last ≤ now
        → Step (last, th) (now, (assert_login_allowed username_digest window username ip now th).1)
    fails :
        (username : Text) (ip : Option Text) (last now : ℕ) (th : Throttle)
        → last ≤ now
        → Step (last, th) (now, record_login_failure username_digest window username ip now th)
    clears :
        (username : Text) (ip : Option Text) (last : ℕ) (th : Throttle)
        → Step (last, th) (last, clear_login_failures username_digest window username ip th)

  pub data Run : ℕ × Throttle → Type 0 where
    new : Run (0, record { login_failures = []; login_ip_failures = [] })
    later : {before after : ℕ × Throttle} → Run before → Step before after → Run after

  AreKept-later : (last now : ℕ) (th : Throttle) → last ≤ now → AreKept last th → AreKept now th
  AreKept-later last now th le k = record {
    own = IsKept-later last now _ le k.own;
    shared = IsKept-later last now _ le k.shared;
  }

  Step-AreKept : {a b : ℕ × Throttle} → Step a b → AreKept a.0 a.1 → AreKept b.0 b.1
  unfolding assert_login_allowed record_login_failure clear_login_failures
  Step-AreKept (asks username ip last now th le) k =
      let k' = AreKept-later last now th le k in
      record {
        own = (active_login_window-IsFound window now _ th.login_failures k'.own).kept;
        shared = (active_login_window-IsFound window now _ th.login_ip_failures k'.shared).kept;
      }
  Step-AreKept (fails username ip last now th le) k =
      let k' = AreKept-later last now th le k in
      record {
        own = record_login_window-IsKept window now _ th.login_failures k'.own;
        shared = record_login_window-IsKept window now _ th.login_ip_failures k'.shared;
      }
  Step-AreKept (clears username ip last th) k = record {
    own = pop_window-IsKept last _ th.login_failures k.own;
    shared = k.shared;
  }

  -- In every run each table has at most the configured number of keys, and each window holds
  -- times in order, none after the last call.
  pub Run-AreKept : (a : ℕ × Throttle) → Run a → AreKept a.0 a.1
  Run-AreKept a new = record {
    own = record { bounded = omega arith; ordered = tt };
    shared = record { bounded = omega arith; ordered = tt };
  }
  Run-AreKept a (later {before} r step) = Step-AreKept step (Run-AreKept before r)

  -- In every run a login is refused exactly when, of the failures kept, at least 5 of the user at
  -- this address or at least 50 of the address lie within the window that ends now.
  pub assert_login_allowed_exact :
      (username : Text) (ip : Option Text) (last now : ℕ) (th : Throttle)
      → Run (last, th)
      → (assert_login_allowed username_digest window username ip now th).0 ≡ (
          if leb 5 (
              recent_of window now
                (get_window (login_failure_key username_digest username ip) th.login_failures))
            || leb 50 (recent_of window now (get_window (login_ip_key ip) th.login_ip_failures))
          then err too_many_attempts
          else ok tt)
  unfolding assert_login_allowed
  assert_login_allowed_exact username ip last now th r =
      let k = Run-AreKept (last, th) r in
      rw
        (
          reaches-active_login_window 5 window now last
              (login_failure_key username_digest username ip) th.login_failures (omega arith) k.own,
          reaches-active_login_window 50 window now last (login_ip_key ip) th.login_ip_failures
              (omega arith) k.shared,
        )
        refl

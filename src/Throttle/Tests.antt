-- ===== src/Throttle/Tests.antt =====
-- Tests of the login throttle, and the example runs of its theorems.
use rapid_inbox.Base.{Text, codes, ℕ, ◌≡◌, refl, ◌||◌, Option, some, [], arith, leb, if◌then◌else◌}
use rapid_inbox.Base.Result.{ok, err}
use rapid_inbox.Throttle.Windows.{
  Throttle, get_window, trim, evict, pop_window, active_login_window, record_login_window,
  login_ip_key, login_failure_key, assert_login_allowed, record_login_failure, too_many_attempts,
}
use rapid_inbox.Throttle.Recent.{recent_of}
use rapid_inbox.Throttle.Runs.{
  fails, Run, new, later, AreKept, Run-AreKept, assert_login_allowed_exact,
}

abbrev address : Option Text
address = some (codes "10.0.0.1")

-- the digest is the name itself
abbrev digest : Text → Text
digest name = name

abbrev fail_at : ℕ → Throttle → Throttle
fail_at = record_login_failure digest 900 (codes "ann") address

abbrev th0 : Throttle
th0 = record { login_failures = []; login_ip_failures = [] }

abbrev th5 : Throttle
th5 = fail_at 5 (fail_at 4 (fail_at 3 (fail_at 2 (fail_at 1 th0))))

run5 : Run digest 900 (5, th5)
run5 =
    later
      (later
        (later
          (later (later new (fails (codes "ann") address 0 1 th0 (omega arith)))
            (fails (codes "ann") address 1 2 (fail_at 1 th0) (omega arith)))
          (fails (codes "ann") address 2 3 (fail_at 2 (fail_at 1 th0)) (omega arith)))
        (fails (codes "ann") address 3 4 (fail_at 3 (fail_at 2 (fail_at 1 th0))) (omega arith)))
      (fails (codes "ann") address 4 5 (fail_at 4 (fail_at 3 (fail_at 2 (fail_at 1 th0))))
        (omega arith))

fifth_failure :
    ((assert_login_allowed digest 900 (codes "ann") address 6 th5).0 ≡ err too_many_attempts)
    × ((assert_login_allowed digest 900 (codes "bob") address 6 th5).0 ≡ ok tt)
    × ((assert_login_allowed digest 900 (codes "ann") address 901 th5).0 ≡ ok tt)
unfolding login_ip_key login_failure_key get_window trim evict pop_window active_login_window
    record_login_window assert_login_allowed record_login_failure
fifth_failure = (refl, refl, refl)

th5_kept : AreKept 5 th5
th5_kept = Run-AreKept digest 900 (5, th5) run5

assert_login_allowed_exact_example :
    (assert_login_allowed digest 900 (codes "ann") address 6 th5).0 ≡ (
      if leb 5 (
          recent_of 900 6
            (get_window (login_failure_key digest (codes "ann") address) th5.login_failures))
        || leb 50 (recent_of 900 6 (get_window (login_ip_key address) th5.login_ip_failures))
      then err too_many_attempts
      else ok tt)
assert_login_allowed_exact_example =
    assert_login_allowed_exact digest 900 (codes "ann") address 5 6 th5 run5

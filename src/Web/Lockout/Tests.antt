-- ===== src/Web/Lockout/Tests.antt =====
-- Runs of lockout.ts, and its theorem at them.
use warehousd.Prelude.{◌≡◌, refl, true, false, none, List, [], ◌∷◌, arith}
use warehousd.Web.Lockout.{LoginAttempt, is_locked, record_failure, after_sign_in}
use warehousd.Web.Lockout.Laws.{after_sign_in_isolated}

abbrev four : List LoginAttempt
four = record { email = "ann"; failures = 4; last_failure_at = 1; locked_until = none } ∷ []

-- The fifth failure locks, and a later one stamps the lock again.
fifth_run : is_locked "ann" 16 (after_sign_in "ann" true 2 four) ≡ true
unfolding is_locked after_sign_in record_failure
fifth_run = refl

sixth_run :
    is_locked "ann" 20 (after_sign_in "ann" true 10 (after_sign_in "ann" true 2 four)) ≡ true
unfolding is_locked after_sign_in record_failure
sixth_run = refl

success_run : is_locked "ann" 16 (after_sign_in "ann" false 2 four) ≡ false
unfolding is_locked after_sign_in
success_run = refl

after_sign_in_isolated_example :
    is_locked "bob" 3 (after_sign_in "ann" true 2 four) ≡ is_locked "bob" 3 four
after_sign_in_isolated_example = after_sign_in_isolated "ann" "bob" 2 3 refl true four (omega arith)

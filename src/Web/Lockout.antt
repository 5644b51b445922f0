-- ===== src/Web/Lockout.antt =====
-- apps/web/lib/lockout.ts: the lock of an account after failed sign-ins. `rows` is the table
-- app.login_attempts, one row for each email; times and spans are in minutes.
pub mod Laws
mod Tests
use warehousd.Prelude.{
  ℕ, ◌+◌, String, Bool, true, false, not, ◌&&◌, Option, none, some, List, [], ◌∷◌, ◌++◌, map, any,
  filter, ltb, leb, if◌then◌else◌, ◌==◌,
}

pub record LoginAttempt : Type 0 where
  pub email : String
  pub failures : ℕ
  pub last_failure_at : ℕ
  pub locked_until : Option ℕ

abbrev pub max_failures : ℕ
max_failures = 5

abbrev pub lockout_minutes : ℕ
lockout_minutes = 15

abbrev pub attempt_window_minutes : ℕ
attempt_window_minutes = 15

abbrev pub locked_at : ℕ → Option ℕ → Bool
locked_at now none = false
locked_at now (some until) = ltb now until

abbrev pub is_lock_of : String → ℕ → LoginAttempt → Bool
is_lock_of email now r = r.email == email && locked_at now r.locked_until

-- The hook before a sign-in: whether it is refused. The email is in lower case.
unfoldable pub is_locked : String → ℕ → List LoginAttempt → Bool
is_locked email now rows = if email == "" then false else any (is_lock_of email now) rows

abbrev pub lock_over : ℕ → Option ℕ → Bool
lock_over now none = true
lock_over now (some until) = ltb until now

-- A row that no longer says anything.
abbrev pub is_residue : ℕ → LoginAttempt → Bool
is_residue now r =
    ltb (r.last_failure_at + attempt_window_minutes) now && lock_over now r.locked_until

abbrev pub stamped : ℕ → LoginAttempt → LoginAttempt
stamped now r = record r {
  failures = r.failures + 1;
  last_failure_at = now;
  locked_until =
      if leb max_failures (r.failures + 1) then some (now + lockout_minutes) else r.locked_until;
}

abbrev pub count_failure : String → ℕ → LoginAttempt → LoginAttempt
count_failure email now r = if r.email == email then stamped now r else r

-- `insert … on conflict (email) do update`
unfoldable pub record_failure : String → ℕ → List LoginAttempt → List LoginAttempt
record_failure email now rows =
    if any (λ (r : LoginAttempt). r.email == email) rows
    then map (count_failure email now) rows
    else rows
      ++ record { email = email; failures = 1; last_failure_at = now; locked_until = none } ∷ []

-- The hook after a sign-in.
unfoldable pub after_sign_in : String → Bool → ℕ → List LoginAttempt → List LoginAttempt
unfolding record_failure
after_sign_in email failed now rows =
    if email == ""
    then rows
    else if not failed
    then filter (λ (r : LoginAttempt). not (r.email == email)) rows
    else record_failure email now (filter (λ (r : LoginAttempt). not (is_residue now r)) rows)

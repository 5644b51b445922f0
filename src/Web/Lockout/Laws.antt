-- ===== src/Web/Lockout/Laws.antt =====
-- Whose sign-ins are locked by a failure, and whose are not.
use warehousd.Prelude.{
  ℕ, ◌≤◌, String, ◌≡◌, refl, ap, ◌∙◌, inl, inr, Bool, true, false, not, ◌&&◌, Option, none, some,
  List, [], ◌∷◌, map, any, any-append, filter, if◌then◌else◌, ◌==◌, by_test, arith, eq_iff,
  Bool-cases,
}
use warehousd.Web.Lockout.{
  LoginAttempt, locked_at, is_lock_of, is_locked, lock_over, is_residue, count_failure,
  record_failure, after_sign_in,
}

module _ (email other : String) (now later : ℕ) (apart : (email == other) ≡ false) where
  is_lock_of-count_failure :
      (r : LoginAttempt)
      → is_lock_of other later (count_failure email now r) ≡ is_lock_of other later r
  is_lock_of-count_failure r = elim (Bool-cases (r.email == email)) [
    | inr n ↦ rw (n, if◌then◌else◌) refl
    | inl y ↦
        let off : (r.email == other) ≡ false =
          ground (arith, eq_iff r.email email, eq_iff r.email other, eq_iff email other) in
        rw (y, if◌then◌else◌, off) refl
  ]

  any-count_failure :
      (rows : List LoginAttempt)
      → any (is_lock_of other later) (map (count_failure email now) rows)
        ≡ any (is_lock_of other later) rows
  any-count_failure [] = refl
  any-count_failure (r ∷ rows) = ground (arith, any-count_failure rows, is_lock_of-count_failure r)

  any-record_failure :
      (rows : List LoginAttempt)
      → any (is_lock_of other later) (record_failure email now rows)
        ≡ any (is_lock_of other later) rows
  unfolding record_failure
  any-record_failure rows =
      by_test
        (λ (x : List LoginAttempt).
          any (is_lock_of other later) x ≡ any (is_lock_of other later) rows)
        (any (λ (r : LoginAttempt). r.email == email) rows) _ _ (λ _. any-count_failure rows)
        (λ _.
          any-append (is_lock_of other later) rows (
            record { email = email; failures = 1; last_failure_at = now; locked_until = none } ∷ [])
          ∙ ground arith)

  any-signed_in :
      (rows : List LoginAttempt)
      → any (is_lock_of other later) (filter (λ (r : LoginAttempt). not (r.email == email)) rows)
        ≡ any (is_lock_of other later) rows
  any-signed_in [] = refl
  any-signed_in (r ∷ rows) =
      ground
        (arith, any-signed_in rows, eq_iff r.email email, eq_iff r.email other, eq_iff email other)

  not_residue :
      (r : LoginAttempt) → now ≤ later → is_residue now r ≡ true → is_lock_of other later r ≡ false
  not_residue r h k = at_lock r.locked_until (ground arith)
    where
      at_lock :
          (o : Option ℕ) → lock_over now o ≡ true → (r.email == other && locked_at later o) ≡ false
      at_lock none e = ground arith
      at_lock (some until) e = ground arith

  any-collected :
      (rows : List LoginAttempt)
      → now ≤ later
      → any (is_lock_of other later) (filter (λ (r : LoginAttempt). not (is_residue now r)) rows)
        ≡ any (is_lock_of other later) rows
  any-collected [] h = refl
  any-collected (r ∷ rows) h = elim (Bool-cases (is_residue now r)) [
    | inl y ↦ rw (y, if◌then◌else◌) (ground (arith, any-collected rows h, not_residue r h y))
    | inr n ↦ rw (n, if◌then◌else◌) (ground (arith, any-collected rows h))
  ]

  -- The end of a sign-in of one account, failed or not, changes at no later time whether another
  -- account is locked.
  pub after_sign_in_isolated :
      (failed : Bool) (rows : List LoginAttempt)
      → now ≤ later
      → is_locked other later (after_sign_in email failed now rows) ≡ is_locked other later rows
  unfolding is_locked after_sign_in
  after_sign_in_isolated failed rows h =
      ap (λ b. if other == "" then false else b)
        (by_test
          (λ (x : List LoginAttempt).
            any (is_lock_of other later) x ≡ any (is_lock_of other later) rows)
          (email == "") _ _ (λ _. refl)
          (λ _.
            by_test
              (λ (x : List LoginAttempt).
                any (is_lock_of other later) x ≡ any (is_lock_of other later) rows)
              (not failed) _ _ (λ _. any-signed_in rows)
              (λ _.
                any-record_failure (filter (λ (r : LoginAttempt). not (is_residue now r)) rows)
                ∙ any-collected rows h)))

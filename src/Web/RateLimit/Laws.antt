-- ===== src/Web/RateLimit/Laws.antt =====
-- The limiter's map is bounded, a window admits no more than its maximum, and a caller who waits as
-- long as they are told is admitted.
use warehousd.Prelude.{
  ℕ, ◌+◌, ◌-◌, ◌*◌, ◌≤◌, ◌<◌, ◌≡◌, refl, sym, ap, ◌∙◌, subst, String, true, false, Option, none,
  some, List, [], ◌∷◌, length, filter, lookup, lookup-insert, insert, All, ltb, leb, if◌then◌else◌,
  ◌==◌, by_test, arith, eq_refl,
}
use warehousd.Web.RateLimit.{
  Window, Windows, max_tracked, RateLimitOptions, RateLimitResult, ok, limited, is_live, sweep,
  swept, wait_seconds, on_existing, rate_limit,
}

length-insert : (k : String) (w : Window) (m : Windows) → length (insert k w m) ≤ length m + 1
length-insert k w [] = omega arith
length-insert k w (e ∷ m) =
    by_test (λ (x : Windows). length x ≤ length (e ∷ m) + 1) (e.0 == k) _ _ (λ _. omega arith)
      (λ _. omega (arith, length-insert k w m))

length-swept : (now : ℕ) (windows : Windows) → length (swept now windows) ≤ max_tracked
unfolding sweep
length-swept now windows =
    by_test (λ (x : Windows). length x ≤ max_tracked) (ltb max_tracked (length windows)) _ _
      (λ _.
        by_test (λ (x : Windows). length x ≤ max_tracked)
          (ltb max_tracked (length (filter (is_live now) windows))) _ _ (λ _. omega arith)
          (λ t. ground arith))
      (λ t. ground arith)

on_existing-length :
    (key : String) (opts : RateLimitOptions) (now : ℕ) (windows : Windows) (o : Option Window)
    → length (on_existing key opts now windows o).1 ≤ length windows + 1
on_existing-length key opts now windows none = length-insert key _ windows
on_existing-length key opts now windows (some w) =
    by_test (λ (x : RateLimitResult × Windows). length x.1 ≤ length windows + 1)
      (leb w.reset_at now) _ _ (λ _. length-insert key _ windows)
      (λ _.
        by_test (λ (x : RateLimitResult × Windows). length x.1 ≤ length windows + 1)
          (leb opts.max w.count) _ _ (λ _. omega arith) (λ _. length-insert key _ windows))

-- However many keys are tried, the map has one entry above the maximum of 10,000 at most after any
-- call.
pub length-rate_limit :
    (key : String) (opts : RateLimitOptions) (now : ℕ) (windows : Windows)
    → length (rate_limit key opts now windows).1 ≤ max_tracked + 1
unfolding rate_limit
length-rate_limit key opts now windows =
    let tracked = swept now windows in
    omega (
      arith,
      on_existing-length key opts now tracked (lookup key tracked),
      length-swept now windows,
    )

waits : (now reset_at : ℕ) → reset_at ≤ now + 1000 * wait_seconds (reset_at - now)
waits now reset_at = ground arith

swept_idle :
    (now : ℕ) (windows : Windows) → length windows ≤ max_tracked → swept now windows ≡ windows
unfolding sweep
swept_idle now windows h = ground arith

-- The state of a refusal: the window that the key has, and when it ends.
abbrev Refuses : String → ℕ → Windows → RateLimitResult × Windows → Type 0
Refuses key now tracked (ok, after) = Unit
Refuses key now tracked (limited s, after) =
    (w : Window) × (lookup key tracked ≡ some w)
    × (s ≡ wait_seconds (w.reset_at - now))
    × (after ≡ tracked)

on_existing-Refuses :
    (key : String) (opts : RateLimitOptions) (now : ℕ) (tracked : Windows) (o : Option Window)
    → lookup key tracked ≡ o
    → Refuses key now tracked (on_existing key opts now tracked o)
on_existing-Refuses key opts now tracked none h = tt
on_existing-Refuses key opts now tracked (some w) h =
    by_test (Refuses key now tracked) (leb w.reset_at now) _ _ (λ _. tt)
      (λ _.
        by_test (Refuses key now tracked) (leb opts.max w.count) _ _ (λ _. (w, h, refl, refl))
          (λ _. tt))

-- A caller who was refused and told to retry after some seconds is admitted that many seconds later,
-- or at any later time, under any options, if nobody else calls in between.
pub rate_limit_retry :
    (key : String) (opts later : RateLimitOptions) (now then_ s : ℕ) (windows : Windows)
    → (rate_limit key opts now windows).0 ≡ limited s
    → now + 1000 * s ≤ then_
    → (rate_limit key later then_ (rate_limit key opts now windows).1).0 ≡ ok
unfolding rate_limit
rate_limit_retry key opts later now then_ s windows h k =
    at_answer (on_existing key opts now tracked (lookup key tracked))
      (on_existing-Refuses key opts now tracked (lookup key tracked) refl) h
  where
    tracked : Windows
    tracked = swept now windows

    at_answer :
        (r : RateLimitResult × Windows)
        → Refuses key now tracked r
        → r.0 ≡ limited s
        → (rate_limit key later then_ r.1).0 ≡ ok
    at_answer (ok, after) f e = absurd (cc)
    at_answer (limited s', after) (w, found, seconds_are, same) e =
        let told : s' ≡ s = ground arith in
        let idle : swept then_ tracked ≡ tracked =
          swept_idle then_ tracked (length-swept now windows) in
        let over : leb w.reset_at then_ ≡ true = ground (arith, waits now w.reset_at) in
        subst (λ m. (rate_limit key later then_ m).0 ≡ ok) (sym same)
          (ap (λ m. (on_existing key later then_ m (lookup key m)).0) idle
            ∙ ap (λ o. (on_existing key later then_ tracked o).0) found
            ∙ rw (over, if◌then◌else◌) refl)

-- The calls of one key at these times, one after the other: how many of them are admitted.
abbrev one_if_ok : RateLimitResult → ℕ
one_if_ok ok = 1
one_if_ok (limited s) = 0

unfoldable pub admitted : String → RateLimitOptions → List ℕ → Windows → ℕ
admitted key opts [] windows = 0
admitted key opts (now ∷ times) windows =
    let answer = rate_limit key opts now windows in
    one_if_ok answer.0 + admitted key opts times answer.1

-- The smaller of two numbers.
abbrev pub lesser : ℕ → ℕ → ℕ
lesser m n = if leb m n then m else n

-- Every time stands before the end of the window.
abbrev pub AllBefore : ℕ → List ℕ → Type 0
AllBefore end times = All (λ t. t < end) times

length-insert_again :
    (k : String) (w v : Window) (m : Windows)
    → lookup k m ≡ some v
    → length (insert k w m) ≡ length m
length-insert_again k w v [] h = absurd (cc)
length-insert_again k w v (e ∷ m) h =
    by_test (λ (x : Windows). length x ≡ length (e ∷ m)) (e.0 == k) _ _ (λ _. refl)
      (λ t. omega (arith, length-insert_again k w v m (ground arith)))

call_in_window :
    (key : String) (opts : RateLimitOptions) (now : ℕ) (windows : Windows) (w : Window)
    → length windows ≤ max_tracked
    → lookup key windows ≡ some w
    → now < w.reset_at
    → rate_limit key opts now windows ≡ (
        if leb opts.max w.count
        then (limited (wait_seconds (w.reset_at - now)), windows)
        else (ok, insert key (record { count = w.count + 1; reset_at = w.reset_at }) windows))
unfolding rate_limit
call_in_window key opts now windows w small found early =
    let open_still : leb w.reset_at now ≡ false = ground arith in
    ap (λ m. on_existing key opts now m (lookup key m)) (swept_idle now windows small)
    ∙ ap (on_existing key opts now windows) found
    ∙ rw (open_still, if◌then◌else◌) refl

-- Of the calls of a key whose window is open and has counted `w.count` calls, exactly as many as are
-- left of the maximum are admitted until the window ends, or all of them if they are fewer, while the
-- map is not over its bound and no other key is used.
pub admitted_exactly :
    (key : String) (opts : RateLimitOptions) (times : List ℕ) (windows : Windows) (w : Window)
    → length windows ≤ max_tracked
    → lookup key windows ≡ some w
    → AllBefore w.reset_at times
    → admitted key opts times windows ≡ lesser (length times) (opts.max - w.count)
unfolding admitted
admitted_exactly key opts [] windows w small found early = ground arith
admitted_exactly key opts (now ∷ times) windows w small found (early, rest) =
    subst
      (λ a.
        one_if_ok a.0 + admitted key opts times a.1
        ≡ lesser (length (now ∷ times)) (opts.max - w.count))
      (sym (call_in_window key opts now windows w small found early))
      (by_test
        (λ (a : RateLimitResult × Windows).
          one_if_ok a.0 + admitted key opts times a.1
          ≡ lesser (length (now ∷ times)) (opts.max - w.count))
        (leb opts.max w.count) _ _
        (λ t. ground (arith, admitted_exactly key opts times windows w small found rest))
        (λ t.
          let next : Window = record { count = w.count + 1; reset_at = w.reset_at } in
          let left =
            admitted_exactly key opts times (insert key next windows) next
              (omega (arith, length-insert_again key next w windows found))
              (lookup-insert key key next windows ∙ rw (eq_refl key, if◌then◌else◌) refl) rest in
          ground (arith, left)))

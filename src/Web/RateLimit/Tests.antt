-- ===== src/Web/RateLimit/Tests.antt =====
-- Runs of rate-limit.ts, and its theorems at them.
use warehousd.Prelude.{◌+◌, ◌≤◌, ◌≡◌, refl, [], ◌∷◌, length, arith}
use warehousd.Web.RateLimit.{Windows, max_tracked, RateLimitOptions, ok, limited, rate_limit}
use warehousd.Web.RateLimit.Laws.{length-rate_limit, rate_limit_retry, admitted, admitted_exactly}

abbrev opts : RateLimitOptions
opts = record { max = 2; window_ms = 2500 }

abbrev spent : Windows
spent = ("ann", record { count = 2; reset_at = 2500 }) ∷ []

spent_run : (rate_limit "ann" opts 100 spent).0 ≡ limited 3
unfolding rate_limit
spent_run = refl

length-rate_limit_example : length (rate_limit "bob" opts 100 spent).1 ≤ max_tracked + 1
length-rate_limit_example = length-rate_limit "bob" opts 100 spent

rate_limit_retry_example : (rate_limit "ann" opts 3100 (rate_limit "ann" opts 100 spent).1).0 ≡ ok
rate_limit_retry_example = rate_limit_retry "ann" opts opts 100 3100 3 spent spent_run (omega arith)

abbrev once : Windows
once = ("ann", record { count = 1; reset_at = 2500 }) ∷ []

admitted_run : admitted "ann" opts (100 ∷ 200 ∷ 300 ∷ []) once ≡ 1
unfolding admitted rate_limit
admitted_run = refl

admitted_exactly_example : admitted "ann" opts (100 ∷ 200 ∷ 300 ∷ []) once ≡ 1
admitted_exactly_example =
    admitted_exactly "ann" opts (100 ∷ 200 ∷ 300 ∷ []) once (record { count = 1; reset_at = 2500 })
      (omega arith) refl (omega arith, (omega arith, (omega arith, tt)))

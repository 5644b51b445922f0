-- ===== src/Web/RateLimit.antt =====
-- apps/web/lib/rate-limit.ts: the fixed-window counter of the credential endpoints. `windows` is the
-- map of the process, and times are in milliseconds.
pub mod Laws
mod Tests
use warehousd.Prelude.{
  ℕ, ◌+◌, ◌-◌, ◌/◌, String, Bool, true, false, not, Option, none, some, List, [], ◌∷◌, length,
  filter, lookup, insert, ltb, leb, if◌then◌else◌,
}

pub record Window : Type 0 where
  pub count : ℕ
  pub reset_at : ℕ

abbrev pub Windows : Type 0
Windows = List (String × Window)

abbrev pub max_tracked : ℕ
max_tracked = 10000

pub record RateLimitOptions : Type 0 where
  pub max : ℕ
  pub window_ms : ℕ

pub data RateLimitResult : Type 0 where
  ok : RateLimitResult
  limited : ℕ → RateLimitResult

abbrev pub is_live : ℕ → String × Window → Bool
is_live now entry = not (leb entry.1.reset_at now)

unfoldable pub sweep : ℕ → Windows → Windows
sweep now windows =
    let live = filter (is_live now) windows in if ltb max_tracked (length live) then [] else live

abbrev pub swept : ℕ → Windows → Windows
swept now windows = if ltb max_tracked (length windows) then sweep now windows else windows

-- `Math.max(1, Math.ceil(ms / 1000))`
abbrev pub wait_seconds : ℕ → ℕ
wait_seconds ms = let up = (ms + 999) / 1000 in if leb 1 up then up else 1

abbrev pub open_window : String → RateLimitOptions → ℕ → Windows → RateLimitResult × Windows
open_window key opts now windows =
    (ok, insert key (record { count = 1; reset_at = now + opts.window_ms }) windows)

abbrev pub on_existing :
    String → RateLimitOptions → ℕ → Windows → Option Window → RateLimitResult × Windows
on_existing key opts now windows none = open_window key opts now windows
on_existing key opts now windows (some w) =
    if leb w.reset_at now
    then open_window key opts now windows
    else if leb opts.max w.count
    then (limited (wait_seconds (w.reset_at - now)), windows)
    else (ok, insert key (record { count = w.count + 1; reset_at = w.reset_at }) windows)

unfoldable pub rate_limit : String → RateLimitOptions → ℕ → Windows → RateLimitResult × Windows
unfolding sweep
rate_limit key opts now windows =
    let tracked = swept now windows in on_existing key opts now tracked (lookup key tracked)

-- The test seam.
abbrev reset_rate_limits : Windows
reset_rate_limits = []

-- ===== src/Policies/RateLimit.antt =====
-- `FixedWindowRateLimiter` of src/saas_platform/policies/rate_limit.py. A call of `allow` holds the
-- lock for its whole reading and writing of the counters, so calls are steps one after the other.
pub mod Window
pub mod Redis
use hosted_agents_saa_s_plat.Prelude.{
  string_eq, nat_eq, ℕ, ◌+◌, ◌/◌, String, Bool, true, false, Option, none, some, [], ◌==◌, leb, ℤ,
  pos, max_ℤ, pos_part, if◌then◌else◌,
}
use hosted_agents_saa_s_plat.Collections.Dict.{Dict, get, put}
use hosted_agents_saa_s_plat.Domain.Models.{Datetime}

pub record FixedWindowRateLimiter : Type 0 where
  pub requests_per_minute : ℕ
  pub counters : Dict String (ℕ × ℕ)

-- `__init__`; `max(requests_per_minute, 1)` is positive
unfoldable pub new_limiter : ℤ → FixedWindowRateLimiter
new_limiter requests_per_minute = record {
  requests_per_minute = pos_part (max_ℤ requests_per_minute (pos 1));
  counters = [];
}

-- `int(time.time() // 60)`
unfoldable pub window_of : Datetime → ℕ
window_of now = now / 60000000

-- the counter of a key, brought to the current window
abbrev pub current : ℕ → Option (ℕ × ℕ) → ℕ × ℕ
current now_window none = (now_window, 0)
current now_window (some (window, count)) =
    if window == now_window then (window, count) else (now_window, 0)

unfoldable pub allow_in : ℕ → String → FixedWindowRateLimiter → Bool × FixedWindowRateLimiter
allow_in now_window key s =
    let (window, count) = current now_window (get s.counters key) in
    if leb s.requests_per_minute count
    then (false, record s { counters = put s.counters key (window, count) })
    else (true, record s { counters = put s.counters key (window, count + 1) })

unfoldable pub allow : Datetime → String → FixedWindowRateLimiter → Bool × FixedWindowRateLimiter
unfolding allow_in window_of
allow now key s = allow_in (window_of now) key s

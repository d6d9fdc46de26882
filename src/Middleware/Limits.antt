-- ===== src/Middleware/Limits.antt =====
-- backend/pkg/middleware/ratelimit.go and the login throttle of security.go. The clock is an
-- argument, and a time is a number of nanoseconds. A lock is held over each of the steps below, so
-- that concurrent requests are a sequence of steps. A limit is at least 1.
pub mod Counting
pub mod Failures
use cargobay.Prelude.{
  ℕ, String, Bool, true, false, not, ◌+◌, ◌-◌, ◌/◌, Option, none, some, List, [], ◌∷◌, ◌++◌, ltb,
  leb, keep, length, ◌==◌, if◌then◌else◌,
}
use cargobay.Prelude.GoMap
use cargobay.Prelude.GoMap.{GoMap}

pub record RateInfo : Type 0 where
  pub count : ℕ
  pub window_end : ℕ

pub record RateLimiter : Type 0 where
  pub requests : GoMap RateInfo
  pub limit : ℕ
  pub window : ℕ

unfoldable pub new_rate_limiter : ℕ → ℕ → RateLimiter
new_rate_limiter limit window = record { requests = []; limit = limit; window = window }

-- one round of cleanupExpired
unfoldable pub cleanup : ℕ → RateLimiter → RateLimiter
cleanup now rl = record rl {
  requests = keep (λ entry. not (ltb entry.1.window_end now)) rl.requests;
}

-- What the middleware answers: the request goes on with what remains, or is refused with the
-- seconds after which to try again.
pub data RateVerdict : Type 0 where
  passed : ℕ → RateVerdict
  limited : ℕ → RateVerdict

-- the key of a request: X-Forwarded-For, or the address of the peer
unfoldable pub client_of : String → String → String
client_of forwarded_for remote_addr = if forwarded_for == "" then remote_addr else forwarded_for

unfoldable pub open_window : ℕ → String → RateLimiter → RateLimiter × RateVerdict
open_window now key rl = (
  record rl {
    requests = GoMap.put key (record { count = 1; window_end = now + rl.window }) rl.requests;
  },
  passed (rl.limit - 1),
)

unfoldable pub count_in : ℕ → String → RateInfo → RateLimiter → RateLimiter × RateVerdict
count_in now key info rl =
    if leb rl.limit info.count then (rl, limited ((info.window_end - now) / 1000000000)) else (
      record rl { requests = GoMap.put key (record info { count = info.count + 1 }) rl.requests },
      passed (rl.limit - (info.count + 1)),
    )

-- RateLimitMiddleware on one request
unfoldable pub rate_limit : ℕ → String → RateLimiter → RateLimiter × RateVerdict
unfolding open_window count_in
rate_limit now key rl = elim (GoMap.get key rl.requests) [
  | none ↦ open_window now key rl
  | some info ↦ if ltb info.window_end now then open_window now key rl else count_in now key info rl
]

-- the times at which logins from an address failed
pub record LoginThrottle : Type 0 where
  pub entries : GoMap (List ℕ)
  pub limit : ℕ
  pub window : ℕ

unfoldable pub new_login_throttle : ℕ → ℕ → LoginThrottle
new_login_throttle limit window = record { entries = []; limit = limit; window = window }

-- `t.After(now.Add(-window))`
abbrev pub is_recent : ℕ → ℕ → ℕ → Bool
is_recent now window t = ltb now (t + window)

module _ (split_host : String → Option String) where
  unfoldable pub normalize_ip : String → String
  normalize_ip s = elim (split_host s) [ some host ↦ host | none ↦ s ]

  unfoldable pub allow : ℕ → String → LoginThrottle → LoginThrottle × Bool
  unfolding normalize_ip
  allow now ip lt =
      let key = normalize_ip ip in
      elim (GoMap.get key lt.entries) [
        | none ↦ (lt, true)
        | some failed_at ↦
            let valid = keep (is_recent now lt.window) failed_at in
            if leb lt.limit (length valid)
            then (record lt { entries = GoMap.put key valid lt.entries }, false)
            else (lt, true)
      ]

  unfoldable pub record_failure : ℕ → String → LoginThrottle → LoginThrottle
  unfolding normalize_ip
  record_failure now ip lt =
      let key = normalize_ip ip in
      let failed_at : List ℕ = elim (GoMap.get key lt.entries) [ none ↦ [] | some times ↦ times ] in
      record lt { entries = GoMap.put key (failed_at ++ now ∷ []) lt.entries }

  -- LoginHandler: the Retry-After header of a refusal, in seconds
  unfoldable pub login_handler : ℕ → String → String → LoginThrottle → LoginThrottle × Option ℕ
  unfolding allow client_of
  login_handler now forwarded_for remote_addr lt =
      let (lt', allowed) = allow now (client_of forwarded_for remote_addr) lt in
      if not allowed
      then (lt', some (if ltb (lt.window / 1000000000) 1 then 1 else lt.window / 1000000000))
      else (lt', none)

-- ===== src/Limits.antt =====
-- The two rate limits of beatstream/internal/middleware/ratelimit.go and the token bucket of
-- interview-prep/rate-limiter/main.go. The Lua scripts and the Go code around them, over the
-- interface of Redis. Lua computes with floats; here tokens are whole numbers of a unit in which
-- every quantity of the scripts is whole, and times are nanoseconds.
pub mod Bucket
pub mod Rate
pub mod Retry
pub mod Login
pub mod Demo
mod Tests
use system_design_lab.Prelude.{
  ℕ, zero, suc, ◌+◌, ◌-◌, ◌*◌, ◌/◌, ◌≤◌, ◌<◌, ◌≡◌, String, Bool, true, false, not, Option, none,
  some, ◌==◌, text_eq, leb, ltb, eqb, min, max, if◌then◌else◌, ◌&&◌,
}
use system_design_lab.Prelude.Texts.{◌<>◌, itoa}
use system_design_lab.Redis.{Redis}
use system_design_lab.Gin.{Ctx, Verdict, next, abort, get_header, set_header}
use Bucket.{BucketHash, take_token}

-- Nanoseconds in a second.
abbrev pub second : ℕ
second = 1000000000

-- Where the stream limiter counts its decisions.
pub data Decision : Type 0 where
  allowed_auth allowed_redis_error denied allowed : Decision

-- A token is 3600 · 10⁹ units, so `maxPerHour` tokens an hour are `maxPerHour` units a nanosecond.
abbrev pub stream_token : ℕ
stream_token = 3600 * second

module _ (R : Redis BucketHash) where
  -- `down` says that the script's call fails; the state is then as it was.
  unfoldable pub stream_limit : ℕ → ℕ → Bool → Ctx → R.State → Verdict × Decision × R.State
  unfolding take_token
  stream_limit max_per_hour now down c s =
      if not (get_header c "X-User-ID" == "")
      then (next c, allowed_auth, s)
      else if down
      then (next c, allowed_redis_error, s)
      else let key = "ratelimit:stream:" <> c.client_ip in
        let (result, s') =
          take_token R (max_per_hour * stream_token) max_per_hour now stream_token key s in
        if eqb result 0
        then (
          abort 429 "rate limit exceeded: 100 streams per hour for unauthenticated requests"
              (set_header c "X-RateLimit-Limit" (itoa max_per_hour <> "/hour")),
          denied,
          s',
        )
        else (next c, allowed, s')

abbrev pub max_attempts : ℕ
max_attempts = 5

abbrev pub window : ℕ
window = 15 * 60 * second

-- Which of the limiter's calls fail.
pub record Faults : Type 0 where
  pub incr : Bool
  pub expire : Bool

abbrev pub or_zero : Option ℕ → ℕ
or_zero none = 0
or_zero (some n) = n

-- The helper `max` of the middleware, on the difference of two counts.
abbrev remaining : ℕ → ℕ
remaining count = max_attempts - count

module _ (R : Redis ℕ) where
  -- INCR starts from 0 for a missing key. An error of EXPIRE is ignored.
  unfoldable pub login_limit : Faults → Ctx → R.State → Verdict × R.State
  login_limit faults c s =
      if faults.incr
      then (next c, s)
      else let key = "ratelimit:login:" <> c.client_ip in
        let count = or_zero (R.get s key) + 1 in
        let counted = R.set s key count in
        let s' =
          if eqb count 1 && not faults.expire then R.expire counted key window else counted in
        let c' =
          set_header (set_header c "X-RateLimit-Limit" (itoa max_attempts)) "X-RateLimit-Remaining"
            (itoa (remaining count)) in
        if ltb max_attempts count
        then (
          abort 429 "too many login attempts — try again later"
              (set_header c' "Retry-After" (itoa (or_zero (R.ttl s' key) / second))),
          s',
        )
        else (next c', s')

-- ===== src/Limits/Bucket.antt =====
-- The two Lua scripts of the token bucket. A unit of tokens is so small that the refill of one
-- nanosecond is a whole number of units.
use system_design_lab.Prelude.{
  ℕ, ◌+◌, ◌-◌, ◌*◌, ◌/◌, String, Bool, true, false, Option, none, some, leb, ltb, min,
  if◌then◌else◌,
}
use system_design_lab.Redis.{Redis}

-- The Redis hash of a bucket, with the two fields that the scripts write together.
pub record BucketHash : Type 0 where
  pub tokens : ℕ
  pub last_refill : ℕ

-- HMGET of the two fields, with `or max_tokens` and `or now`.
abbrev pub read_bucket : Option BucketHash → ℕ → ℕ → BucketHash
read_bucket none max_tokens now = record { tokens = max_tokens; last_refill = now }
read_bucket (some b) max_tokens now = b

-- math.max(0, now - last_refill) is the truncated difference.
abbrev pub refilled : BucketHash → ℕ → ℕ → ℕ → ℕ
refilled b max_tokens refill_rate now =
    min max_tokens (b.tokens + (now - b.last_refill) * refill_rate)

abbrev pub bucket_ttl : ℕ
bucket_ttl = 7200 * 1000000000

module _ (R : Redis BucketHash) where
  -- The script of beatstream/internal/middleware/ratelimit.go: 1 or 0, and the new state.
  unfoldable pub take_token : ℕ → ℕ → ℕ → ℕ → String → R.State → ℕ × R.State
  take_token max_tokens refill_rate now requested key s =
      let new_tokens =
        refilled (read_bucket (R.get s key) max_tokens now) max_tokens refill_rate now in
      let keep = λ (left : ℕ).
        R.expire (R.set s key (record { tokens = left; last_refill = now })) key bucket_ttl in
      if leb requested new_tokens then (1, keep (new_tokens - requested)) else (0, keep new_tokens)

-- math.ceil(a / b) for a positive b.
abbrev pub ceil_div : ℕ → ℕ → ℕ
ceil_div a b = (a + (b - 1)) / b

-- In the script of interview-prep/rate-limiter the elapsed time may be negative, when the clock went
-- back, and so may the tokens: `spent` is what a negative elapsed time takes off.
pub record Level : Type 0 where
  pub held : ℕ
  pub spent : ℕ

-- tokens + elapsed * refill_rate, as `held - spent`.
abbrev pub level : BucketHash → ℕ → ℕ → Level
level b refill_rate now = record {
  held = b.tokens + (now - b.last_refill) * refill_rate;
  spent = (b.last_refill - now) * refill_rate;
}

-- cost - math.min(max_tokens, held - spent), which is positive where the script divides it.
abbrev pub deficit : ℕ → ℕ → Level → ℕ
deficit max_tokens cost l =
    if leb (max_tokens + l.spent) l.held then cost - max_tokens else cost + l.spent - l.held

-- What the script returns: the pair {1, 0}, or {0, seconds until a retry}.
pub data Reply : Type 0 where
  granted : Reply
  refused : ℕ → Reply

module _ (R : Redis BucketHash) where
  -- The script of interview-prep/rate-limiter, with refill_rate in units a nanosecond: a deficit of
  -- `refill_rate * 10⁹` units is a second. A refusal writes nothing.
  unfoldable pub allow_script : ℕ → ℕ → ℕ → ℕ → String → R.State → Reply × R.State
  allow_script max_tokens refill_rate now cost key s =
      let l = level (read_bucket (R.get s key) max_tokens now) refill_rate now in
      let missing = deficit max_tokens cost l in
      if ltb 0 missing
      then (refused (ceil_div missing (refill_rate * 1000000000)), s)
      else let left = min max_tokens (l.held - l.spent) - cost in
        let written = R.set s key (record { tokens = left; last_refill = now }) in
        (
          granted,
          R.expire written key (ceil_div max_tokens (refill_rate * 1000000000) * 2 * 1000000000),
        )

-- `Result` of the Go wrapper, with the retry time in nanoseconds.
pub record Result : Type 0 where
  pub allowed : Bool
  pub retry_after : ℕ

abbrev pub as_result : Reply → Result
as_result granted = record { allowed = true; retry_after = 0 }
as_result (refused seconds) = record { allowed = false; retry_after = seconds * 1000000000 }

module _ (R : Redis BucketHash) where
  -- `Allow`, with whole tokens and tokens a second: a token is 10⁹ units. `none` is the error of a call that failed.
  unfoldable pub allow : Bool → ℕ → ℕ → ℕ → ℕ → String → R.State → Option Result × R.State
  unfolding allow_script
  allow true max_tokens refill_rate cost now key s = (none, s)
  allow false max_tokens refill_rate cost now key s =
      let (reply, s') =
        allow_script R (max_tokens * 1000000000) refill_rate now (cost * 1000000000) key s in
      (some (as_result reply), s')

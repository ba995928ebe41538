-- ===== src/Limits/Demo.antt =====
-- `main` of interview-prep/rate-limiter/main.go, as the lines that it prints. For each request,
-- `fails` says that its call of Redis fails, and `now` is the clock; `duration` prints a time.Duration;
-- the text of an error is left out.
use system_design_lab.Prelude.{
  ℕ, zero, suc, ◌+◌, String, Bool, Option, none, some, List, [], ◌∷◌, ◌++◌, if◌then◌else◌,
}
use system_design_lab.Prelude.Texts.{◌<>◌, itoa, pad_left}
use system_design_lab.Redis.{Redis}
use system_design_lab.Limits.Bucket.{BucketHash, Result, allow}

abbrev user_key : String
user_key = "rate_limit:user:demo:stream"

abbrev request_line : ℕ → String → String
request_line i text = "request " <> (pad_left 2 (itoa i) <> (": " <> text))

-- The outcome in the first loop.
abbrev pub first_line : (ℕ → String) → ℕ → Option Result → String
first_line duration i none = request_line i "ERROR"
first_line duration i (some r) =
    if r.allowed
    then request_line i "ALLOWED"
    else request_line i ("DENIED  (retry after " <> (duration r.retry_after <> ")"))

-- The outcome in the second loop, which drops the error of a call.
abbrev pub second_line : ℕ → Option Result → String
second_line i none = request_line i "DENIED"
second_line i (some r) =
    if r.allowed then request_line i "ALLOWED (after refill)" else request_line i "DENIED"

module _ (R : Redis BucketHash) (fails : ℕ → Bool) (now : ℕ → ℕ) where
  -- The requests i, i + 1, …, with the line that each prints.
  unfoldable pub demand : (ℕ → Option Result → String) → ℕ → ℕ → R.State → List String × R.State
  unfolding allow
  demand line i zero s = ([], s)
  demand line i (suc n) s =
      let (result, s1) = allow R (fails i) 5 1 1 (now i) user_key s in
      let (lines, s2) = demand line (i + 1) n s1 in (line i result ∷ lines, s2)

  unfoldable pub main : (ℕ → String) → R.State → List String × R.State
  unfolding demand
  main duration s =
      let (first, s1) = demand (first_line duration) 1 10 s in
      let (second, s2) = demand second_line 11 5 s1 in
      (
        "Token bucket demo: capacity=5, refill=1/s\n"
            ∷ (first ++ ("\nWaiting 3 seconds for token refill..." ∷ second)),
        s2,
      )

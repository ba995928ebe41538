-- ===== src/Limits/Tests.antt =====
-- The theorems on the limits at concrete inputs, over the model of Redis in memory.
use system_design_lab.Prelude.{
  ℕ, ◌+◌, ◌*◌, ◌≤◌, ◌≡◌, refl, none, some, List, [], ◌∷◌, arith, text_eq,
}
use system_design_lab.Redis.Memory.{memory, empty}
use system_design_lab.Gin.{Ctx}
use system_design_lab.Limits.{stream_token, second}
use system_design_lab.Limits.Bucket.{BucketHash}
use system_design_lab.Limits.Rate.{granted as passing, elapsed, granted_bound}
use system_design_lab.Limits.Login.{attempts, attempts_in_window}

abbrev client : Ctx
client = record {
  method = "GET";
  full_path = "/v1/tracks/:id/stream";
  request_headers = [];
  cookies = [];
  params = [];
  client_ip = "10.0.0.1";
  user_agent = "";
  keys = [];
  headers = [];
}

-- The third request comes to an instance whose clock is behind.
abbrev stream_times : List (ℕ × ℕ)
stream_times =
    (0, 36 * second) ∷ (5, 36 * second) ∷ (36 * second, 5) ∷ (36 * second, 72 * second) ∷ []

granted_bound_example :
    passing (memory BucketHash) (100 * stream_token) 100 stream_token "k" 0 stream_times empty
      * stream_token
    ≤ 100 * stream_token + elapsed 0 stream_times * 100
granted_bound_example =
    granted_bound (memory BucketHash) (100 * stream_token) 100 stream_token "k" (omega arith) 0
      stream_times empty refl

abbrev drained : BucketHash
drained = record { tokens = 0; last_refill = 10 }

abbrev one_bucket : (memory BucketHash).State
one_bucket k = some (drained, none)

abbrev pauses : List ℕ
pauses = 1 ∷ 2 ∷ 3 ∷ 4 ∷ 5 ∷ 6 ∷ []

attempts_in_window_example : attempts (memory ℕ) client (0 ∷ pauses) empty ≡ 5
attempts_in_window_example = attempts_in_window (memory ℕ) client 0 pauses empty refl (omega arith)

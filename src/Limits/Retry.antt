-- ===== src/Limits/Retry.antt =====
-- The retry time that the token bucket of interview-prep/rate-limiter/main.go returns.
use system_design_lab.Prelude.{
  ℕ, ◌+◌, ◌-◌, ◌*◌, ◌≤◌, ◌<◌, ◌≡◌, sym, ap, ◌∙◌, inl, inr, String, Bool, true, false, not, leb, ltb,
  arith, Bool-cases, Option-cases, leb→le,
}
use native.Mathlib.Nat.{div-lt_iff_lt-mul, mul_assoc, mul_comm}
use system_design_lab.Redis.{Redis}
use system_design_lab.Limits.Bucket.{
  BucketHash, level, deficit, read_bucket, ceil_div, allow_script, Reply, granted, refused,
}

abbrev pub is_granted : Reply → Bool
is_granted granted = true
is_granted (refused seconds) = false

-- Rounding up: q whole steps of k reach a exactly when q is at least ceil_div a k.
pub ceil_div_iff : (a k q : ℕ) → 0 < k → leb (ceil_div a k) q ≡ leb a (q * k)
ceil_div_iff a k q h =
    let step = div-lt_iff_lt-mul {k = k} {x = a + (k - 1)} {y = q + 1} h in
    elim (Bool-cases (leb a (q * k))) [
      | inl enough ↦ ground (arith, step.1 (omega (arith, leb→le a (q * k) enough)))
      | inr short ↦ elim (Bool-cases (leb (ceil_div a k) q)) [
        | inl reached ↦ ground (arith, step.0 (omega (arith, leb→le (ceil_div a k) q reached)))
        | inr missed ↦ missed ∙ sym short
      ]
    ]

-- The elapsed times of two readings of the clock, as refills.
shift_time :
    (n d last rate : ℕ)
    → ((n + d) - last) * rate + (last - n) * rate
      ≡ (n - last) * rate + (last - (n + d)) * rate + d * rate
shift_time n d last rate =
    let e : ((n + d) - last) + (last - n) ≡ (n - last) + (last - (n + d)) + d = omega arith in
    omega (arith, ap (λ x. x * rate) e)

-- With the same bucket, d nanoseconds later the script grants exactly when the refill of that time
-- makes up for what was missing.
deficit_later :
    (b : BucketHash) (max_tokens rate cost n d : ℕ)
    → cost ≤ max_tokens
    → ltb 0 (deficit max_tokens cost (level b rate n)) ≡ true
    → ltb 0 (deficit max_tokens cost (level b rate (n + d)))
      ≡ ltb (d * rate) (deficit max_tokens cost (level b rate n))
deficit_later b max_tokens rate cost n d fits short =
    ground (arith, shift_time n d b.last_refill rate)

full_bucket :
    (max_tokens rate cost n : ℕ)
    → cost ≤ max_tokens
    → ltb 0
        (deficit max_tokens cost (level (record { tokens = max_tokens; last_refill = n }) rate n))
      ≡ true
    → ⊥
full_bucket max_tokens rate cost n fits short = ground arith

not-ltb : (a b : ℕ) → not (ltb a b) ≡ leb b a
not-ltb a b = ground arith

module _ (R : Redis BucketHash) (max_tokens rate cost : ℕ) (key : String) where
  abbrev missing : ℕ → R.State → ℕ
  missing n s = deficit max_tokens cost (level (read_bucket (R.get s key) max_tokens n) rate n)

  granted_iff :
      (n : ℕ) (s : R.State)
      → is_granted (allow_script R max_tokens rate n cost key s).0 ≡ not (ltb 0 (missing n s))
  unfolding allow_script
  granted_iff n s = elim (Bool-cases (ltb 0 (missing n s))) [
    | inl short ↦ rw short
    | inr enough ↦ rw enough
  ]

  refused_lem :
      (n seconds : ℕ) (s : R.State)
      → (allow_script R max_tokens rate n cost key s).0 ≡ refused seconds
      → (ltb 0 (missing n s) ≡ true) × (seconds ≡ ceil_div (missing n s) (rate * 1000000000))
  unfolding allow_script
  refused_lem n seconds s e = elim (Bool-cases (ltb 0 (missing n s))) [
    | inl short ↦ (short, ground (arith, e, short))
    | inr enough ↦ absurd (ground (arith, e, enough))
  ]

  -- After a refusal that says to retry after some seconds, a call a whole number of seconds later
  -- that finds the same bucket is granted exactly when that number is at least the one returned, if
  -- the bucket can hold the cost and is refilled at all.
  pub retry_exact :
      (n seconds q : ℕ) (s t : R.State)
      → 0 < rate
      → cost ≤ max_tokens
      → (allow_script R max_tokens rate n cost key s).0 ≡ refused seconds
      → R.get t key ≡ R.get s key
      → is_granted (allow_script R max_tokens rate (n + q * 1000000000) cost key t).0
        ≡ leb seconds q
  retry_exact n seconds q s t pos fits e same =
      let (short, rounded) = refused_lem n seconds s e in
      elim (Option-cases (R.get s key)) [
        | inl fresh ↦ absurd (full_bucket max_tokens rate cost n fits (rw fresh at short))
        | inr (b, there) ↦
            let lacking = deficit max_tokens cost (level b rate n) in
            let later =
              deficit_later b max_tokens rate cost n (q * 1000000000) fits (rw there at short) in
            granted_iff (n + q * 1000000000) t
            ∙ rw (same, there) (rw later (not-ltb (q * 1000000000 * rate) lacking))
            ∙ ap (leb lacking)
                (mul_assoc q 1000000000 rate ∙ ap (λ k. q * k) (mul_comm 1000000000 rate))
            ∙ sym (ceil_div_iff lacking (rate * 1000000000) q (omega arith))
            ∙ ap (λ k. leb k q) (rw there at (sym rounded))
      ]

-- ===== src/Limits/Rate.antt =====
-- How many requests the token bucket of beatstream/internal/middleware/ratelimit.go lets through.
use system_design_lab.Prelude.{
  ℕ, ◌+◌, ◌-◌, ◌*◌, ◌≤◌, ◌≡◌, refl, ap, ◌⊎◌, inl, inr, String, none, some, List, [], ◌∷◌, length,
  leb, min, max, arith, Bool-cases, ==-refl, text_eq, leb→le,
}
use system_design_lab.Redis.{Redis}
use system_design_lab.Limits.Bucket.{BucketHash, bucket_ttl, take_token, read_bucket, refilled}

-- The time of the requests, each with the pause before it and its reading of the clock: for each the
-- longer of its pause and of what the clock has gone forward since the reading before. The clocks of
-- two instances differ, so that a reading may also be earlier than the one before.
abbrev pub elapsed : ℕ → List (ℕ × ℕ) → ℕ
elapsed t [] = 0
elapsed t ((pause, n) ∷ ns) = max pause (n - t) + elapsed n ns

-- Requests at the readings of one clock.
abbrev pub steps : ℕ → List ℕ → List (ℕ × ℕ)
steps t [] = []
steps t (n ∷ ns) = (n - t, n) ∷ steps n ns

-- Consecutive requests are at least `gap` apart.
abbrev pub IsSpaced : ℕ → ℕ → List ℕ → Type 0
IsSpaced gap t [] = Unit {0}
IsSpaced gap t (n ∷ ns) = (t + gap ≤ n) × IsSpaced gap n ns

scale : (a b c : ℕ) → a ≤ b → a * c ≤ b * c
scale a b c h = grind arith

max_left : (a b c : ℕ) → a ≤ b → a ≤ max b c
max_left a b c h = ground arith

max_right : (b c : ℕ) → c ≤ max b c
max_right b c = ground arith

module _ (R : Redis BucketHash) (max_tokens refill_rate requested : ℕ) (key : String) where
  -- Requests of one key, each with the pause before it and its reading of the clock: how many pass.
  -- The reading before them is `t`.
  pub granted : ℕ → List (ℕ × ℕ) → R.State → ℕ
  granted t [] s = 0
  granted t ((pause, n) ∷ ns) s =
      let (r, s') = take_token R max_tokens refill_rate n requested key (R.wait pause s) in
      r + granted n ns s'

  -- What is in the bucket right after a request at time `t`, or before the first one.
  available : R.State → ℕ
  available s = (read_bucket (R.get s key) max_tokens 0).tokens

  -- A bucket that is there was written at time `t`.
  IsBucket : ℕ → R.State → Type 0
  IsBucket t s =
      (R.get s key ≡ none)
      ⊎ ((tokens : ℕ) × (R.get s key ≡ some (record { tokens = tokens; last_refill = t }))
          × (R.ttl s key ≡ some bucket_ttl))

  abbrev refill : ℕ → R.State → ℕ
  refill n s = refilled (read_bucket (R.get s key) max_tokens n) max_tokens refill_rate n

  abbrev keep : ℕ → ℕ → R.State → R.State
  keep left n s = R.expire (R.set s key (record { tokens = left; last_refill = n })) key bucket_ttl

  get-keep :
      (left n : ℕ) (s : R.State)
      → R.get (keep left n s) key ≡ some (record { tokens = left; last_refill = n })
  get-keep left n s = simp (R.get-expire, R.get-set, ==-refl)

  ttl-keep : (left n : ℕ) (s : R.State) → R.ttl (keep left n s) key ≡ some bucket_ttl
  ttl-keep left n s =
      let b : BucketHash = record { tokens = left; last_refill = n } in
      let there : R.get (R.set s key b) key ≡ some b = simp (R.get-set, ==-refl) in
      rw (R.ttl-expire (R.set s key b) key key bucket_ttl b there) (simp ==-refl)

  keep-IsBucket : (left n : ℕ) (s : R.State) → IsBucket n (keep left n s)
  unfolding IsBucket
  keep-IsBucket left n s = inr (left, get-keep left n s, ttl-keep left n s)

  available-keep : (left n : ℕ) (s : R.State) → available (keep left n s) ≡ left
  unfolding available
  available-keep left n s = ap (λ o. (read_bucket o max_tokens 0).tokens) (get-keep left n s)

  -- One request: the bucket is written, and what it held is what is left and what was taken.
  record Spends (n : ℕ) (s : R.State) (r : ℕ) (t : R.State) : Type 0 where
    bucket : IsBucket n t
    balance : available t + r * requested ≡ refill n s
    passes : requested ≤ refill n s → r ≡ 1

  take_token_lem :
      (n : ℕ) (s : R.State)
      → let (r, s') = take_token R max_tokens refill_rate n requested key s in Spends n s r s'
  unfolding take_token
  take_token_lem n s = elim (Bool-cases (leb requested (refill n s))) [
    | inl enough ↦ rw enough (record {
      bucket = keep-IsBucket (refill n s - requested) n s;
      balance = omega (
        arith,
        available-keep (refill n s - requested) n s,
        leb→le requested (refill n s) enough,
      );
      passes = λ h. refl;
    })
    | inr short ↦ rw short (record {
      bucket = keep-IsBucket (refill n s) n s;
      balance = omega (arith, available-keep (refill n s) n s);
      passes = λ h. absurd (ground arith);
    })
  ]

  -- After a pause the bucket holds at most what it held and the refill of the pause; a bucket whose
  -- key has expired would have been full.
  module _ (covers : max_tokens ≤ bucket_ttl * refill_rate) where
    refill-wait :
        (t pause n : ℕ) (s : R.State)
        → IsBucket t s
        → (refill n (R.wait pause s) ≤ available s + max pause (n - t) * refill_rate)
          × (min max_tokens ((n - t) * refill_rate) ≤ refill n (R.wait pause s))
    unfolding available IsBucket
    refill-wait t pause n s (inl gone) =
        ground (arith, R.get-wait s pause key, R.ttl_none s key gone)
    refill-wait t pause n s (inr (tokens, there, live)) = elim (Bool-cases (leb bucket_ttl pause)) [
      | inl over ↦ ground (
        arith,
        R.get-wait s pause key,
        scale bucket_ttl (max pause (n - t)) refill_rate
            (max_left bucket_ttl pause (n - t) (leb→le bucket_ttl pause over)),
      )
      | inr kept ↦ ground (
        arith,
        R.get-wait s pause key,
        scale (n - t) (max pause (n - t)) refill_rate (max_right pause (n - t)),
      )
    ]

    -- The requests that pass take no more than the bucket held and the refill until the last one.
    granted_from :
        (t : ℕ) (ns : List (ℕ × ℕ)) (s : R.State)
        → IsBucket t s
        → granted t ns s * requested ≤ available s + elapsed t ns * refill_rate
    unfolding granted
    granted_from t [] s b = omega arith
    granted_from t ((pause, n) ∷ ns) s b =
        let (r, s') = take_token R max_tokens refill_rate n requested key (R.wait pause s) in
        let spent = take_token_lem n (R.wait pause s) in
        let later = granted_from n ns s' spent.bucket in
        let (bound, _) = refill-wait t pause n s b in omega (arith, spent.balance)

    -- A client that has no bucket yet passes at most as often as the bucket's capacity and the refill of
    -- the whole time allow, whatever the pauses between its requests and the readings of the clock, which
    -- may go back, where the bucket's time to live covers a full refill. The time of a request is the
    -- longer of its pause and of the advance of its reading. Tokens are exact, which Lua's floats are not.
    pub granted_bound :
        (t : ℕ) (ns : List (ℕ × ℕ)) (s : R.State)
        → R.get s key ≡ none
        → granted t ns s * requested ≤ max_tokens + elapsed t ns * refill_rate
    granted_bound t ns s fresh =
        let bound = granted_from t ns s (unfold IsBucket in inl fresh) in
        unfold available in ground (arith, bound)

    spaced_from :
        (t gap : ℕ) (ns : List ℕ) (s : R.State)
        → requested ≤ max_tokens
        → requested ≤ gap * refill_rate
        → IsSpaced gap t ns
        → IsBucket t s
        → granted t (steps t ns) s ≡ length ns
    unfolding granted
    spaced_from t gap [] s fits paid a b = refl
    spaced_from t gap (n ∷ ns) s fits paid a b =
        let (r, s') = take_token R max_tokens refill_rate n requested key (R.wait (n - t) s) in
        let spent = take_token_lem n (R.wait (n - t) s) in
        let later = spaced_from n gap ns s' fits paid a.1 spent.bucket in
        let (_, enough) = refill-wait t (n - t) n s b in
        omega (arith, spent.passes (omega (arith, scale gap (n - t) refill_rate (omega arith))))

    -- A client whose requests, at the readings of one clock, are so far apart that each gap refills one request is never denied,
    -- if the bucket can hold a request.
    pub granted_spaced :
        (t gap : ℕ) (ns : List ℕ) (s : R.State)
        → requested ≤ max_tokens
        → requested ≤ gap * refill_rate
        → IsSpaced gap t ns
        → R.get s key ≡ none
        → granted t (steps t ns) s ≡ length ns
    granted_spaced t gap ns s fits paid a fresh =
        spaced_from t gap ns s fits paid a (unfold IsBucket in inl fresh)
